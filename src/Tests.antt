-- ===== src/Tests.antt =====
-- Runs of the server on concrete inputs, which show that the hypotheses of the theorems can hold.
mod Data
mod Authority
mod Root
mod Cli
mod Serving
mod Stores
mod Tokens
mod Hosts
mod Streams
mod Enrollments
mod Commands
mod Requests
