-- ===== src/Process/Order.antt =====
-- The order in which the server starts and stops.
use praetor_server.Process.Interleaved.{interleave-first, interleave-second, all_effects}
use praetor_server.Process.{
  http_end, grpc_end, http_cut, Listener, serves, breaks, refused, late, effects_of, interleave,
  grpc_run, http_run, grpc_failed, http_failed, opened,
}
use praetor_server.Sql.{select}
use praetor_server.Prelude.{
  not, ◌++◌, sym, subst, All-append, ap, if◌then◌else◌, String, ◌≡◌, ◌⊎◌, refl, true, false, List,
  [], ◌∷◌, Bool-cases, inl, inr, Bool, All, arith,
}
use praetor_server.Config.{Config, Loaded, loaded, invalid, load}
use praetor_server.Database.{PoolConfig, Connected, pool, no_pool, connect}
use praetor_server.Authority.Root.{Ca, Made, made, failed, new}
use praetor_server.Cli.Flags.{config_flags, Parsed, parsed, wrong_usage, parse, text_of, help}
use praetor_server.Cli.Flags
use praetor_server.Process
use praetor_server.Process.{
  World, Effect, End, exited, ended, StartError, run_server, grpc_served, pool_opened, with_config,
  http_served, job_started, config_error, ca_ready, grpc_stopped, with_ca, with_pool, with_flags,
  grpc_forced, ca_error, postgres_error, flag_error, http_stopped, listen_error, pool_closed,
}

-- An effect that serves no client.
abbrev pub is_private : Effect → Bool
is_private (grpc_served a) = false
is_private (http_served a) = false
is_private _ = true

abbrev pub IsPrivate : Effect → Type 0
IsPrivate x = is_private x ≡ true

-- The server has exited without serving anyone.
abbrev pub IsFailed : End × List Effect → Type 0
IsFailed o = (e : StartError) × (o.0 ≡ exited e) × All IsPrivate o.1

-- The effects that a listener can have by how it fares, from that of its start and of its error.
pub data Ran (up down : Effect) : Listener → List Effect → Type 0 where
  ran : Ran up down serves (up ∷ [])
  fell : Ran up down breaks (up ∷ down ∷ [])
  never_up : Ran up down refused (down ∷ [])
  not_started : Ran up down late []

abbrev pub is_http : Effect → Bool
is_http (http_served a) = true
is_http (http_failed a) = true
is_http _ = false

-- How HTTP is stopped: requests are cut off only when it has served, some are in flight, and gRPC was
-- stopped by force or they do not end in the time left.
pub record IsStopped (w : World) (end : Effect) : Type 0 where
  pub unserved : (w.http ≡ refused) ⊎ (w.http ≡ late) → end ≡ http_stopped
  pub idle : w.idle ≡ true → end ≡ http_stopped
  pub in_time : w.graceful ≡ true → w.drained ≡ true → end ≡ http_stopped
  pub forced :
      (w.http ≡ serves) ⊎ (w.http ≡ breaks)
      → w.idle ≡ false
      → (w.graceful ≡ false) ⊎ (w.drained ≡ false)
      → end ≡ http_cut

-- What was there before the listeners, and the whole run: `middle` are the effects of the listeners
-- with the end of gRPC.
pub record IsOrderly (w : World) (o : End × List Effect) : Type 0 where
  pub path : String
  pub cfg : Config
  pub configured : load (w.env.files path) ≡ loaded cfg
  pub database : PoolConfig
  pub connected : (connect w.env.pgx cfg.postgres_dsn 0).0 ≡ pool database
  pub ca : Ca
  pub certified :
      (new w.crypto w.os w.random w.now cfg.grpc_server_dns_names (w.directory cfg.data_dir)).0
      ≡ made ca
  pub middle : List Effect
  pub http_last : Effect
  pub run : o ≡ (
    ended,
    pool_opened
        ∷ job_started cfg.alert_webhook_url
        ∷ ca_ready ca
        ∷ (middle ++ http_last ∷ pool_closed ∷ []),
  )
  pub http :
      Ran (http_served cfg.http_listen) (http_failed cfg.http_listen) w.http (select is_http middle)
  pub grpc : List Effect
  pub grpc_ran : Ran (grpc_served cfg.grpc_listen) (grpc_failed cfg.grpc_listen) w.grpc grpc
  pub others :
      select (λ x. not (is_http x)) middle
      ≡ grpc ++ (if w.graceful then grpc_stopped else grpc_forced) ∷ []
  pub stopped : IsStopped w http_last

effects_of-Ran : (l : Listener) (up down : Effect) → Ran up down l (effects_of l up down)
effects_of-Ran serves up down = ran
effects_of-Ran breaks up down = fell
effects_of-Ran refused up down = never_up
effects_of-Ran late up down = not_started

unopened : (l : Listener) → (l ≡ refused) ⊎ (l ≡ late) → opened l ≡ false
unopened l (inl e) = rw e refl
unopened l (inr e) = rw e refl

was_opened : (l : Listener) → (l ≡ serves) ⊎ (l ≡ breaks) → opened l ≡ true
was_opened l (inl e) = rw e refl
was_opened l (inr e) = rw e refl

http_end-IsStopped : (w : World) → IsStopped w (http_end w)
http_end-IsStopped w = record {
  unserved = λ h. ground (arith, unopened w.http h);
  idle = λ e. ground (arith, e);
  in_time = λ g d. ground (arith, g, d);
  forced = λ h n g. ground (arith, was_opened w.http h, n, g);
}

module _ (w : World) (cfg : Config) where
  grpc_end-others : (is_http (grpc_end w)) ≡ false
  grpc_end-others = elim (Bool-cases w.graceful) [ inl y ↦ rw y refl | inr n ↦ rw n refl ]

  grpc_run-All :
      (P : Effect → Type 0)
      → P (grpc_served cfg.grpc_listen)
      → P (grpc_failed cfg.grpc_listen)
      → P (grpc_end w)
      → All P (grpc_run w cfg)
  grpc_run-All P u d e =
      All-append P (effects_of w.grpc (grpc_served cfg.grpc_listen) (grpc_failed cfg.grpc_listen))
        (grpc_end w ∷ [])
        (all_effects P w.grpc (grpc_served cfg.grpc_listen) (grpc_failed cfg.grpc_listen) u d)
        (e, tt)

  http_part : select is_http (interleave w.order (http_run w cfg) (grpc_run w cfg)) ≡ http_run w cfg
  http_part =
      interleave-first is_http w.order (http_run w cfg) (grpc_run w cfg)
        (all_effects (λ x. is_http x ≡ true) w.http (http_served cfg.http_listen)
          (http_failed cfg.http_listen) refl refl)
        (grpc_run-All (λ x. is_http x ≡ false) refl refl grpc_end-others)

  grpc_part :
      select (λ x. not (is_http x)) (interleave w.order (http_run w cfg) (grpc_run w cfg))
      ≡ grpc_run w cfg
  grpc_part =
      interleave-second (λ x. not (is_http x)) w.order (http_run w cfg) (grpc_run w cfg)
        (all_effects (λ x. not (is_http x) ≡ false) w.http (http_served cfg.http_listen)
          (http_failed cfg.http_listen) refl refl)
        (grpc_run-All (λ x. not (is_http x) ≡ true) refl refl (ap not grpc_end-others))

-- The start in a state that leaves one of the two.
IsStart : World → End × List Effect → Type 0
IsStart w o = IsFailed o ⊎ IsOrderly w o

module _ (w : World) (path : String) (cfg : Config)
    (configured : load (w.env.files path) ≡ loaded cfg) where
  ca-ordered :
      (p : PoolConfig) (m : Made Ca)
      → (connect w.env.pgx cfg.postgres_dsn 0).0 ≡ pool p
      → (new w.crypto w.os w.random w.now cfg.grpc_server_dns_names (w.directory cfg.data_dir)).0
        ≡ m
      → IsStart w (with_ca w cfg (pool_opened ∷ job_started cfg.alert_webhook_url ∷ []) m)
  unfolding IsStart
  ca-ordered p (failed x) c e = inl (ca_error x, refl, (refl, (refl, tt)))
  ca-ordered p (made ca) c e = elim (Bool-cases (w.listen cfg.grpc_listen)) [
    | inr n ↦ inl (listen_error cfg.grpc_listen, rw n refl, rw n (refl, (refl, (refl, tt))))
    | inl y ↦ inr (record {
      path = path;
      cfg = cfg;
      configured = configured;
      database = p;
      connected = c;
      ca = ca;
      certified = e;
      middle = interleave w.order (http_run w cfg) (grpc_run w cfg);
      http_last = http_end w;
      run = rw y refl;
      http =
          subst (Ran (http_served cfg.http_listen) (http_failed cfg.http_listen) w.http)
            (sym (http_part w cfg))
            (effects_of-Ran w.http (http_served cfg.http_listen) (http_failed cfg.http_listen));
      grpc = effects_of w.grpc (grpc_served cfg.grpc_listen) (grpc_failed cfg.grpc_listen);
      grpc_ran = effects_of-Ran w.grpc (grpc_served cfg.grpc_listen) (grpc_failed cfg.grpc_listen);
      others = grpc_part w cfg;
      stopped = http_end-IsStopped w;
    })
  ]

  pool-ordered :
      (c : Connected) → (connect w.env.pgx cfg.postgres_dsn 0).0 ≡ c → IsStart w (with_pool w cfg c)
  unfolding IsStart
  pool-ordered (no_pool x) e = inl (postgres_error x, refl, tt)
  pool-ordered (pool p) e =
      ca-ordered p
        (new w.crypto w.os w.random w.now cfg.grpc_server_dns_names (w.directory cfg.data_dir)).0 e
        refl

module _ (w : World) where
  config-ordered :
      (path : String) (l : Loaded) → load (w.env.files path) ≡ l → IsStart w (with_config w l)
  unfolding IsStart
  config-ordered path (invalid x) e = inl (config_error x, refl, tt)
  config-ordered path (loaded cfg) e =
      pool-ordered w path cfg e (connect w.env.pgx cfg.postgres_dsn 0).0 refl

  flags-ordered : (p : Parsed) → IsStart w (with_flags w p)
  unfolding IsStart
  flags-ordered wrong_usage = inl (flag_error, refl, tt)
  flags-ordered Flags.help = inl (Process.help, refl, tt)
  flags-ordered (parsed v rest) =
      let path = text_of "config" v in config-ordered path (load (w.env.files path)) refl

-- The server exits during its start and serves nobody; or it has loaded its configuration, connected
-- to Postgres and made its CA before either listener serves. The listeners run beside main, in any
-- order: each has the effects that belong to how it fares, in their order, an error of one of them
-- ends neither the other nor the server, and gRPC is stopped, gracefully or by force, behind all that
-- its listener did. HTTP is stopped after that and after all that its listener did, and the pool is
-- closed last. HTTP requests in flight are cut off when gRPC was stopped by force, and when they do
-- not end in the time left, and never else.
pub run_server_ordered :
    (w : World) (args : List String)
    → IsFailed (run_server w args) ⊎ IsOrderly w (run_server w args)
unfolding run_server IsStart
run_server_ordered w args = flags-ordered w (parse w.env.parse_duration args config_flags)
