-- ===== src/Api/Routes/Safe.antt =====
-- Which requests can change something, and which learn something.
use praetor_server.Prelude.{
  subst, sym, String, ◌≡◌, ◌≢◌, refl, List, [], ◌∷◌, ◌++◌, Bool-cases, inl, inr, codes, string_eq,
  ◌==◌,
}
use praetor_server.Api.{failure, success, unauthorized, Reply}
use praetor_server.Api.Auth.{bearer_auth, bearer_exact}
use praetor_server.Api.Routes.{
  Settings, World, Request, Server, Answer, redirected, not_found, method_not_allowed, replied,
  health, serve, handle, behind_auth, outer, is_clean, serves, pick, match_v1, routed, among,
  collection, member, authorized,
}

-- An answer that tells nothing of the server's state.
abbrev pub IsPublic : Answer → Type 0
IsPublic redirected = Unit
IsPublic not_found = Unit
IsPublic method_not_allowed = Unit
IsPublic (replied (failure e)) = e ≡ unauthorized
IsPublic (replied (success status health)) = Unit
IsPublic (replied (success status b)) = ⊥

-- The state is as it was, and the answer is public.
abbrev pub IsShut : Server → Answer × Server → Type 0
IsShut s o = (o.1 ≡ s) × IsPublic o.0

module _ (c : Settings) (w : World) (r : Request) (s : Server) where
  module _ (ne : r.authorization ≢ codes "Bearer " ++ c.api_key) where
    behind-IsShut : (rest : List String) → IsShut s (behind_auth c w r rest s)
    unfolding behind_auth
    behind-IsShut rest =
        let (_, turned_away) = bearer_exact c.api_key r.authorization (success 200 tt) in
        rw (turned_away ne) (refl, refl)

    outer-IsShut : (path : List String) → IsShut s (outer c w r path s)
    outer-IsShut [] = (refl, tt)
    outer-IsShut (name ∷ []) = elim (Bool-cases (name == "healthz")) [
      | inl y ↦ elim (Bool-cases (serves "GET" r.method)) [
        | inl z ↦ rw (y, z) (refl, tt)
        | inr z ↦ rw (y, z) (refl, tt)
      ]
      | inr n ↦ elim (Bool-cases (name == "v1")) [
        | inl z ↦ rw (n, z) (refl, tt)
        | inr z ↦ rw (n, z) (refl, tt)
      ]
    ]
    outer-IsShut (name ∷ next ∷ rest) = elim (Bool-cases (name == "v1")) [
      | inl y ↦ rw y (behind-IsShut (next ∷ rest))
      | inr n ↦ rw n (refl, tt)
    ]

    -- A request without the API key changes nothing, and its answer is a redirection, a 404, a 405, the
    -- answer of /healthz or the error for a missing key.
    pub serve-IsShut : IsShut s (serve c w r s)
    unfolding serve
    serve-IsShut = elim (Bool-cases (is_clean r.path)) [
      | inl y ↦ rw y (outer-IsShut r.path)
      | inr n ↦ rw n (refl, tt)
    ]

module _ (c : Settings) (w : World) (r : Request) (s : Server) where
  collection-reads : (name : String) → (routed c w r (among "GET" (collection name)) s).1 ≡ s
  unfolding pick handle
  collection-reads name = elim (Bool-cases (name == "hosts")) [
    | inl y ↦ rw y refl
    | inr n ↦ elim (Bool-cases (name == "tokens")) [
      | inl y ↦ rw (n, y) refl
      | inr m ↦ elim (Bool-cases (name == "commands")) [
        | inl y ↦ rw (n, m, y) refl
        | inr k ↦ elim (Bool-cases (name == "security-events")) [
          | inl y ↦ rw (n, m, k, y) refl
          | inr l ↦ rw (n, m, k, l) refl
        ]
      ]
    ]
  ]

  member-reads : (name id : String) → (routed c w r (among "GET" (member name id)) s).1 ≡ s
  unfolding pick handle
  member-reads name id = elim (Bool-cases (id == "")) [
    | inl y ↦ rw y refl
    | inr e ↦ elim (Bool-cases (name == "hosts")) [
      | inl y ↦ rw (e, y) refl
      | inr n ↦ elim (Bool-cases (name == "tokens")) [
        | inl y ↦ rw (e, n, y) refl
        | inr m ↦ elim (Bool-cases (name == "commands")) [
          | inl y ↦ rw (e, n, m, y) refl
          | inr k ↦ rw (e, n, m, k) refl
        ]
      ]
    ]
  ]

  match-reads : (rest : List String) → (routed c w r (match_v1 "GET" rest) s).1 ≡ s
  unfolding match_v1
  match-reads [] = refl
  match-reads (name ∷ []) = collection-reads name
  match-reads (name ∷ id ∷ []) = member-reads name id
  match-reads (name ∷ id ∷ more ∷ rest) = refl

  reply-reads :
      (rest : List String) (o : Reply (Unit {0}))
      → r.method ≡ "GET"
      → (authorized c w r rest o s).1 ≡ s
  reply-reads rest (failure e) get = refl
  reply-reads rest (success status u) get =
      subst (λ m. (routed c w r (match_v1 m rest) s).1 ≡ s) (sym get) (match-reads rest)

  behind-reads : (rest : List String) → r.method ≡ "GET" → (behind_auth c w r rest s).1 ≡ s
  unfolding behind_auth
  behind-reads rest get =
      reply-reads rest (bearer_auth c.api_key r.authorization (success 200 tt)) get

  outer-reads : (path : List String) → r.method ≡ "GET" → (outer c w r path s).1 ≡ s
  outer-reads [] get = refl
  outer-reads (name ∷ []) get = elim (Bool-cases (name == "healthz")) [
    | inl y ↦ rw y refl
    | inr n ↦ elim (Bool-cases (name == "v1")) [ inl z ↦ rw (n, z) refl | inr z ↦ rw (n, z) refl ]
  ]
  outer-reads (name ∷ next ∷ rest) get = elim (Bool-cases (name == "v1")) [
    | inl y ↦ rw y (behind-reads (next ∷ rest) get)
    | inr n ↦ rw n refl
  ]

  -- A GET changes nothing, with the API key or without.
  pub serve_get : r.method ≡ "GET" → (serve c w r s).1 ≡ s
  unfolding serve
  serve_get get = elim (Bool-cases (is_clean r.path)) [
    | inl y ↦ rw y (outer-reads r.path get)
    | inr n ↦ rw n refl
  ]
