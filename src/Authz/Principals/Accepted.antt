-- ===== src/Authz/Principals/Accepted.antt =====
-- Who is accepted: what stands behind every principal that authentication returns.
use text.Mathlib.Text.{starts_with}
use ocspcrltesting.Schema.{User, ApiToken, Db}
use ocspcrltesting.Settings.{Settings}
use ocspcrltesting.Authz.{Role, parse, Principal}
use ocspcrltesting.Authz.Principals.{
  auth_active, get_user, looks_like_api_token, bearer, for_user, for_row, principal_from_token,
  principal_from_cookie, principal_from_request, current_principal, active_user,
}
use ocspcrltesting.Authz.Principals.Bearer.{IsBearer, bearer_sound, bearer_complete}
use ocspcrltesting.Prelude.{
  find?, ◌==◌, ℕ, String, ◌≡◌, refl, inl, inr, true, Option, none, some, List, [], ◌∷◌, arith,
  str_eq, is_empty, Bool-cases, Option-cases, filter, ok, scalar_one_or_none, >>=-eq-ok,
}

-- What a principal rests on: a live token row of an active user, whose scope and ceiling it has, or
-- a signed cookie of an active user. `Sends` are the tokens that came, and `Keeps` the cookies.
pub data Backed (Sends Keeps : String → Type 0) (hash_token : String → String)
    (verify_session : String → Option ℕ) (db : Db) (p : Principal) : Type 0 where
  by_token :
      (raw : String) (row : ApiToken) (ceiling : Role)
      → Sends raw
      → starts_with raw "ocspt_" ≡ true
      → filter (λ t. str_eq t.token_hash (hash_token raw)) db.tokens ≡ row ∷ []
      → row.revoked_at ≡ none
      → find? (λ u. u.id == row.user_id) db.users ≡ some p.user
      → p.user.is_active ≡ true
      → p.token_workspace_id ≡ row.workspace_id
      → parse row.role_ceiling ≡ ok ceiling
      → p.token_role_ceiling ≡ some ceiling
      → Backed Sends Keeps hash_token verify_session db p
  by_cookie :
      (cookie : String) (user_id : ℕ)
      → Keeps cookie
      → verify_session cookie ≡ some user_id
      → find? (λ u. u.id == user_id) db.users ≡ some p.user
      → p.user.is_active ≡ true
      → p.token_role_ceiling ≡ none
      → p.token_workspace_id ≡ none
      → Backed Sends Keeps hash_token verify_session db p

-- A request sends the token of its bearer header; its cookie counts where there is no such header.
abbrev pub KeepsAlone : String → Option String → String → Type 0
KeepsAlone authz stored cookie = (stored ≡ some cookie) × ((raw : String) → ¬ IsBearer authz raw)

module _ (Sends Keeps : String → Type 0) (hash_token : String → String)
    (verify_session : String → Option ℕ) where
  module _ (raw : String) (sent : Sends raw) (now : ℕ) (db : Db) (p : Principal) where
    abbrev rows : List ApiToken
    rows = filter (λ t. str_eq t.token_hash (hash_token raw)) db.tokens

    for_user-Backed :
        (row : ApiToken) (found : Option User)
        → starts_with raw "ocspt_" ≡ true
        → rows ≡ row ∷ []
        → row.revoked_at ≡ none
        → get_user db row.user_id ≡ found
        → (for_user now row db found).0 ≡ ok (some p)
        → Backed Sends Keeps hash_token verify_session db p
    unfolding for_user get_user
    for_user-Backed row none marked one live got h = cc
    for_user-Backed row (some user) marked one live got h = elim (Bool-cases user.is_active) [
      | inr idle ↦ ground (arith, idle)
      | inl active ↦
          let (ceiling, parsed, made) = >>=-eq-ok (parse row.role_ceiling) _ (rw active at h) in
          by_token raw row ceiling sent marked one live (ground (arith, got))
            (ground (arith, active)) (ground arith) parsed (ground arith)
    ]

    for_row-Backed :
        (found : List ApiToken)
        → starts_with raw "ocspt_" ≡ true
        → rows ≡ found
        → (for_row now db (scalar_one_or_none found)).0 ≡ ok (some p)
        → Backed Sends Keeps hash_token verify_session db p
    unfolding for_row
    for_row-Backed [] marked e h = cc
    for_row-Backed (x ∷ y ∷ r) marked e h = cc
    for_row-Backed (row ∷ []) marked e h = elim (Option-cases row.revoked_at) [
      | inl live ↦ for_user-Backed row (get_user db row.user_id) marked e live refl (rw live at h)
      | inr (t, gone) ↦ ground (arith, gone)
    ]

    pub token-Backed :
        (principal_from_token hash_token verify_session raw now db).0 ≡ ok (some p)
        → Backed Sends Keeps hash_token verify_session db p
    unfolding principal_from_token
    token-Backed h = elim (Bool-cases (looks_like_api_token raw)) [
      | inl e ↦ for_row-Backed rows e refl (rw e at h)
      | inr e ↦ ground (arith, e)
    ]

  active_user-Backed :
      (db : Db) (p : Principal) (cookie : String) (id : ℕ) (found : Option User)
      → Keeps cookie
      → verify_session cookie ≡ some id
      → get_user db id ≡ found
      → active_user found ≡ some p
      → Backed Sends Keeps hash_token verify_session db p
  unfolding active_user get_user
  active_user-Backed db p cookie id none kept e got h = cc
  active_user-Backed db p cookie id (some user) kept e got h =
      by_cookie cookie id kept e (ground (arith, got)) (ground arith) (ground arith) (ground arith)

  pub cookie-Backed :
      (cookie : Option String) (db : Db) (p : Principal)
      → ((text : String) → cookie ≡ some text → Keeps text)
      → principal_from_cookie hash_token verify_session cookie db ≡ some p
      → Backed Sends Keeps hash_token verify_session db p
  unfolding principal_from_cookie
  cookie-Backed none db p keep h = cc
  cookie-Backed (some cookie) db p keep h = elim (Bool-cases (is_empty cookie)) [
    | inl e ↦ ground (arith, e)
    | inr e ↦ elim (Option-cases (verify_session cookie)) [
      | inl bad ↦ ground (arith, e, bad)
      | inr (id, good) ↦
          active_user-Backed db p cookie id (get_user db id) (keep cookie refl) good refl
            (rw (e, good) at h)
    ]
  ]

module _ (hash_token : String → String) (verify_session : String → Option ℕ) where
  request-Backed :
      (authz : String) (cookie : Option String) (now : ℕ) (db : Db) (p : Principal)
      → (principal_from_request hash_token verify_session authz cookie now db).0 ≡ ok (some p)
      → Backed (IsBearer authz) (KeepsAlone authz cookie) hash_token verify_session db p
  unfolding principal_from_request
  request-Backed authz cookie now db p h = elim (Option-cases (bearer authz)) [
    | inl e ↦
        cookie-Backed (IsBearer authz) (KeepsAlone authz cookie) hash_token verify_session cookie db
          p (λ text kept. (kept, λ raw b. cc (bearer_complete authz raw b, e))) (ground (arith, e))
    | inr (raw, e) ↦
        token-Backed (IsBearer authz) (KeepsAlone authz cookie) hash_token verify_session raw
          (bearer_sound authz raw e) now db p (rw (e, principal_from_request) at h)
  ]

  -- While authentication is active, the principal of a request comes from the token of its
  -- bearer header, which has an API token's prefix and is that of one unrevoked row of an active
  -- user, with that row's scope and ceiling; or, without a bearer header, from the request's
  -- signed cookie of an active user, with neither.
  pub current_principal-Backed :
      (s : Settings) (authz : String) (cookie : Option String) (now : ℕ) (db : Db) (p : Principal)
      → auth_active s ≡ true
      → (current_principal hash_token verify_session s authz cookie now db).0 ≡ ok p
      → Backed (IsBearer authz) (KeepsAlone authz cookie) hash_token verify_session db p
  unfolding current_principal
  current_principal-Backed s authz cookie now db p on h =
      let (found, e, some_p) =
        >>=-eq-ok (principal_from_request hash_token verify_session authz cookie now db).0 _
          (rw on at h) in
      request-Backed authz cookie now db p (ground (arith, e, some_p))
