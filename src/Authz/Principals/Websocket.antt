-- ===== src/Authz/Principals/Websocket.antt =====
-- Who is accepted on a websocket.
use ocspcrltesting.Prelude.Text.{strip}
use ocspcrltesting.Schema.{ApiToken, Db}
use ocspcrltesting.Settings.{Settings}
use ocspcrltesting.Authz.{Principal}
use ocspcrltesting.Authz.Principals.{
  auth_active, looks_like_api_token, bearer, for_user, for_row, principal_from_token,
  principal_from_websocket, otherwise, optional_token, query_token,
}
use ocspcrltesting.Authz.Principals.Bearer.{IsBearer, bearer_sound}
use ocspcrltesting.Authz.Principals.Accepted.{Backed, token-Backed, cookie-Backed}
use ocspcrltesting.Prelude.{
  ℕ, String, ◌≡◌, refl, subst, inl, inr, ◌⊎◌, true, Option, none, some, List, [], ◌∷◌, arith,
  str_eq, Bool-cases, filter, Result, ok, err, scalar_one_or_none,
}

-- A websocket also sends its query's token, and its cookie counts in any case.
abbrev pub SendsEither : String → Option String → String → Type 0
SendsEither authz query raw =
    IsBearer authz raw ⊎ ((text : String) × (query ≡ some text) × (raw ≡ strip text))

query_token-sent :
    (query : Option String) (raw : String)
    → query_token query ≡ some raw
    → (text : String) × (query ≡ some text) × (raw ≡ strip text)
unfolding query_token
query_token-sent none raw h = cc
query_token-sent (some text) raw h = (text, refl, ground (arith, h))

module _ (hash_token : String → String) (verify_session : String → Option ℕ) where
  -- A token that does not lead to a principal leaves the database as it was.
  for_row-unused :
      (now : ℕ) (db : Db) (rows : List ApiToken)
      → (for_row now db (scalar_one_or_none rows)).0 ≡ ok none
      → (for_row now db (scalar_one_or_none rows)).1 ≡ db
  unfolding for_row for_user
  for_row-unused now db [] h = refl
  for_row-unused now db (x ∷ y ∷ r) h = refl
  for_row-unused now db (row ∷ []) h = ground arith

  token-unused :
      (raw : String) (now : ℕ) (db : Db)
      → (principal_from_token hash_token verify_session raw now db).0 ≡ ok none
      → (principal_from_token hash_token verify_session raw now db).1 ≡ db
  unfolding principal_from_token
  token-unused raw now db h = elim (Bool-cases (looks_like_api_token raw)) [
    | inl e ↦ rw e (
        for_row-unused now db (filter (λ t. str_eq t.token_hash (hash_token raw)) db.tokens)
          (rw e at h))
    | inr e ↦ rw e
  ]

  optional-Backed :
      (Sends Keeps : String → Type 0) (raw : Option String) (now : ℕ) (db : Db) (p : Principal)
      → ((text : String) → raw ≡ some text → Sends text)
      → (optional_token hash_token verify_session raw now db).0 ≡ ok (some p)
      → Backed Sends Keeps hash_token verify_session db p
  unfolding optional_token
  optional-Backed Sends Keeps none now db p sends h = cc
  optional-Backed Sends Keeps (some raw) now db p sends h =
      token-Backed Sends Keeps hash_token verify_session raw (sends raw refl) now db p h

  optional-unused :
      (raw : Option String) (now : ℕ) (db : Db)
      → (optional_token hash_token verify_session raw now db).0 ≡ ok none
      → (optional_token hash_token verify_session raw now db).1 ≡ db
  unfolding optional_token
  optional-unused none now db h = refl
  optional-unused (some raw) now db h = token-unused raw now db h

  -- One source after the other, where a source that finds none changes nothing.
  otherwise-Backed :
      (Goal : Type 0) (source : Result (Option Principal) × Db)
      (next : Db → Result (Option Principal) × Db) (db : Db) (p : Principal)
      → (source.0 ≡ ok (some p) → Goal)
      → (source.0 ≡ ok none → source.1 ≡ db)
      → ((next db).0 ≡ ok (some p) → Goal)
      → (otherwise source next).0 ≡ ok (some p)
      → Goal
  unfolding otherwise
  otherwise-Backed Goal (ok none, db') next db p here same later h =
      later (subst (λ d. (next d).0 ≡ ok (some p)) (same refl) h)
  otherwise-Backed Goal (ok (some q), db') next db p here same later h = here h
  otherwise-Backed Goal (err e, db') next db p here same later h = cc

  -- While authentication is active, the principal of a websocket comes from an unrevoked token
  -- or a signed cookie of an active user, as that of a request does.
  pub websocket-Backed :
      (s : Settings) (authz : String) (token cookie : Option String) (now : ℕ) (db : Db)
      (p : Principal)
      → auth_active s ≡ true
      → (principal_from_websocket hash_token verify_session s authz token cookie now db).0
        ≡ ok (some p)
      → Backed (SendsEither authz token) (λ text. cookie ≡ some text) hash_token verify_session db p
  unfolding principal_from_websocket
  websocket-Backed s authz token cookie now db p on h =
      let Sends = SendsEither authz token in
      let Keeps : String → Type 0 = λ text. cookie ≡ some text in
      let Goal = Backed Sends Keeps hash_token verify_session db p in
      otherwise-Backed Goal (optional_token hash_token verify_session (bearer authz) now db) _ db p
        (optional-Backed Sends Keeps (bearer authz) now db p
          (λ raw e. inl (bearer_sound authz raw e)))
        (optional-unused (bearer authz) now db)
        (otherwise-Backed Goal (optional_token hash_token verify_session (query_token token) now db)
          _ db p
          (optional-Backed Sends Keeps (query_token token) now db p
            (λ raw e. inr (query_token-sent token raw e)))
          (optional-unused (query_token token) now db)
          (λ k.
            cookie-Backed Sends Keeps hash_token verify_session cookie db p (λ text e. e)
              (ground (arith, k))))
        (rw on at h)
