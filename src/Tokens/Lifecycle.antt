-- ===== src/Tokens/Lifecycle.antt =====
-- The life of an API token: issued, accepted, revoked, refused.
use ocspcrltesting.Schema.{User, ApiToken, Db}
use ocspcrltesting.Audit.{record_event}
use ocspcrltesting.Authz.{Role, parse, Principal}
use ocspcrltesting.Authz.Principals.{get_user, looks_like_api_token, principal_from_token}
use ocspcrltesting.Tokens.{
  TokenCreateIn, create_token, revoke_token, new_token, check_scope, with_id,
}
use ocspcrltesting.Prelude.{
  ℕ, String, ◌≡◌, refl, ◌≢◌, inl, inr, Bool, true, not, Option, none, some, List, [], ◌∷◌, ◌++◌,
  arith, str_eq, eq_refl, ◌==◌, is_some, ==_refl, Bool-cases, filter, find?, update, filter-append,
  http_error, ok, err, >>=-eq-ok, guard-eq-ok, or_raise-eq-ok,
}

-- The rows of a hash that no other token has, after a token with it is added.
filter-fresh :
    (test : ApiToken → Bool) (ts : List ApiToken) (t : ApiToken)
    → filter test ts ≡ []
    → test t ≡ true
    → filter test (ts ++ t ∷ []) ≡ t ∷ []
filter-fresh test ts t none_yet hit = rw (filter-append test ts, none_yet, hit)

module _ (hash_token : String → String) (verify_session : String → Option ℕ) where
  -- A live row of an active user is accepted.
  accepted_row :
      (raw : String) (now : ℕ) (db : Db) (row : ApiToken) (user : User) (ceiling : Role)
      → looks_like_api_token raw ≡ true
      → filter (λ t. str_eq t.token_hash (hash_token raw)) db.tokens ≡ row ∷ []
      → row.revoked_at ≡ none
      → get_user db row.user_id ≡ some user
      → user.is_active ≡ true
      → parse row.role_ceiling ≡ ok ceiling
      → (principal_from_token hash_token verify_session raw now db).0
        ≡ ok (
            some (record {
              user = user;
              token_workspace_id = row.workspace_id;
              token_role_ceiling = some ceiling;
            }))
  unfolding principal_from_token
  accepted_row raw now db row user ceiling prefix one live known active parsed =
      rw (prefix, one, live, known, active, parsed)

  create_token_shape :
      (raw : String) (new_id : ℕ) (payload : TokenCreateIn) (p : Principal) (db : Db) (t : ApiToken)
      (db' : Db)
      → create_token hash_token raw new_id payload p db ≡ ok (t, db')
      → (ceiling : Role) × (parse payload.role_ceiling ≡ ok ceiling)
        × (db'.users ≡ db.users)
        × (db'.tokens ≡ db.tokens ++ new_token (hash_token raw) new_id p payload ∷ [])
  unfolding create_token record_event
  create_token_shape raw new_id payload p db t db' h =
      let (direct, h₁) = guard-eq-ok (not (is_some p.token_role_ceiling)) _ _ h in
      let (ceiling, parsed, h₂) = >>=-eq-ok (parse payload.role_ceiling) _ h₁ in
      let (u, checked, h₃) = >>=-eq-ok (check_scope p db payload.workspace_id) _ h₂ in
      (ceiling, parsed, ground (arith, h₃), ground (arith, h₃))

  -- A token that an active user creates, with an API token's prefix and a fresh hash, signs that
  -- user in with the scope and the ceiling that were asked for.
  pub create_token-accepted :
      (raw : String) (new_id now : ℕ) (payload : TokenCreateIn) (p : Principal) (db : Db)
      (t : ApiToken) (db' : Db)
      → looks_like_api_token raw ≡ true
      → filter (λ t. str_eq t.token_hash (hash_token raw)) db.tokens ≡ []
      → get_user db p.user.id ≡ some p.user
      → p.user.is_active ≡ true
      → create_token hash_token raw new_id payload p db ≡ ok (t, db')
      → (q : Principal) × ((principal_from_token hash_token verify_session raw now db').0
          ≡ ok (some q))
        × (q.user ≡ p.user)
        × (q.token_workspace_id ≡ payload.workspace_id)
        × (ceiling : Role) × (parse payload.role_ceiling ≡ ok ceiling)
        × (q.token_role_ceiling ≡ some ceiling)
  unfolding new_token get_user
  create_token-accepted raw new_id now payload p db t db' prefix fresh known active h =
      let (ceiling, parsed, users, tokens) = create_token_shape raw new_id payload p db t db' h in
      (
        record {
          user = p.user;
          token_workspace_id = payload.workspace_id;
          token_role_ceiling = some ceiling;
        },
        accepted_row raw now db' (new_token (hash_token raw) new_id p payload) p.user ceiling prefix
            (rw tokens (filter-fresh _ db.tokens _ fresh (eq_refl (hash_token raw)))) refl
            (rw users known) active parsed,
        refl,
        refl,
        ceiling,
        parsed,
        refl,
      )

-- A caller with a role ceiling is refused a new token with 403, and a caller who does not own a
-- stored token is refused its revocation with 404.
pub token_powers :
    (hash_token : String → String) (raw : String) (id now : ℕ) (payload : TokenCreateIn)
    (p : Principal) (db : Db) (ceiling : Role) (t : ApiToken)
    → p.token_role_ceiling ≡ some ceiling
    → find? (with_id id) db.tokens ≡ some t
    → t.user_id ≢ p.user.id
    → (create_token hash_token raw id payload p db ≡ err (http_error 403))
      × (revoke_token id now p db ≡ err (http_error 404))
unfolding create_token revoke_token
token_powers hash_token raw id now payload p db ceiling t capped found foreign =
    (rw capped, ground (arith, found))

find?-update :
    (test : ApiToken → Bool) (f : ApiToken → ApiToken) (ts : List ApiToken) (t : ApiToken)
    → ((a : ApiToken) → test (f a) ≡ test a)
    → find? test ts ≡ some t
    → find? test (update test f ts) ≡ some (f t)
find?-update test f [] t keeps h = cc
find?-update test f (x ∷ ts) t keeps h = ground (arith, keeps x, find?-update test f ts t keeps)

-- The rows of one hash after a change that leaves hashes alone.
filter-update :
    (by : String) (test : ApiToken → Bool) (f : ApiToken → ApiToken) (ts : List ApiToken)
    → ((a : ApiToken) → (f a).token_hash ≡ a.token_hash)
    → filter (λ t. str_eq t.token_hash by) (update test f ts)
      ≡ update test f (filter (λ t. str_eq t.token_hash by) ts)
filter-update by test f [] keeps = refl
filter-update by test f (x ∷ ts) keeps = ground (arith, keeps x, filter-update by test f ts keeps)

abbrev revoked : ℕ → ApiToken → ApiToken
revoked now t = record t { revoked_at = some now }

revoke_token-tokens :
    (id now : ℕ) (p : Principal) (db db' : Db)
    → revoke_token id now p db ≡ ok db'
    → db'.tokens ≡ update (with_id id) (revoked now) db.tokens
unfolding revoke_token record_event
revoke_token-tokens id now p db db' h =
    let (t, found, h₁) = or_raise-eq-ok (find? (with_id id) db.tokens) _ _ h in
    let (own, h₂) = guard-eq-ok (t.user_id == p.user.id) _ _ h₁ in ground (arith, h₂)

-- If one row has the hash of a raw token, then after its revocation the raw token signs nobody in
-- and changes nothing.
pub revoke_token-refused :
    (hash_token : String → String) (verify_session : String → Option ℕ) (raw : String)
    (id now later : ℕ) (p : Principal) (db db' : Db) (t : ApiToken)
    → filter (λ t. str_eq t.token_hash (hash_token raw)) db.tokens ≡ t ∷ []
    → t.id ≡ id
    → revoke_token id now p db ≡ ok db'
    → principal_from_token hash_token verify_session raw later db' ≡ (ok none, db')
unfolding principal_from_token
revoke_token-refused hash_token verify_session raw id now later p db db' t one is h =
    let dead : filter (λ t. str_eq t.token_hash (hash_token raw)) db'.tokens ≡ revoked now t ∷ [] =
      rw (
        revoke_token-tokens id now p db db' h,
        filter-update (hash_token raw) (with_id id) (revoked now) db.tokens (λ a. refl),
        one,
        is,
        ==_refl id,
      ) in
    elim (Bool-cases (looks_like_api_token raw)) [ inl e ↦ rw (e, dead) | inr e ↦ rw e ]
