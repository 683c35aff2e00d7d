-- ===== src/Admin/Accounts.antt =====
-- What an admin's changes of users lead to.
use ocspcrltesting.Schema.{User, Workspace, Db}
use ocspcrltesting.Settings.{Settings}
use ocspcrltesting.Audit.{record_event}
use ocspcrltesting.Authz.{Principal}
use ocspcrltesting.Provisioning.{
  ensure_personal_workspace, create_personal_workspace, is_personal_of,
}
use ocspcrltesting.Login.{Failures, is_local, rate_limited, local_login}
use ocspcrltesting.Admin.{
  LocalUserCreateIn, require_global_admin, new_user, create_local_user, with_id, set_user_active,
}
use ocspcrltesting.Prelude.{
  ℕ, String, ◌≡◌, ◌∙◌, refl, sym, ap, subst, Bool, true, false, not, ◌&&◌, Option, none, some, List,
  [], ◌∷◌, ◌++◌, arith, if◌then◌else◌, find?-holds, ◌==◌, is_some, filter, find?, update,
  filter-append, eq_refl, Bool-cases, inl, inr, ok, guard-eq-ok, >>=-eq-ok, or_raise-eq-ok,
  ok-injective, scalar_one_or_none,
}

-- The row that the change makes of a row.
abbrev set_to : ℕ → Bool → User → User
set_to user_id active u = if u.id == user_id then record u { is_active = active } else u

find?-set :
    (id user_id : ℕ) (active : Bool) (us : List User) (u : User)
    → find? (with_id id) us ≡ some u
    → find? (with_id id) (update (with_id user_id) (λ x. record x { is_active = active }) us)
      ≡ some (set_to user_id active u)
find?-set id user_id active [] u h = absurd (cc h)
find?-set id user_id active (x ∷ us) u h = elim (Bool-cases (x.id == id)) [
  | inl e ↦
      let same : x ≡ u = ground (arith, h, e) in
      subst
        (λ y.
          find? (with_id id)
            (update (with_id user_id) (λ z. record z { is_active = active }) (x ∷ us))
          ≡ some (set_to user_id active y))
        same (kept e)
  | inr e ↦
      let later = find?-set id user_id active us u (ground (arith, h, e)) in
      elim (Bool-cases (x.id == user_id)) [ inl k ↦ rw (k, e) later | inr k ↦ rw (k, e) later ]
]
  where
    kept :
        (x.id == id) ≡ true
        → find?
            (with_id id)
            (update (with_id user_id) (λ z. record z { is_active = active }) (x ∷ us))
          ≡ some (set_to user_id active x)
    kept e = elim (Bool-cases (x.id == user_id)) [ inl k ↦ rw (k, e) refl | inr k ↦ rw (k, e) refl ]

require_global_admin_sound :
    (p a : Principal) → require_global_admin p ≡ ok a → p.user.is_global_admin ≡ true
unfolding require_global_admin
require_global_admin_sound p a h = (guard-eq-ok p.user.is_global_admin _ _ h).0

still_active :
    (user_id : ℕ) (active : Bool) (p : Principal) (user u : User)
    → (u.id == p.user.id) ≡ true
    → (user.id == user_id) ≡ true
    → not (not active && user.id == p.user.id) ≡ true
    → u.is_active ≡ true
    → (set_to user_id active u).is_active ≡ true
still_active user_id true p user u own target guarded alive = elim (Bool-cases (u.id == user_id)) [
  | inl e ↦ rw e refl
  | inr e ↦ rw e alive
]
still_active user_id false p user u own target guarded alive = elim (Bool-cases (u.id == user_id)) [
  | inl e ↦ absurd (ground (arith, own, target, guarded, e))
  | inr e ↦ rw e alive
]

same_rights :
    (user_id : ℕ) (active : Bool) (u : User)
    → (set_to user_id active u).is_global_admin ≡ u.is_global_admin
same_rights user_id active u = elim (Bool-cases (u.id == user_id)) [
  | inl e ↦ rw e refl
  | inr e ↦ rw e refl
]

-- After a change of a user's activity that succeeds, the admin who made it is a global admin, and
-- if that admin's row was active, then it is found with the same rights and still active.
pub set_user_active_keeps :
    (user_id : ℕ) (active : Bool) (p : Principal) (db db' : Db) (changed u : User)
    → set_user_active user_id active p db ≡ ok (changed, db')
    → find? (with_id p.user.id) db.users ≡ some u
    → u.is_active ≡ true
    → (p.user.is_global_admin ≡ true)
      × ((u' : User) × (find? (with_id p.user.id) db'.users ≡ some u')
          × (u'.is_active ≡ true)
          × (u'.is_global_admin ≡ u.is_global_admin))
unfolding set_user_active require_global_admin record_event
set_user_active_keeps user_id active p db db' changed u h found alive =
    let (a, may, h₁) = >>=-eq-ok (require_global_admin p) _ h in
    let (user, there, h₂) = or_raise-eq-ok (find? (with_id user_id) db.users) _ _ h₁ in
    let (guarded, h₃) = guard-eq-ok (not (not active && user.id == p.user.id)) _ _ h₂ in
    let own = find?-holds (with_id p.user.id) db.users u found in
    let target = find?-holds (with_id user_id) db.users user there in
    (
      require_global_admin_sound p a may,
      (
        set_to user_id active u,
        subst (λ us. find? (with_id p.user.id) us ≡ some (set_to user_id active u))
            (ap (λ r. r.1.users) (ok-injective _ _ h₃))
            (find?-set p.user.id user_id active db.users u found),
        still_active user_id active p user u own target guarded alive,
        same_rights user_id active u,
      ),
    )

personal_workspace-users :
    (new_id : ℕ) (user : User) (db : Db) (made : Workspace × Db)
    → ensure_personal_workspace new_id user db ≡ ok made
    → made.1.users ≡ db.users
unfolding ensure_personal_workspace create_personal_workspace
personal_workspace-users new_id user db made h =
    let (existing, found, h₁) =
      >>=-eq-ok (scalar_one_or_none (filter (is_personal_of user.id) db.workspaces)) _ h in
    go existing h₁
  where
    go :
        (existing : Option Workspace)
        → (elim existing [
          | some ws ↦ ok (ws, db)
          | none ↦ ok (create_personal_workspace new_id user db)
        ])
          ≡ ok made
        → made.1.users ≡ db.users
    go none k = ap (λ r. r.1.users) (sym (ok-injective _ _ k))
    go (some ws) k = ap (λ r. r.1.users) (sym (ok-injective _ _ k))

no_rows :
    (us : List User) (existing : Option User)
    → scalar_one_or_none us ≡ ok existing
    → not (is_some existing) ≡ true
    → us ≡ []
no_rows [] existing h k = refl
no_rows (u ∷ []) none h k = absurd (cc h)
no_rows (u ∷ []) (some v) h k = absurd (cc k)
no_rows (u ∷ v ∷ us) existing h k = absurd (cc h)

module _ (hash_password : String → String) (verify_password : String → Option String → Bool) where
  -- A local user whom an admin creates can sign in with that name and password, if the check of
  -- a password accepts its hash, local login is enabled and the key is not limited.
  pub create_local_user-local_login :
      (payload : LocalUserCreateIn) (new_id new_ws_id : ℕ) (p : Principal) (db db' : Db)
      (user : User) (settings : Settings) (key : String) (now clock : ℕ) (failures : Failures)
      → verify_password payload.password (some (hash_password payload.password)) ≡ true
      → settings.local_login_enabled ≡ true
      → rate_limited failures key now ≡ false
      → create_local_user hash_password payload new_id new_ws_id p db ≡ ok (user, db')
      → (local_login verify_password settings payload.username payload.password key now clock
          (failures, db')).0
        ≡ ok (record user { last_login_at = some clock })
  unfolding create_local_user local_login record_event
  create_local_user-local_login payload new_id new_ws_id p db db' user settings key now clock
        failures verified on free h =
      let (a, may, h₁) = >>=-eq-ok (require_global_admin p) _ h in
      let (existing, found, h₂) =
        >>=-eq-ok (scalar_one_or_none (filter (is_local payload.username) db.users)) _ h₁ in
      let (unused, h₃) = guard-eq-ok (not (is_some existing)) _ _ h₂ in
      let made_user = new_user hash_password new_id payload in
      let with_user = record db { users = db.users ++ made_user ∷ [] } in
      let (made, ensured, h₄) =
        >>=-eq-ok (ensure_personal_workspace new_ws_id made_user with_user) _ h₃ in
      let users : db'.users ≡ db.users ++ made_user ∷ [] =
        sym (ap (λ r. r.1.users) (ok-injective _ _ h₄))
        ∙ personal_workspace-users new_ws_id made_user with_user made ensured in
      let same : made_user ≡ user = ap (λ r. r.0) (ok-injective _ _ h₄) in
      let rows : filter (is_local payload.username) db'.users ≡ made_user ∷ [] =
        ap (filter (is_local payload.username)) users
        ∙ filter-append (is_local payload.username) db.users (made_user ∷ [])
        ∙ rw (no_rows _ existing found unused, eq_refl payload.username) refl in
      subst
        (λ u.
          (local_login verify_password settings payload.username payload.password key now clock
            (failures, db')).0
          ≡ ok (record u { last_login_at = some clock }))
        same (rw (on, free, rows, verified) refl)
