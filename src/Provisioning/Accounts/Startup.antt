-- ===== src/Provisioning/Accounts/Startup.antt =====
-- What sign-in through OIDC and the set-up at boot promise.
use ocspcrltesting.Schema.{User, WorkspaceMember, Run, Db}
use ocspcrltesting.Settings.{Settings}
use ocspcrltesting.Provisioning.{ensure_personal_workspace, ensure_default_workspace}
use ocspcrltesting.Provisioning.Accounts.{
  is_account, oidc_account, signed_in_as, get_or_create_oidc_user, ensure_bootstrap_admin,
  backfill_default_workspace, backfill_member_source, run_startup_provisioning,
}
use ocspcrltesting.Prelude.{
  ℕ, String, ◌≡◌, refl, ap, subst, inl, inr, true, false, not, Option, some, List, [], ◌∷◌, ◌++◌,
  Bool-cases, is_some, update, filter, All, arith, filter-holds, eq_refl, ok, ok-injective,
  scalar_one_or_none, ◌>>=◌, >>=-eq-ok,
}

sourced :
    (ms : List WorkspaceMember)
    → All
        (λ m. is_some m.source ≡ true)
        (update (λ m. not (is_some m.source)) (λ m. record m { source = some "manual" }) ms)
sourced [] = tt
sourced (m ∷ ms) = elim (Bool-cases (is_some m.source)) [
  | inl e ↦ rw e (e, sourced ms)
  | inr e ↦ rw e (refl, sourced ms)
]

placed :
    (id : ℕ) (rs : List Run)
    → All
        (λ r. is_some r.workspace_id ≡ true)
        (update (λ r. not (is_some r.workspace_id)) (λ r. record r { workspace_id = some id }) rs)
placed id [] = tt
placed id (r ∷ rs) = elim (Bool-cases (is_some r.workspace_id)) [
  | inl e ↦ rw e (e, placed id rs)
  | inr e ↦ rw e (refl, placed id rs)
]

-- After a set-up at boot that succeeds, every membership has a source and every run a workspace.
pub run_startup_provisioning_complete :
    (hash_password : String → String) (settings : Settings) (new_id new_ws new_default : ℕ)
    (db db' : Db)
    → run_startup_provisioning hash_password settings new_id new_ws new_default db ≡ ok db'
    → All (λ m. is_some m.source ≡ true) db'.members
      × All (λ r. is_some r.workspace_id ≡ true) db'.runs
unfolding run_startup_provisioning backfill_member_source backfill_default_workspace
run_startup_provisioning_complete hash_password settings new_id new_ws new_default db db' h =
    let (db₁, e, k) =
      >>=-eq-ok (ensure_bootstrap_admin hash_password settings new_id new_ws db) _ h in
    let (ws, db₂) = ensure_default_workspace new_default db₁ in
    let same = ok-injective _ db' k in
    subst
      (λ d.
        All (λ m. is_some m.source ≡ true) d.members
        × All (λ r. is_some r.workspace_id ≡ true) d.runs)
      same (sourced db₂.members, placed ws.id db₂.runs)

-- Who a sign-in is: a new account, or the stored one with its id and its rights.
abbrev pub Recognized : ℕ → List User → User → Type 0
Recognized new_id [] user =
    (user.id ≡ new_id) × (user.is_global_admin ≡ false) × (user.is_active ≡ true)
Recognized new_id (row ∷ rows) user =
    (rows ≡ [])
    × (user.id ≡ row.id)
    × (user.is_global_admin ≡ row.is_global_admin)
    × (user.is_active ≡ row.is_active)

recognized :
    (new_id new_ws now : ℕ) (subject : String) (email display_name : Option String) (db db' : Db)
    (user : User) (rows : List User)
    → All (λ u. is_account "oidc" subject u ≡ true) rows
    → (scalar_one_or_none rows >>= signed_in_as new_id new_ws now subject email display_name db)
      ≡ ok (user, db')
    → (is_account "oidc" subject user ≡ true) × Recognized new_id rows user
recognized new_id new_ws now subject email display_name db db' user [] own h =
    let (made, e, k) =
      >>=-eq-ok
        (ensure_personal_workspace new_ws (oidc_account new_id subject email display_name)
          (record db { users = db.users ++ oidc_account new_id subject email display_name ∷ [] }))
        _ h in
    subst (λ u. (is_account "oidc" subject u ≡ true) × Recognized new_id [] u)
      (ap (λ r. r.0) (ok-injective _ (user, db') k))
      (ground (arith, eq_refl subject), (refl, refl, refl))
recognized new_id new_ws now subject email display_name db db' user (row ∷ []) own h =
    subst (λ u. (is_account "oidc" subject u ≡ true) × Recognized new_id (row ∷ []) u)
      (ap (λ r. r.0) (ok-injective _ (user, db') h)) (own.0, (refl, refl, refl, refl))
recognized new_id new_ws now subject email display_name db db' user (x ∷ y ∷ r) own h =
    absurd (cc h)

-- A sign-in through OIDC that succeeds is as a user of that provider and subject: a new active one
-- without global rights if no row has them, and otherwise the one row with its id, its rights and
-- its activity.
pub get_or_create_oidc_user-Recognized :
    (new_id new_ws now : ℕ) (subject : String) (email display_name : Option String) (db db' : Db)
    (user : User)
    → get_or_create_oidc_user new_id new_ws now subject email display_name db ≡ ok (user, db')
    → (is_account "oidc" subject user ≡ true)
      × Recognized new_id (filter (is_account "oidc" subject) db.users) user
unfolding get_or_create_oidc_user
get_or_create_oidc_user-Recognized new_id new_ws now subject email display_name db db' user h =
    recognized new_id new_ws now subject email display_name db db' user
      (filter (is_account "oidc" subject) db.users)
      (filter-holds (is_account "oidc" subject) db.users) h
