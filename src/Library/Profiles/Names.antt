-- ===== src/Library/Profiles/Names.antt =====
-- The names of profiles stay unique in each workspace when one is made or changed.
use ocspcrltesting.Schema.{Profile, Db, column_eq}
use ocspcrltesting.Authz.{WorkspaceContext}
use ocspcrltesting.Library.Rows.{
  count-delete_le, scalar_one_or_none-none, scalar_one_or_none-single,
}
use ocspcrltesting.Library.Keys.{HasUniqueKeys, append-HasUniqueKeys, update-HasUniqueKeys}
use ocspcrltesting.Library.Profiles.{
  ProfileIn, with_id, is_named, is_taken, get_in_ws_or_404, check_name_free, add_profile, rewritten,
  create_profile, new_profile, update_profile,
}
use ocspcrltesting.Prelude.{
  ℕ, String, ◌≡◌, refl, subst, true, not, Option, none, some, arith, filter, find?, count, update,
  delete, ok, scalar_one_or_none, >>=-eq-ok, guard-eq-ok, or_raise-eq-ok, ok-injective,
}

-- The constraints of the table: its primary key, and the names in each workspace.
abbrev pub HasUniqueNames : Db → Type 0
HasUniqueNames db = HasUniqueKeys (λ q. q.id) (λ q. q.workspace_id) (λ q. q.name) db.profiles

-- No row but the excluded one has a name that is free.
unused :
    (db : Db) (workspace_id : ℕ) (name : String) (existing : Option Profile)
    → scalar_one_or_none (filter (is_named workspace_id name) db.profiles) ≡ ok existing
    → not (is_taken existing none) ≡ true
    → count (is_named workspace_id name) db.profiles ≡ 0
unused db workspace_id name none found h = scalar_one_or_none-none _ db.profiles found
unused db workspace_id name (some q) found h = absurd (cc h)

pub check_name_free-unused :
    (db : Db) (workspace_id : ℕ) (name : String) {u : Unit}
    → check_name_free db workspace_id name none ≡ ok u
    → count (is_named workspace_id name) db.profiles ≡ 0
unfolding check_name_free
check_name_free-unused db workspace_id name h =
    let (existing, found, h₁) =
      >>=-eq-ok (scalar_one_or_none (filter (is_named workspace_id name) db.profiles)) _ h in
    let (free, h₂) = guard-eq-ok (not (is_taken existing none)) _ _ h₁ in
    unused db workspace_id name existing found free

unused_by_other :
    (db : Db) (workspace_id id : ℕ) (name : String) (existing : Option Profile)
    → scalar_one_or_none (filter (is_named workspace_id name) db.profiles) ≡ ok existing
    → not (is_taken existing (some id)) ≡ true
    → count (is_named workspace_id name) (delete (with_id id) db.profiles) ≡ 0
unused_by_other db workspace_id id name none found h =
    let le = count-delete_le (is_named workspace_id name) (with_id id) db.profiles in
    let free = scalar_one_or_none-none (is_named workspace_id name) db.profiles found in
    omega (arith, le, free)
unused_by_other db workspace_id id name (some q) found h =
    scalar_one_or_none-single (is_named workspace_id name) (with_id id) db.profiles q found
      (ground (arith, h))

check_name_free-own :
    (db : Db) (workspace_id id : ℕ) (name : String) {u : Unit}
    → check_name_free db workspace_id name (some id) ≡ ok u
    → count (is_named workspace_id name) (delete (with_id id) db.profiles) ≡ 0
unfolding check_name_free
check_name_free-own db workspace_id id name h =
    let (existing, found, h₁) =
      >>=-eq-ok (scalar_one_or_none (filter (is_named workspace_id name) db.profiles)) _ h in
    let (free, h₂) = guard-eq-ok (not (is_taken existing (some id))) _ _ h₁ in
    unused_by_other db workspace_id id name existing found free

in_place : (p : Option ℕ) (w : ℕ) → column_eq p w ≡ true → p ≡ some w
in_place none w h = absurd (cc h)
in_place (some v) w h = ground (arith, h)

pub get_in_ws_or_404-found :
    (db : Db) (id workspace_id : ℕ) (q : Profile)
    → get_in_ws_or_404 db id workspace_id ≡ ok q
    → (find? (with_id id) db.profiles ≡ some q) × (q.workspace_id ≡ some workspace_id)
unfolding get_in_ws_or_404
get_in_ws_or_404-found db id workspace_id q h =
    let (r, found, h₁) = or_raise-eq-ok (find? (with_id id) db.profiles) _ _ h in
    let (mine, h₂) = guard-eq-ok (column_eq r.workspace_id workspace_id) _ _ h₁ in
    let same : r ≡ q = ok-injective r q h₂ in
    subst (λ x. (find? (with_id id) db.profiles ≡ some x) × (x.workspace_id ≡ some workspace_id))
      same (found, in_place r.workspace_id workspace_id mine)

pub created-HasUniqueNames :
    (payload : ProfileIn) (new_id now : ℕ) (ctx : WorkspaceContext) (db db' : Db) (q : Profile)
    → count (with_id new_id) db.profiles ≡ 0
    → create_profile payload new_id now ctx db ≡ ok (q, db')
    → HasUniqueNames db
    → HasUniqueNames db'
unfolding create_profile
created-HasUniqueNames payload new_id now ctx db db' q fresh h inv =
    let profile = new_profile new_id now ctx.workspace.id ctx.principal payload in
    let (u, free, h₁) = >>=-eq-ok (check_name_free db ctx.workspace.id payload.name none) _ h in
    let after : add_profile profile db ≡ db' = ground (arith, h₁) in
    subst HasUniqueNames after (
      append-HasUniqueKeys _ _ _ db.profiles profile ctx.workspace.id refl fresh
        (check_name_free-unused db ctx.workspace.id payload.name free) inv)

pub updated-HasUniqueNames :
    (id : ℕ) (payload : ProfileIn) (now : ℕ) (ctx : WorkspaceContext) (db db' : Db) (q : Profile)
    → update_profile id payload now ctx db ≡ ok (q, db')
    → HasUniqueNames db
    → HasUniqueNames db'
unfolding update_profile
updated-HasUniqueNames id payload now ctx db db' q h inv =
    let (profile, got, h₁) = >>=-eq-ok (get_in_ws_or_404 db id ctx.workspace.id) _ h in
    let (found, place) = get_in_ws_or_404-found db id ctx.workspace.id profile got in
    let (u, free, h₂) =
      >>=-eq-ok (check_name_free db ctx.workspace.id payload.name (some id)) _ h₁ in
    let after : record db { profiles = update (with_id id) (rewritten payload now) db.profiles }
        ≡ db' =
      ground (arith, h₂) in
    subst HasUniqueNames after (
      update-HasUniqueKeys _ _ _ db.profiles id ctx.workspace.id payload.name
        (rewritten payload now) profile (λ x. refl) (λ x. refl) (λ x. refl) found place
        (check_name_free-own db ctx.workspace.id id payload.name free) inv)
