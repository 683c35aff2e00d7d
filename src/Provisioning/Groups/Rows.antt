-- ===== src/Provisioning/Groups/Rows.antt =====
-- What one round of group synchronization does to the rows of its workspace, and to all others.
use mathlib.Core.List.{append-nil}
use ocspcrltesting.Schema.{WorkspaceMember}
use ocspcrltesting.Authz.{is_membership}
use ocspcrltesting.Workspaces.Counting.{
  filter-update_rows, filter-delete_rows, filter-update_frame, filter-delete_frame,
}
use ocspcrltesting.Provisioning.Groups.{is_managed, oidc_member, reconcile}
use ocspcrltesting.Prelude.{
  ℕ, String, ◌≡◌, refl, ap, ◌∙◌, subst, ◌≢◌, inl, inr, Bool, true, false, not, ◌&&◌, Option, none,
  some, List, [], ◌∷◌, map, arith, str_eq, eq_iff, ◌==◌, if◌then◌else◌, ==_refl, Bool-cases, filter,
  update, delete, All, filter-append, filter-holds, ok, scalar_one_or_none,
}

-- A row that group synchronization must leave alone: another user's, or one set by hand.
abbrev pub is_protected : ℕ → WorkspaceMember → Bool
is_protected user_id m = not (m.user_id == user_id && is_managed m)

abbrev pub protected_rows : ℕ → List WorkspaceMember → List WorkspaceMember
protected_rows user_id = filter (is_protected user_id)

module _ (user_id workspace_id : ℕ) where
  abbrev own : WorkspaceMember → Bool
  own = is_membership user_id workspace_id

  managed_is_open :
      (m : WorkspaceMember) → own m ≡ true → is_managed m ≡ true → is_protected user_id m ≡ false
  managed_is_open m mine managed = ground (arith, mine, managed)

  scalar-some :
      (rows : List WorkspaceMember) (m : WorkspaceMember)
      → scalar_one_or_none rows ≡ ok (some m)
      → rows ≡ m ∷ []
  scalar-some [] m h = cc
  scalar-some (x ∷ []) m h = ground (arith, h)
  scalar-some (x ∷ y ∷ rows) m h = cc

  -- The row that was found, as the only row of its key.
  found_own :
      (members : List WorkspaceMember) (m : WorkspaceMember)
      → scalar_one_or_none (filter own members) ≡ ok (some m)
      → (filter own members ≡ m ∷ []) × (own m ≡ true)
  found_own members m e =
      let one = scalar-some (filter own members) m e in
      (one, (subst (All (λ x. own x ≡ true)) one (filter-holds own members)).0)

  pub reconcile-protected :
      (found : Option WorkspaceMember) (role : Option String) (members : List WorkspaceMember)
      → scalar_one_or_none (filter own members) ≡ ok found
      → protected_rows user_id (reconcile user_id workspace_id found role members)
        ≡ protected_rows user_id members
  unfolding reconcile
  reconcile-protected none none members e = refl
  reconcile-protected none (some role) members e =
      filter-append (is_protected user_id) members _ ∙ rw ==_refl (append-nil _)
  reconcile-protected (some m) role members e = elim (Bool-cases (is_managed m)) [
    | inr manual ↦ rw manual
    | inl managed ↦
        let (one, mine) = found_own members m e in
        let open_row = managed_is_open m mine managed in rw managed (managed_case role one open_row)
  ]
    where
      managed_case :
          (role : Option String)
          → filter own members ≡ m ∷ []
          → is_protected user_id m ≡ false
          → protected_rows user_id (elim role [
            | none ↦ delete own members
            | some r ↦
                if str_eq m.role r then members else update own (λ m. record m { role = r }) members
          ])
            ≡ protected_rows user_id members
      managed_case none one open_row =
          filter-delete_rows own (is_protected user_id) members (rw one (open_row, tt))
      managed_case (some r) one open_row = elim (Bool-cases (str_eq m.role r)) [
        | inl same ↦ rw same
        | inr changed ↦ rw changed (
            filter-update_rows own (is_protected user_id) (λ m. record m { role = r }) members
              (rw one ((open_row, open_row), tt)))
      ]

-- What a user's row in a workspace should be, from what it is and from the role that the groups
-- grant: a row set by hand stays, and a managed one follows the groups.
abbrev pub settled : ℕ → ℕ → Option WorkspaceMember → Option String → List WorkspaceMember
settled user_id workspace_id none none = []
settled user_id workspace_id none (some role) = oidc_member workspace_id user_id role ∷ []
settled user_id workspace_id (some m) none = if is_managed m then [] else m ∷ []
settled user_id workspace_id (some m) (some role) =
    (if is_managed m then record m { role = role } else m) ∷ []

scalar-none : (rows : List WorkspaceMember) → scalar_one_or_none rows ≡ ok none → rows ≡ []
scalar-none [] h = refl
scalar-none (x ∷ []) h = cc
scalar-none (x ∷ y ∷ rows) h = cc

filter-deleted_own :
    (test : WorkspaceMember → Bool) (ms : List WorkspaceMember) → filter test (delete test ms) ≡ []
filter-deleted_own test [] = refl
filter-deleted_own test (m ∷ ms) = ground (arith, filter-deleted_own test ms)

filter-updated_own :
    (test : WorkspaceMember → Bool) (f : WorkspaceMember → WorkspaceMember)
    (ms : List WorkspaceMember)
    → ((m : WorkspaceMember) → test (f m) ≡ test m)
    → filter test (update test f ms) ≡ map f (filter test ms)
filter-updated_own test f [] keeps = refl
filter-updated_own test f (m ∷ ms) keeps =
    ground (arith, keeps m, filter-updated_own test f ms keeps)

same_role : (m : WorkspaceMember) (r : String) → str_eq m.role r ≡ true → m ≡ record m { role = r }
same_role m r e = ground (arith, (eq_iff m.role r).0 e)

module _ (user_id workspace_id : ℕ) where
  pub reconcile-own :
      (found : Option WorkspaceMember) (role : Option String) (members : List WorkspaceMember)
      → scalar_one_or_none (filter (is_membership user_id workspace_id) members) ≡ ok found
      → filter
          (is_membership user_id workspace_id)
          (reconcile user_id workspace_id found role members)
        ≡ settled user_id workspace_id found role
  unfolding reconcile
  reconcile-own none none members e = scalar-none _ e
  reconcile-own none (some role) members e =
      filter-append (is_membership user_id workspace_id) members _
      ∙ rw (scalar-none _ e, ==_refl workspace_id, ==_refl user_id)
  reconcile-own (some m) none members e = elim (Bool-cases (is_managed m)) [
    | inr manual ↦ rw manual (found_own user_id workspace_id members m e).0
    | inl managed ↦ rw managed (filter-deleted_own (is_membership user_id workspace_id) members)
  ]
  reconcile-own (some m) (some role) members e = elim (Bool-cases (is_managed m)) [
    | inr manual ↦ rw manual (found_own user_id workspace_id members m e).0
    | inl managed ↦ elim (Bool-cases (str_eq m.role role)) [
      | inl same ↦
          rw (managed, same)
            ((found_own user_id workspace_id members m e).0
              ∙ ap (λ x. x ∷ []) (same_role m role same))
      | inr changed ↦
          rw (managed, changed)
            (filter-updated_own (is_membership user_id workspace_id) (λ m. record m { role = role })
                members (λ m. refl)
              ∙ ap (map {A = WorkspaceMember} (λ m. record m { role = role }))
                  (found_own user_id workspace_id members m e).0)
    ]
  ]

  -- The rows of another workspace stay as they are.
  pub reconcile-other :
      (other : ℕ) (found : Option WorkspaceMember) (role : Option String)
      (members : List WorkspaceMember)
      → other ≢ workspace_id
      → filter (is_membership user_id other) (reconcile user_id workspace_id found role members)
        ≡ filter (is_membership user_id other) members
  unfolding reconcile
  reconcile-other other none none members ne = refl
  reconcile-other other none (some role) members ne =
      filter-append (is_membership user_id other) members _
      ∙ ground (arith, append-nil (filter (is_membership user_id other) members))
  reconcile-other other (some m) none members ne = elim (Bool-cases (is_managed m)) [
    | inr manual ↦ rw manual
    | inl managed ↦ rw managed (
        filter-delete_frame (is_membership user_id workspace_id) (is_membership user_id other)
          members (λ m e. ground (arith, e, ne)))
  ]
  reconcile-other other (some m) (some role) members ne = elim (Bool-cases (is_managed m)) [
    | inr manual ↦ rw manual
    | inl managed ↦ elim (Bool-cases (str_eq m.role role)) [
      | inl same ↦ rw (managed, same)
      | inr changed ↦
          rw (managed, changed)
            (filter-update_frame (is_membership user_id workspace_id) (is_membership user_id other)
              (λ m. record m { role = role }) members (λ m e. ground (arith, e, ne))
              (λ m e. ground (arith, e, ne)))
    ]
  ]
