-- ===== src/Jobs/Results.antt =====
-- The stored results of a run, and the boot after a crash.
use ocspcrltesting.Schema.{Run, ResultRow}
use ocspcrltesting.Jobs.{
  RunStore, ResultIn, has_id, get_run, is_terminal, has_result, result_id, persist_result, is_stale,
  mark_orphans_failed, active_run_count,
}
use ocspcrltesting.Prelude.{
  ℕ, String, ◌≡◌, refl, sym, subst, inl, inr, Bool, true, false, some, List, [], ◌∷◌, ◌++◌, arith,
  str_eq, eq_iff, Bool-cases, Option-cases, or_text, length, filter, find?, any, update,
}

-- No two rows have the same primary key.
abbrev pub IsDistinct : List ResultRow → Type 0
IsDistinct [] = Unit
IsDistinct (r ∷ rs) = (any (has_result r.id) rs ≡ false) × IsDistinct rs

any-append :
    (p : ResultRow → Bool) (rs : List ResultRow) (r : ResultRow)
    → any p rs ≡ false
    → p r ≡ false
    → any p (rs ++ r ∷ []) ≡ false
any-append p [] r h k = ground (arith, h, k)
any-append p (x ∷ rs) r h k = ground (arith, h, any-append p rs r, k)

append-IsDistinct :
    (rs : List ResultRow) (r : ResultRow)
    → IsDistinct rs
    → any (has_result r.id) rs ≡ false
    → IsDistinct (rs ++ r ∷ [])
append-IsDistinct [] r h k = (refl, tt)
append-IsDistinct (x ∷ rs) r h k =
    let fresh : any (has_result r.id) rs ≡ false = ground (arith, k) in
    let ne : str_eq r.id x.id ≡ false = ground (arith, k, eq_iff r.id x.id, eq_iff x.id r.id) in
    (any-append (has_result x.id) rs r h.0 ne, append-IsDistinct rs r h.1 fresh)

result_id-fresh :
    (result : ResultIn) (spare : String × String) (rows : List ResultRow)
    → any (has_result spare.1) rows ≡ false
    → any (has_result (result_id result spare rows)) rows ≡ false
unfolding result_id
result_id-fresh result spare rows h =
    elim (Bool-cases (any (has_result (or_text result.id spare.0)) rows)) [
      | inl e ↦ rw e h
      | inr e ↦ rw e e
    ]

-- If the results have distinct ids and the second spare id is not among them, they have distinct
-- ids after a result is stored, whatever id the worker sent.
pub persist_result-IsDistinct :
    (lower : String → String) (run_id : String) (result : ResultIn) (spare : String × String)
    (s : RunStore)
    → any (has_result spare.1) s.results ≡ false
    → IsDistinct s.results
    → IsDistinct (persist_result lower run_id result spare s).results
unfolding persist_result
persist_result-IsDistinct lower run_id result spare s fresh h =
    elim (Option-cases (get_run run_id s)) [
      | inl e ↦ rw e h
      | inr (run, e) ↦
          rw e (append-IsDistinct s.results _ h (result_id-fresh result spare s.results fresh))
    ]

-- After the repair at boot no run counts as active.
pub mark_orphans_failed-idle :
    (now : ℕ) (s : RunStore) → active_run_count (mark_orphans_failed now s) ≡ 0
unfolding mark_orphans_failed active_run_count
mark_orphans_failed-idle now s = go s.runs
  where
    go :
        (rs : List Run)
        → length (
            filter is_stale (
              update is_stale
                (λ r. record r {
                  status = "failed";
                  error = some "Server restarted while the run was in progress";
                  finished_at = some now;
                })
                rs))
          ≡ 0
    go [] = refl
    go (r ∷ rs) = elim (Bool-cases (is_stale r)) [
      | inl e ↦ rw e (go rs)
      | inr e ↦ rw (e, e) (go rs)
    ]

other_status :
    (status other : String)
    → is_terminal other ≡ false
    → is_terminal status ≡ true
    → str_eq status other ≡ false
other_status status other o t = elim (Bool-cases (str_eq status other)) [
  | inl e ↦ absurd (cc (o, t, (eq_iff status other).0 e))
  | inr e ↦ e
]

terminal_not_stale : (r : Run) → is_terminal r.status ≡ true → is_stale r ≡ false
unfolding is_terminal
terminal_not_stale r t =
    rw (other_status r.status "queued" refl t, other_status r.status "running" refl t)

-- The row that the repair writes.
abbrev repaired : ℕ → Run → Run
repaired now r = record r {
  status = "failed";
  error = some "Server restarted while the run was in progress";
  finished_at = some now;
}

find?-repaired :
    (now : ℕ) (id : String) (r : Run) (rs : List Run)
    → is_stale r ≡ false
    → find? (has_id id) rs ≡ some r
    → find? (has_id id) (update is_stale (repaired now) rs) ≡ some r
find?-repaired now id r [] settled h = h
find?-repaired now id r (x ∷ rs) settled h = elim (Bool-cases (str_eq x.id id)) [
  | inl e ↦
      let same : x ≡ r = ground (arith, h, e) in
      let own : str_eq r.id id ≡ true = cc (e, same) in
      subst (λ y. find? (has_id id) (update is_stale (repaired now) (y ∷ rs)) ≡ some r) (sym same)
        (rw (settled, own))
  | inr e ↦
      let rest = find?-repaired now id r rs settled (ground (arith, h, e)) in
      elim (Bool-cases (is_stale x)) [ inl k ↦ rw (k, e) rest | inr k ↦ rw (k, e) rest ]
]

-- A run found with a terminal status is found unchanged after the repair at boot.
pub mark_orphans_failed-keeps :
    (now : ℕ) (id : String) (r : Run) (s : RunStore)
    → get_run id s ≡ some r
    → is_terminal r.status ≡ true
    → get_run id (mark_orphans_failed now s) ≡ some r
unfolding mark_orphans_failed get_run
mark_orphans_failed-keeps now id r s found t =
    find?-repaired now id r s.runs (terminal_not_stale r t) found
