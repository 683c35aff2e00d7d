-- ===== src/Runs/Cancel.antt =====
-- Cancelling a run that has no live worker.
use ocspcrltesting.Schema.{Run}
use ocspcrltesting.Authz.{WorkspaceContext}
use ocspcrltesting.Jobs.{RunStore, get_run, is_terminal}
use ocspcrltesting.Jobs.Supervisor.{finalize, finalize_if_not_terminal}
use ocspcrltesting.Jobs.Supervisor.Verdict.{Concluded, finalize-Concluded}
use ocspcrltesting.Runs.{get_run_or_404, request_cancel, cancel_run}
use ocspcrltesting.Prelude.{
  ℕ, String, ◌≡◌, subst, false, not, none, some, arith, ok, >>=-eq-ok, guard-eq-ok, or_raise-eq-ok,
}

get_run_or_404-found :
    (s : RunStore) (run_id : String) (ctx : WorkspaceContext) (run : Run)
    → get_run_or_404 s run_id ctx ≡ ok run
    → get_run run_id s ≡ some run
unfolding get_run_or_404
get_run_or_404-found s run_id ctx run h =
    let (r, e, h₁) = or_raise-eq-ok (get_run run_id s) _ _ h in ground (arith, e, h₁)

-- A cancellation without a live worker that succeeds found a run that the caller sees and that was
-- not terminal, and leaves its row cancelled, with the end time and no current activity.
pub cancel_run-Concluded :
    (lower : String → String) (now : ℕ) (run_id : String) (ctx : WorkspaceContext) (s s' : RunStore)
    → cancel_run lower now false run_id ctx s ≡ ok s'
    → ((run : Run) × (get_run_or_404 s run_id ctx ≡ ok run) × (is_terminal run.status ≡ false))
      × Concluded now "cancelled" (get_run run_id s')
unfolding cancel_run request_cancel finalize_if_not_terminal
cancel_run-Concluded lower now run_id ctx s s' h =
    let (run, shown, h₁) = >>=-eq-ok (get_run_or_404 s run_id ctx) _ h in
    let (live, h₂) = guard-eq-ok (not (is_terminal run.status)) _ _ h₁ in
    let found = get_run_or_404-found s run_id ctx run shown in
    let unfinished : is_terminal run.status ≡ false = ground (arith, live) in
    let final : finalize lower run_id now "cancelled" (some "cancelled by user") none s ≡ s' =
      ground (arith, h₂, found, unfinished) in
    (
      (run, shown, unfinished),
      subst (λ t. Concluded now "cancelled" (get_run run_id t)) final
          (finalize-Concluded lower run_id now "cancelled" (some "cancelled by user") none s
            (rw found)),
    )
