-- ===== src/Jobs/Events.antt =====
-- The rows of a run under the operations on it: which row is found afterwards.
pub mod Numbers
use mathlib.Core.Option
use ocspcrltesting.Schema.{Run, Payload}
use ocspcrltesting.Jobs.{
  RunStore, ResultIn, has_id, get_run, update_run, append_event, persist_result, bump, status_of,
}
use ocspcrltesting.Prelude.{
  ◌+◌, String, ◌≡◌, refl, ◌≢◌, inl, inr, Option, List, [], ◌∷◌, map, arith, eq_iff, Option-cases,
  find?, update,
}

find?-update_id :
    (run_id : String) (f : Run → Run) (rs : List Run)
    → ((r : Run) → (f r).id ≡ r.id)
    → find? (has_id run_id) (update (has_id run_id) f rs) ≡ Option.map f (find? (has_id run_id) rs)
find?-update_id run_id f [] keeps = refl
find?-update_id run_id f (r ∷ rs) keeps = ground (arith, keeps r, find?-update_id run_id f rs keeps)

-- An update of one run leaves every other as it is.
find?-update_other :
    (run_id other : String) (f : Run → Run) (rs : List Run)
    → ((r : Run) → (f r).id ≡ r.id)
    → other ≢ run_id
    → find? (has_id other) (update (has_id run_id) f rs) ≡ find? (has_id other) rs
find?-update_other run_id other f [] keeps ne = refl
find?-update_other run_id other f (r ∷ rs) keeps ne = ground (
  arith,
  keeps r,
  eq_iff r.id run_id,
  eq_iff r.id other,
  find?-update_other run_id other f rs keeps ne,
)

pub get_run-update_other :
    (run_id other : String) (f : Run → Run) (s : RunStore)
    → ((r : Run) → (f r).id ≡ r.id)
    → other ≢ run_id
    → get_run other (update_run run_id f s) ≡ get_run other s
unfolding get_run update_run
get_run-update_other run_id other f s keeps ne = find?-update_other run_id other f s.runs keeps ne

pub get_run-update_run :
    (run_id : String) (f : Run → Run) (s : RunStore)
    → ((r : Run) → (f r).id ≡ r.id)
    → get_run run_id (update_run run_id f s) ≡ Option.map f (get_run run_id s)
unfolding get_run update_run
get_run-update_run run_id f s keeps = find?-update_id run_id f s.runs keeps

abbrev pub next_seq : Run → Run
next_seq r = record r { last_seq = r.last_seq + 1 }

pub get_run-append_event :
    (run_id kind : String) (payload : Payload) (s : RunStore)
    → get_run run_id (append_event run_id kind payload s) ≡ Option.map next_seq (get_run run_id s)
unfolding append_event get_run
get_run-append_event run_id kind payload s = elim (Option-cases (find? (has_id run_id) s.runs)) [
  | inl e ↦ ground (arith, e)
  | inr (r, e) ↦ ground (arith, e, find?-update_id run_id next_seq s.runs (λ r. refl))
]

abbrev pub counted : (String → String) → ResultIn → Run → Run
counted lower result r = record r {
  totals = bump (lower (status_of result)) (bump "total" r.totals);
}

pub get_run-persist_result :
    (lower : String → String) (run_id : String) (result : ResultIn) (spare : String × String)
    (s : RunStore)
    → get_run run_id (persist_result lower run_id result spare s)
      ≡ Option.map (counted lower result) (get_run run_id s)
unfolding persist_result get_run
get_run-persist_result lower run_id result spare s =
    elim (Option-cases (find? (has_id run_id) s.runs)) [
      | inl e ↦ ground (arith, e)
      | inr (r, e) ↦
          ground (arith, e, find?-update_id run_id (counted lower result) s.runs (λ r. refl))
    ]

pub get_run-append_other :
    (run_id other kind : String) (payload : Payload) (s : RunStore)
    → other ≢ run_id
    → get_run other (append_event run_id kind payload s) ≡ get_run other s
unfolding append_event get_run
get_run-append_other run_id other kind payload s ne =
    elim (Option-cases (find? (has_id run_id) s.runs)) [
      | inl e ↦ ground (arith, e)
      | inr (r, e) ↦
          ground (arith, e, find?-update_other run_id other next_seq s.runs (λ r. refl) ne)
    ]

pub get_run-persist_other :
    (lower : String → String) (run_id other : String) (result : ResultIn) (spare : String × String)
    (s : RunStore)
    → other ≢ run_id
    → get_run other (persist_result lower run_id result spare s) ≡ get_run other s
unfolding persist_result get_run
get_run-persist_other lower run_id other result spare s ne =
    elim (Option-cases (find? (has_id run_id) s.runs)) [
      | inl e ↦ ground (arith, e)
      | inr (r, e) ↦
          ground
            (arith, e, find?-update_other run_id other (counted lower result) s.runs (λ r. refl) ne)
    ]
