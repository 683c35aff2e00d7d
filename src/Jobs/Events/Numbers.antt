-- ===== src/Jobs/Events/Numbers.antt =====
-- The numbers of a run's events, which the streams resume from.
use mathlib.Core.Option
use native.Mathlib.Numerals.{add-one}
use mathlib.Core.List.{map-append, append-nil}
use ocspcrltesting.Schema.{Run, RunEvent, Payload}
use ocspcrltesting.Jobs.{RunStore, ResultIn, get_run, update_run, append_event, persist_result}
use ocspcrltesting.Jobs.Events.{
  get_run-update_run, get_run-update_other, get_run-append_event, get_run-append_other,
  get_run-persist_result, get_run-persist_other,
}
use ocspcrltesting.Prelude.{
  ℕ, zero, suc, String, ◌≡◌, refl, sym, ap, ◌∙◌, subst, ◌≢◌, inl, inr, Bool, Option, none, some,
  List, [], ◌∷◌, ◌++◌, map, arith, str_eq, eq_iff, eq_refl, Bool-cases, Option-cases, str_ne,
  filter, filter-append,
}

-- The seqs of a run's events, in the order in which they were added.
abbrev pub of_run : String → RunEvent → Bool
of_run run_id e = str_eq e.run_id run_id

abbrev pub seqs : String → RunStore → List ℕ
seqs run_id s = map (λ e. e.seq) (filter (of_run run_id) s.events)

-- 1, 2, …, n
abbrev pub count_to : ℕ → List ℕ
count_to zero = []
count_to (suc n) = count_to n ++ suc n ∷ []

abbrev pub NumberedUpTo : List ℕ → Option Run → Type 0
NumberedUpTo ns none = ns ≡ []
NumberedUpTo ns (some r) = ns ≡ count_to r.last_seq

-- The events of a run have the numbers 1 to `last_seq`, each once and in order; a run that does not
-- exist has no events.
abbrev pub IsNumbered : String → RunStore → Type 0
IsNumbered run_id s = NumberedUpTo (seqs run_id s) (get_run run_id s)

append_event-none :
    (run_id kind : String) (payload : Payload) (s : RunStore)
    → get_run run_id s ≡ none
    → append_event run_id kind payload s ≡ s
unfolding append_event
append_event-none run_id kind payload s e = rw e

seqs-append_event :
    (run_id kind : String) (payload : Payload) (s : RunStore) (r : Run)
    → get_run run_id s ≡ some r
    → seqs run_id (append_event run_id kind payload s) ≡ seqs run_id s ++ suc r.last_seq ∷ []
unfolding append_event
seqs-append_event run_id kind payload s r e =
    rw (e, filter-append (of_run run_id) s.events, map-append, eq_refl run_id, add-one)

seqs-append_other :
    (run_id other kind : String) (payload : Payload) (s : RunStore)
    → other ≢ run_id
    → seqs other (append_event run_id kind payload s) ≡ seqs other s
unfolding append_event
seqs-append_other run_id other kind payload s ne = elim (Option-cases (get_run run_id s)) [
  | inl e ↦ rw e
  | inr (r, e) ↦
      rw (e, filter-append (of_run other) s.events)
        (ground (arith, eq_iff run_id other, append-nil (filter (of_run other) s.events)))
]

append_own :
    (run_id kind : String) (payload : Payload) (s : RunStore)
    → IsNumbered run_id s
    → IsNumbered run_id (append_event run_id kind payload s)
append_own run_id kind payload s h = elim (Option-cases (get_run run_id s)) [
  | inl e ↦ subst (IsNumbered run_id) (sym (append_event-none run_id kind payload s e)) h
  | inr (r, e) ↦
      rw (get_run-append_event run_id kind payload s, e)
        (seqs-append_event run_id kind payload s r e
          ∙ ap (λ ns. ns ++ suc r.last_seq ∷ []) (rw e at h)
          ∙ rw add-one)
]

pub append_event-IsNumbered :
    (run_id id kind : String) (payload : Payload) (s : RunStore)
    → IsNumbered id s
    → IsNumbered id (append_event run_id kind payload s)
append_event-IsNumbered run_id id kind payload s h = elim (Bool-cases (str_eq id run_id)) [
  | inl e ↦
      subst (λ r. IsNumbered id (append_event r kind payload s)) ((eq_iff id run_id).0 e)
        (append_own id kind payload s h)
  | inr e ↦
      let ne = str_ne id run_id e in
      rw
        (
          seqs-append_other run_id id kind payload s ne,
          get_run-append_other run_id id kind payload s ne,
        )
        h
]

NumberedUpTo-map :
    (f : Run → Run) (ns : List ℕ) (o : Option Run)
    → ((r : Run) → (f r).last_seq ≡ r.last_seq)
    → NumberedUpTo ns o
    → NumberedUpTo ns (Option.map f o)
NumberedUpTo-map f ns none keeps h = h
NumberedUpTo-map f ns (some r) keeps h = h ∙ ap count_to (sym (keeps r))

seqs-update_run :
    (run_id id : String) (f : Run → Run) (s : RunStore)
    → seqs id (update_run run_id f s) ≡ seqs id s
unfolding update_run
seqs-update_run run_id id f s = refl

pub update_run-IsNumbered :
    (run_id id : String) (f : Run → Run) (s : RunStore)
    → ((r : Run) → (f r).id ≡ r.id)
    → ((r : Run) → (f r).last_seq ≡ r.last_seq)
    → IsNumbered id s
    → IsNumbered id (update_run run_id f s)
update_run-IsNumbered run_id id f s keeps counts h = elim (Bool-cases (str_eq id run_id)) [
  | inl e ↦
      subst (λ r. IsNumbered id (update_run r f s)) ((eq_iff id run_id).0 e)
        (rw (seqs-update_run id id f s, get_run-update_run id f s keeps)
          (NumberedUpTo-map f (seqs id s) (get_run id s) counts h))
  | inr e ↦
      rw
        (
          seqs-update_run run_id id f s,
          get_run-update_other run_id id f s keeps (str_ne id run_id e),
        )
        h
]

seqs-persist_result :
    (lower : String → String) (run_id id : String) (result : ResultIn) (spare : String × String)
    (s : RunStore)
    → seqs id (persist_result lower run_id result spare s) ≡ seqs id s
unfolding persist_result
seqs-persist_result lower run_id id result spare s = elim (Option-cases (get_run run_id s)) [
  | inl e ↦ rw e
  | inr (r, e) ↦ rw e
]

pub persist_result-IsNumbered :
    (lower : String → String) (run_id id : String) (result : ResultIn) (spare : String × String)
    (s : RunStore)
    → IsNumbered id s
    → IsNumbered id (persist_result lower run_id result spare s)
persist_result-IsNumbered lower run_id id result spare s h = elim (Bool-cases (str_eq id run_id)) [
  | inl e ↦
      subst (λ r. IsNumbered id (persist_result lower r result spare s)) ((eq_iff id run_id).0 e)
        (rw
          (
            seqs-persist_result lower id id result spare s,
            get_run-persist_result lower id result spare s,
          )
          (NumberedUpTo-map _ (seqs id s) (get_run id s) (λ r. refl) h))
  | inr e ↦
      rw
        (
          seqs-persist_result lower run_id id result spare s,
          get_run-persist_other lower run_id id result spare s (str_ne id run_id e),
        )
        h
]
