-- ===== src/Stream/Delivery.antt =====
-- What a client of a stream receives.
use ocspcrltesting.Schema.{RunEvent}
use ocspcrltesting.Jobs.{RunStore, is_terminal}
use ocspcrltesting.Stream.{
  order_by_seq, fetch_events, last_seq_of, Round, run_status, flushed, paged, event_stream,
}
use ocspcrltesting.Stream.Order.{
  IsOf, IsIncreasing, HasUniqueSeqs, has_seq, order-IsAscending, All-map, selected,
  fetch_events-IsOf, count-order, count-selected_le, increasing, take-IsIncreasing,
  append-IsIncreasing, All-append,
}
use ocspcrltesting.Prelude.{
  ℕ, suc, String, ◌≡◌, ◌≤◌, ◌&&◌, none, some, List, [], ◌∷◌, Option, str_eq, ltb, Bool-cases, inl,
  inr, filter, All, arith,
}

module _ (run_id : String) where
  abbrev pub IsOfRun : RunEvent → Type 0
  IsOfRun e = e.run_id ≡ run_id

  -- Of the run, and each later than the one before.
  abbrev pub IsDelivery : ℕ → List RunEvent → Type 0
  IsDelivery after_seq es = All IsOfRun es × IsIncreasing after_seq es

  fetch_events-IsIncreasing :
      (after_seq limit : ℕ) (s : RunStore)
      → HasUniqueSeqs run_id s
      → IsIncreasing after_seq (fetch_events run_id after_seq limit s)
  unfolding fetch_events
  fetch_events-IsIncreasing after_seq limit s u =
      let rows = filter (λ e. str_eq e.run_id run_id && ltb after_seq e.seq) s.events in
      take-IsIncreasing after_seq limit (order_by_seq rows) (
        increasing after_seq (order_by_seq rows)
          (order-IsAscending (suc after_seq) rows (
            All-map (IsOf run_id after_seq) (λ e. suc after_seq ≤ e.seq) rows
              (λ e h. omega (arith, h.1)) (selected run_id after_seq s.events)))
          (λ n. omega (
            arith,
            count-order (has_seq n) rows,
            count-selected_le run_id after_seq n s.events,
            u n,
          )))

  fetch_events-IsDelivery :
      (after_seq limit : ℕ) (s : RunStore)
      → HasUniqueSeqs run_id s
      → IsDelivery after_seq (fetch_events run_id after_seq limit s)
  fetch_events-IsDelivery after_seq limit s u = (
    All-map (IsOf run_id after_seq) IsOfRun _ (λ e h. h.0)
        (fetch_events-IsOf run_id after_seq limit s),
    fetch_events-IsIncreasing after_seq limit s u,
  )

  flushed-IsDelivery :
      (after_seq : ℕ) (flush : RunStore) (rest : List RunEvent) (status : Option String)
      → HasUniqueSeqs run_id flush
      → IsDelivery after_seq rest
      → IsDelivery after_seq (flushed run_id after_seq flush rest status)
  flushed-IsDelivery after_seq flush rest none u h = (tt, tt)
  flushed-IsDelivery after_seq flush rest (some status) u h =
      elim (Bool-cases (is_terminal status)) [
        | inl t ↦ rw t (fetch_events-IsDelivery after_seq 500 flush u)
        | inr t ↦ rw t h
      ]

  paged-IsDelivery :
      (after_seq : ℕ) (round : Round) (page rest : List RunEvent)
      → HasUniqueSeqs run_id round.flush
      → IsDelivery after_seq page
      → IsDelivery (last_seq_of after_seq page) rest
      → IsDelivery after_seq (paged run_id after_seq round page rest)
  paged-IsDelivery after_seq round [] rest u h k =
      flushed-IsDelivery after_seq round.flush rest (run_status run_id round.status) u k
  paged-IsDelivery after_seq round (e ∷ es) rest u h k = (
    All-append IsOfRun (e ∷ es) rest h.0 k.0,
    append-IsIncreasing after_seq (e ∷ es) rest h.1 k.1,
  )

  -- If in each round no two events of the run have the same number, a stream delivers only
  -- events of its run, each with a number above that of the one before, the first above the one
  -- that it resumes from; so it delivers none twice.
  pub event_stream-IsDelivery :
      (after_seq : ℕ) (rounds : List Round)
      → All (λ r. HasUniqueSeqs run_id r.page × HasUniqueSeqs run_id r.flush) rounds
      → IsDelivery after_seq (event_stream run_id after_seq rounds)
  unfolding event_stream
  event_stream-IsDelivery after_seq [] u = (tt, tt)
  event_stream-IsDelivery after_seq (round ∷ rounds) u =
      let page = fetch_events run_id after_seq 500 round.page in
      paged-IsDelivery after_seq round page
        (event_stream run_id (last_seq_of after_seq page) rounds) u.0.1
        (fetch_events-IsDelivery after_seq 500 round.page u.0.0)
        (event_stream-IsDelivery (last_seq_of after_seq page) rounds u.1)
