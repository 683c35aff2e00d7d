-- ===== src/Stream/Order.antt =====
-- The numbers of a page of events, in order and each once.
use ocspcrltesting.Schema.{RunEvent}
use ocspcrltesting.Jobs.{RunStore}
use ocspcrltesting.Stream.{insert_by_seq, order_by_seq, fetch_events, last_seq_of}
use ocspcrltesting.Prelude.{
  ℕ, zero, suc, String, ◌≡◌, ◌≤◌, ◌<◌, true, ◌&&◌, List, [], ◌∷◌, ◌++◌, str_eq, eq_iff, ltb, leb,
  Bool-cases, inl, inr, filter, take, filter-holds, All, arith, count, ◌==◌, ◌≢◌, refl, Bool,
}

-- Numbers from above `low` on, in ascending order; `n` allows equal neighbours.
abbrev pub IsAscending : ℕ → List RunEvent → Type 0
IsAscending low [] = Unit
IsAscending low (e ∷ es) = (low ≤ e.seq) × IsAscending e.seq es

abbrev pub IsOf : String → ℕ → RunEvent → Type 0
IsOf run_id after_seq e = (e.run_id ≡ run_id) × (after_seq < e.seq)

insert-All :
    (P : RunEvent → Type 0) (e : RunEvent) (es : List RunEvent)
    → P e
    → All P es
    → All P (insert_by_seq e es)
insert-All P e [] h k = (h, tt)
insert-All P e (f ∷ fs) h k = elim (Bool-cases (leb e.seq f.seq)) [
  | inl le ↦ rw le (h, k)
  | inr gt ↦ rw gt (k.0, insert-All P e fs h k.1)
]

order-All : (P : RunEvent → Type 0) (es : List RunEvent) → All P es → All P (order_by_seq es)
order-All P [] h = tt
order-All P (e ∷ es) h = insert-All P e (order_by_seq es) h.0 (order-All P es h.1)

take-All : (P : RunEvent → Type 0) (n : ℕ) (es : List RunEvent) → All P es → All P (take n es)
take-All P zero es h = tt
take-All P (suc n) [] h = tt
take-All P (suc n) (e ∷ es) h = (h.0, take-All P n es h.1)

insert-IsAscending :
    (low : ℕ) (e : RunEvent) (es : List RunEvent)
    → low ≤ e.seq
    → IsAscending low es
    → IsAscending low (insert_by_seq e es)
insert-IsAscending low e [] h k = (h, tt)
insert-IsAscending low e (f ∷ fs) h k = elim (Bool-cases (leb e.seq f.seq)) [
  | inl le ↦ rw le (h, (ground (arith, le), k.1))
  | inr gt ↦ rw gt (k.0, insert-IsAscending f.seq e fs (ground (arith, gt)) k.1)
]

pub order-IsAscending :
    (low : ℕ) (es : List RunEvent) → All (λ e. low ≤ e.seq) es → IsAscending low (order_by_seq es)
order-IsAscending low [] h = tt
order-IsAscending low (e ∷ es) h =
    insert-IsAscending low e (order_by_seq es) h.0 (order-IsAscending low es h.1)

pub All-map :
    (P Q : RunEvent → Type 0) (es : List RunEvent)
    → ((e : RunEvent) → P e → Q e)
    → All P es
    → All Q es
All-map P Q [] f h = tt
All-map P Q (e ∷ es) f h = (f e h.0, All-map P Q es f h.1)

-- The numbers are above `low` and strictly above `after_seq`.
pub selected :
    (run_id : String) (after_seq : ℕ) (es : List RunEvent)
    → All (IsOf run_id after_seq) (filter (λ e. str_eq e.run_id run_id && ltb after_seq e.seq) es)
selected run_id after_seq es =
    All-map (λ e. (str_eq e.run_id run_id && ltb after_seq e.seq) ≡ true) (IsOf run_id after_seq) _
      (λ e h. (ground (arith, h, eq_iff e.run_id run_id), ground (arith, h)))
      (filter-holds (λ e. str_eq e.run_id run_id && ltb after_seq e.seq) es)

pub fetch_events-IsOf :
    (run_id : String) (after_seq limit : ℕ) (s : RunStore)
    → All (IsOf run_id after_seq) (fetch_events run_id after_seq limit s)
unfolding fetch_events
fetch_events-IsOf run_id after_seq limit s =
    take-All (IsOf run_id after_seq) limit _
      (order-All (IsOf run_id after_seq) _ (selected run_id after_seq s.events))

-- Each number is above the one before it, and the first is above `low`.
abbrev pub IsIncreasing : ℕ → List RunEvent → Type 0
IsIncreasing low [] = Unit
IsIncreasing low (e ∷ es) = (low < e.seq) × IsIncreasing e.seq es

abbrev pub has_seq : ℕ → RunEvent → Bool
has_seq n e = e.seq == n

-- The unique index of the table of events: one event of a run for each number.
abbrev pub HasUniqueSeqs : String → RunStore → Type 0
HasUniqueSeqs run_id s = (n : ℕ) → count (λ e. str_eq e.run_id run_id && has_seq n e) s.events ≤ 1

abbrev IsUnique : List RunEvent → Type 0
IsUnique es = (n : ℕ) → count (has_seq n) es ≤ 1

count-insert :
    (p : RunEvent → Bool) (e : RunEvent) (es : List RunEvent)
    → count p (insert_by_seq e es) ≡ count p (e ∷ es)
count-insert p e [] = refl
count-insert p e (f ∷ fs) = ground (arith, count-insert p e fs)

pub count-order :
    (p : RunEvent → Bool) (es : List RunEvent) → count p (order_by_seq es) ≡ count p es
count-order p [] = refl
count-order p (e ∷ es) = ground (arith, count-insert p e (order_by_seq es), count-order p es)

pub count-selected_le :
    (run_id : String) (after_seq n : ℕ) (es : List RunEvent)
    → count (has_seq n) (filter (λ e. str_eq e.run_id run_id && ltb after_seq e.seq) es)
      ≤ count (λ e. str_eq e.run_id run_id && has_seq n e) es
count-selected_le run_id after_seq n [] = omega arith
count-selected_le run_id after_seq n (e ∷ es) =
    ground (arith, count-selected_le run_id after_seq n es)

tail-IsUnique : (e : RunEvent) (es : List RunEvent) → IsUnique (e ∷ es) → IsUnique es
tail-IsUnique e es h n = ground (arith, h n)

-- Neighbours with the same number are counted twice.
apart : (e f : RunEvent) (fs : List RunEvent) → IsUnique (e ∷ f ∷ fs) → e.seq ≢ f.seq
apart e f fs h same = ground (arith, h e.seq, same)

pub increasing :
    (low : ℕ) (es : List RunEvent) → IsAscending (suc low) es → IsUnique es → IsIncreasing low es
increasing low [] h u = tt
increasing low (e ∷ []) h u = (omega (arith, h.0), tt)
increasing low (e ∷ f ∷ fs) h u =
    let ne = apart e f fs u in
    (
      omega (arith, h.0),
      increasing e.seq (f ∷ fs) (ground (arith, ne, h.1.0), h.1.1) (tail-IsUnique e (f ∷ fs) u),
    )

pub take-IsIncreasing :
    (low n : ℕ) (es : List RunEvent) → IsIncreasing low es → IsIncreasing low (take n es)
take-IsIncreasing low zero es h = tt
take-IsIncreasing low (suc n) [] h = tt
take-IsIncreasing low (suc n) (e ∷ es) h = (h.0, take-IsIncreasing e.seq n es h.1)

-- A page, and then what comes after its last event.
pub append-IsIncreasing :
    (low : ℕ) (es fs : List RunEvent)
    → IsIncreasing low es
    → IsIncreasing (last_seq_of low es) fs
    → IsIncreasing low (es ++ fs)
append-IsIncreasing low [] fs h k = k
append-IsIncreasing low (e ∷ es) fs h k = (h.0, append-IsIncreasing e.seq es fs h.1 k)

pub All-append :
    (P : RunEvent → Type 0) (es fs : List RunEvent) → All P es → All P fs → All P (es ++ fs)
All-append P [] fs h k = k
All-append P (e ∷ es) fs h k = (h.0, All-append P es fs h.1 k)
