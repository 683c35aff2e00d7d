-- ===== src/Worker/Executor/Latency.antt =====
-- backend/app/worker/executor.py: the latencies of the results and their summary.
use ocspcrltesting.Worker.Json.{Json, number, boolean, array, Items, no_items, item, Fields, get}
use ocspcrltesting.Worker.Analysis.{TestResult}
use ocspcrltesting.Prelude.{
  ℕ, zero, suc, ◌+◌, ◌-◌, ◌/◌, ◌%◌, String, Option, none, some, List, [], ◌∷◌, ◌++◌, min, max, ◌==◌,
  leb, if◌then◌else◌, length,
}

-- latency_summary
pub data Summary : Type 0 where
  no_samples : Summary
  summary : (median minimum maximum samples : ℕ) → Summary

abbrev pub as_int : Json → List ℕ
as_int (number n) = n ∷ []
as_int (boolean b) = (if b then 1 else 0) ∷ []
as_int _ = []

abbrev pub int_at : String → Fields → List ℕ
int_at key details = elim (get key details) [ none ↦ [] | some value ↦ as_int value ]

abbrev pub items_ints : Items → List ℕ
items_ints no_items = []
items_ints (item value rest) = as_int value ++ items_ints rest

abbrev pub listed_ints : Option Json → List ℕ
listed_ints (some (array items)) = items_ints items
listed_ints _ = []

-- Under "latencies_ms" the test suites put a list (ocsp_tester/tests_performance.py), or nothing; a
-- value that cannot be iterated, where the source raises, does not occur.
unfoldable pub collect_latencies : TestResult → List ℕ
collect_latencies r =
    int_at "latency_ms" r.details
    ++ int_at "a_latency_ms" r.details
    ++ int_at "b_latency_ms" r.details
    ++ listed_ints (get "latencies_ms" r.details)

abbrev pub insert : ℕ → List ℕ → List ℕ
insert n [] = n ∷ []
insert n (m ∷ ms) = let rest = insert n ms in if leb n m then n ∷ m ∷ ms else m ∷ rest

-- sorted(…)
unfoldable pub sort : List ℕ → List ℕ
sort [] = []
sort (n ∷ ns) = insert n (sort ns)

abbrev pub nth : ℕ → List ℕ → ℕ
nth n [] = 0
nth zero (m ∷ ms) = m
nth (suc n) (m ∷ ms) = nth n ms

-- int(statistics.median(…))
abbrev pub median_of : List ℕ → ℕ
median_of sorted =
    let half = length sorted / 2 in
    if length sorted % 2 == 1
    then nth half sorted
    else (nth (half - 1) sorted + nth half sorted) / 2

abbrev pub minimum : ℕ → List ℕ → ℕ
minimum n [] = n
minimum n (m ∷ ms) = minimum (min n m) ms

abbrev pub maximum : ℕ → List ℕ → ℕ
maximum n [] = n
maximum n (m ∷ ms) = maximum (max n m) ms

unfoldable pub latency_summary : List ℕ → Summary
unfolding sort
latency_summary [] = no_samples
latency_summary (n ∷ ns) =
    summary (median_of (sort (n ∷ ns))) (minimum n ns) (maximum n ns) (length (n ∷ ns))
