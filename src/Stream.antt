-- ===== src/Stream.antt =====
-- backend/app/api/stream.py and `get_logs` of backend/app/api/runs.py: the pages of a run's events, and
-- the loop that streams them. Each round of the loop sees the database three times: for its page, for
-- the run's status and for the final flush; `Round` is what it sees.
pub mod Order
pub mod Delivery
pub mod Examples
use mathlib.Core.Option
use ocspcrltesting.Schema.{RunEvent}
use ocspcrltesting.Authz.{WorkspaceContext}
use ocspcrltesting.Jobs.{RunStore, get_run, is_terminal}
use ocspcrltesting.Runs.{get_run_or_404}
use ocspcrltesting.Prelude.{
  ℕ, String, ◌&&◌, Option, none, some, List, [], ◌∷◌, ◌++◌, str_eq, ltb, leb, if◌then◌else◌, filter,
  take, Result, ok, ◌>>=◌,
}

-- ORDER BY seq
abbrev pub insert_by_seq : RunEvent → List RunEvent → List RunEvent
insert_by_seq e [] = e ∷ []
insert_by_seq e (f ∷ fs) =
    let rest = insert_by_seq e fs in if leb e.seq f.seq then e ∷ f ∷ fs else f ∷ rest

abbrev pub order_by_seq : List RunEvent → List RunEvent
order_by_seq [] = []
order_by_seq (e ∷ es) = insert_by_seq e (order_by_seq es)

unfoldable pub fetch_events : String → ℕ → ℕ → RunStore → List RunEvent
fetch_events run_id after_seq limit s =
    take limit (order_by_seq (filter (λ e. str_eq e.run_id run_id && ltb after_seq e.seq) s.events))

abbrev pub last_seq_of : ℕ → List RunEvent → ℕ
last_seq_of last_seq [] = last_seq
last_seq_of last_seq (e ∷ es) = last_seq_of e.seq es

pub record Round : Type 0 where
  pub page : RunStore
  pub status : RunStore
  pub flush : RunStore

abbrev pub run_status : String → RunStore → Option String
run_status run_id s = Option.map (λ r. r.status) (get_run run_id s)

-- After an empty page: what is left to send, unless the run goes on.
abbrev pub flushed : String → ℕ → RunStore → List RunEvent → Option String → List RunEvent
flushed run_id last_seq flush rest none = []
flushed run_id last_seq flush rest (some status) =
    if is_terminal status then fetch_events run_id last_seq 500 flush else rest

abbrev pub paged : String → ℕ → Round → List RunEvent → List RunEvent → List RunEvent
paged run_id last_seq round [] rest =
    flushed run_id last_seq round.flush rest (run_status run_id round.status)
paged run_id last_seq round (e ∷ es) rest = (e ∷ es) ++ rest

-- What a client receives in the rounds until it leaves.
unfoldable pub event_stream : String → ℕ → List Round → List RunEvent
event_stream run_id last_seq [] = []
event_stream run_id last_seq (round ∷ rounds) =
    let page = fetch_events run_id last_seq 500 round.page in
    paged run_id last_seq round page (event_stream run_id (last_seq_of last_seq page) rounds)

-- The log events after `after_seq`, with the run's last number.
unfoldable pub get_logs : String → ℕ → ℕ → WorkspaceContext → RunStore → Result (List RunEvent × ℕ)
get_logs run_id after_seq limit ctx s = do
  run ← get_run_or_404 s run_id ctx
  ok (
    take limit (
        order_by_seq (
          filter (λ e. str_eq e.run_id run_id && str_eq e.kind "log" && ltb after_seq e.seq)
            s.events)),
    run.last_seq,
  )
