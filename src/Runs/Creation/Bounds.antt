-- ===== src/Runs/Creation/Bounds.antt =====
-- The bounds that a validated configuration keeps, and the number of a workspace's unfinished runs.
use ocspcrltesting.Schemas.{RunConfig, between, model_validate}
use ocspcrltesting.Schema.{column_eq}
use ocspcrltesting.Jobs.{RunStore, is_terminal}
use ocspcrltesting.Runs.{active_runs_of}
use ocspcrltesting.Prelude.{
  not, ◌&&◌, ◌||◌, count, str_eq, length-filter, ℕ, ◌≤◌, ◌≡◌, refl, Bool, true, false, arith,
  &&-eq-true, Error, ok, err, if◌then◌else◌,
}

-- The bounds on the numbers of a configuration.
pub record HasBounds (c : RunConfig) : Type 0 where
  pub nonce_length : (1 ≤ c.nonce_length) × (c.nonce_length ≤ 128)
  pub latency_samples : (1 ≤ c.latency_samples) × (c.latency_samples ≤ 100)
  pub load_concurrency : (1 ≤ c.load_concurrency) × (c.load_concurrency ≤ 64)
  pub load_requests : (1 ≤ c.load_requests) × (c.load_requests ≤ 2000)
  pub timeout_seconds : (1 ≤ c.timeout_seconds) × (c.timeout_seconds ≤ 120)
  pub run_timeout_seconds : (30 ≤ c.run_timeout_seconds) × (c.run_timeout_seconds ≤ 7200)
  pub max_age_hours : (1 ≤ c.max_age_hours) × (c.max_age_hours ≤ 8760)

between_sound : (low high n : ℕ) → between low high n ≡ true → (low ≤ n) × (n ≤ high)
between_sound low high n h = ground (arith, h)

passed : (b : Bool) (c : RunConfig) (e : Error) → (if b then ok c else err e) ≡ ok c → b ≡ true
passed true c e h = refl
passed false c e h = cc

pub model_validate-HasBounds : (c : RunConfig) → model_validate c ≡ ok c → HasBounds c
unfolding model_validate
model_validate-HasBounds c h =
    let (h₁, _) = &&-eq-true _ _ (passed _ c _ h) in
    let (h₂, _) = &&-eq-true _ _ h₁ in
    let (h₃, _) = &&-eq-true _ _ h₂ in
    let (numbers, _) = &&-eq-true _ _ h₃ in
    let (n₁, age) = &&-eq-true _ (between 1 8760 c.max_age_hours) numbers in
    let (n₂, limit) = &&-eq-true _ (between 30 7200 c.run_timeout_seconds) n₁ in
    let (n₃, timeout) = &&-eq-true _ (between 1 120 c.timeout_seconds) n₂ in
    let (n₄, requests) = &&-eq-true _ (between 1 2000 c.load_requests) n₃ in
    let (n₅, concurrency) = &&-eq-true _ (between 1 64 c.load_concurrency) n₄ in
    let (nonce, samples) =
      &&-eq-true (between 1 128 c.nonce_length) (between 1 100 c.latency_samples) n₅ in
    record {
      nonce_length = between_sound 1 128 c.nonce_length nonce;
      latency_samples = between_sound 1 100 c.latency_samples samples;
      load_concurrency = between_sound 1 64 c.load_concurrency concurrency;
      load_requests = between_sound 1 2000 c.load_requests requests;
      timeout_seconds = between_sound 1 120 c.timeout_seconds timeout;
      run_timeout_seconds = between_sound 30 7200 c.run_timeout_seconds limit;
      max_age_hours = between_sound 1 8760 c.max_age_hours age;
    }

-- The runs of a workspace whose status is none of the four last ones.
abbrev pub unfinished : ℕ → RunStore → ℕ
unfinished workspace_id s =
    count
      (λ r.
        column_eq r.workspace_id workspace_id
        && not (
            str_eq r.status "completed"
            || str_eq r.status "failed"
            || str_eq r.status "cancelled"
            || str_eq r.status "timed_out"))
      s.runs

pub active_runs_of-unfinished :
    (workspace_id : ℕ) (s : RunStore) → active_runs_of workspace_id s ≡ unfinished workspace_id s
unfolding active_runs_of is_terminal
active_runs_of-unfinished workspace_id s = length-filter _ s.runs
