-- ===== src/Login/Limits.antt =====
-- What the rate limiter and the login promise.
use ocspcrltesting.Schema.{User}
use ocspcrltesting.Settings.{Settings}
use ocspcrltesting.Login.{
  Failures, max_failures, window, rate_limited, record_failure, clear_failures, is_local,
  LoginState, accepts, welcomed, checked, local_login,
}
use ocspcrltesting.Prelude.{
  ℕ, suc, String, ◌≡◌, ◌≤◌, ◌<◌, ◌+◌, ◌≢◌, inl, inr, refl, Bool, true, false, Option, none, some,
  List, [], ◌∷◌, eq_refl, eq_iff, Bool-cases, filter, ok, scalar_one_or_none, arith, ap, sym, ◌∙◌,
  ok-injective, &&-eq-true, ok-injective, &&-eq-true,
}

-- Failures at the times of a list, in order.
abbrev pub failures_at : Failures → String → List ℕ → Failures
failures_at failures key [] = failures
failures_at failures key (t ∷ ts) = failures_at (record_failure failures key t) key ts

abbrev pub AreWithin : ℕ → List ℕ → Type 0
AreWithin start [] = Unit
AreWithin start (t ∷ ts) = (start ≤ t) × (t < start + window) × AreWithin start ts

abbrev pub number : List ℕ → ℕ
number [] = 0
number (t ∷ ts) = suc (number ts)

-- Later failures in the window add to the count and keep the first time.
failures_at-count :
    (failures : Failures) (key : String) (start n : ℕ) (ts : List ℕ)
    → 0 < start
    → failures key ≡ some (n, start)
    → AreWithin start ts
    → failures_at failures key ts key ≡ some (number ts + n, start)
unfolding record_failure
failures_at-count failures key start n [] pos e h = e ∙ ap (λ k. some (k, start)) (omega arith)
failures_at-count failures key start n (t ∷ ts) pos e h =
    failures_at-count (record_failure failures key t) key start (n + 1) ts pos
      (ground (arith, eq_refl key, e, pos, h.0, h.1)) h.2
    ∙ ap (λ k. some (k, start)) (omega arith)

first-failure :
    (failures : Failures) (key : String) (start : ℕ)
    → 0 < start
    → failures key ≡ none
    → record_failure failures key start key ≡ some (1, start)
unfolding record_failure
first-failure failures key start pos e = ground (arith, eq_refl key, e, pos)

-- For a key without failures: after at least five failures, at times that fall in the window of
-- the first one, which is later than 0, the key is limited until that window ends.
pub record_failure-limited :
    (failures : Failures) (key : String) (start now : ℕ) (ts : List ℕ)
    → 0 < start
    → failures key ≡ none
    → AreWithin start ts
    → max_failures ≤ number (start ∷ ts)
    → now < start + window
    → rate_limited (failures_at failures key (start ∷ ts)) key now ≡ true
unfolding rate_limited
record_failure-limited failures key start now ts pos e h five soon =
    let counted =
      failures_at-count (record_failure failures key start) key start 1 ts pos
        (first-failure failures key start pos e) h in
    ground (arith, counted, five, soon)

-- What a login that succeeds promises.
pub record Welcomed (verify_password : String → Option String → Bool) (settings : Settings)
    (username password key : String) (now : ℕ) (before after : LoginState) (user : User)
    : Type 0 where
  pub enabled : settings.local_login_enabled ≡ true
  pub unlimited : rate_limited before.0 key now ≡ false
  pub row : User
  pub unique : filter (is_local username) before.1.users ≡ row ∷ []
  pub same : user.id ≡ row.id
  pub active : row.is_active ≡ true
  pub verified : verify_password password row.password_hash ≡ true
  pub cleared : after.0 key ≡ none
  pub others : (other : String) → other ≢ key → after.0 other ≡ before.0 other

clear_failures-own : (failures : Failures) (key : String) → clear_failures failures key key ≡ none
unfolding clear_failures
clear_failures-own failures key = rw eq_refl

clear_failures-other :
    (failures : Failures) (key other : String)
    → other ≢ key
    → clear_failures failures key other ≡ failures other
unfolding clear_failures
clear_failures-other failures key other ne = ground (arith, eq_iff other key, ne)

module _ (verify_password : String → Option String → Bool) (settings : Settings)
    (username password key : String) (now clock : ℕ) (before after : LoginState) (user : User) where
  checked_sound :
      (rows : List User)
      → settings.local_login_enabled ≡ true
      → rate_limited before.0 key now ≡ false
      → filter (is_local username) before.1.users ≡ rows
      → checked verify_password username password key now clock before (scalar_one_or_none rows)
        ≡ (ok user, after)
      → Welcomed verify_password settings username password key now before after user
  checked_sound [] on free e h = absurd (cc (ap (λ r. r.0) h))
  checked_sound (x ∷ y ∷ r) on free e h = absurd (cc (ap (λ r. r.0) h))
  checked_sound (row ∷ []) on free e h = elim (Bool-cases (accepts verify_password password row)) [
    | inr bad ↦ absurd (cc (ap (λ r. r.0) (rw bad at h)))
    | inl good ↦
        let (active, verified) =
          &&-eq-true row.is_active (verify_password password row.password_hash) good in
        let done : welcomed verify_password key clock row before ≡ (ok user, after) =
          rw good at h in
        record {
          enabled = on;
          unlimited = free;
          row = row;
          unique = e;
          same = sym (
              ap (λ u. u.id)
                (ok-injective (record row { last_login_at = some clock }) user
                  (ap (λ r. r.0) done)));
          active = active;
          verified = verified;
          cleared = sym (ap (λ r. r.1.0 key) done) ∙ clear_failures-own before.0 key;
          others = λ other ne.
              sym (ap (λ r. r.1.0 other) done) ∙ clear_failures-other before.0 key other ne;
        }
  ]

  -- A login that succeeds was enabled, its key was not limited, the name is that of one local
  -- row, which is active and whose password was verified, and afterwards the key has no failures
  -- and every other key has its own.
  pub local_login-Welcomed :
      local_login verify_password settings username password key now clock before ≡ (ok user, after)
      → Welcomed verify_password settings username password key now before after user
  unfolding local_login
  local_login-Welcomed h = elim (Bool-cases settings.local_login_enabled) [
    | inr off ↦ absurd (cc (ap (λ r. r.0) (rw off at h)))
    | inl on ↦ elim (Bool-cases (rate_limited before.0 key now)) [
      | inl many ↦ absurd (cc (ap (λ r. r.0) (rw (on, many) at h)))
      | inr free ↦
          checked_sound (filter (is_local username) before.1.users) on free refl
            (rw (on, free) at h)
    ]
  ]
