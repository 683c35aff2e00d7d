-- ===== src/Worker/Netguard.antt =====
-- backend/app/worker/netguard.py: the guard around every request of the engine. `send` is the send of
-- the requests package, and `resolve` the resolver.
use ocspcrltesting.Ssrf.Policy.{NetworkPolicy}
use ocspcrltesting.Ssrf.Url.{ParsedUrl, Resolver, resolve_and_validate}
use ocspcrltesting.Prelude.{
  ℕ, ◌+◌, ◌≤◌, ◌<◌, ◌≡◌, refl, Bool, false, not, ◌&&◌, Option, none, some, List, [], ◌∷◌, ◌++◌,
  arith, ltb, if◌then◌else◌, length, length-append, ap, blocked_target, Result, ok, err, guard,
  ◌>>=◌, ◌>>◌, guard-eq-ok, ok-injective, Bool-cases, inl, inr,
}

-- The `timeout` of a request: none, seconds, or a pair for connecting and reading.
pub data Timeout : Type 0 where
  missing : Timeout
  seconds : ℕ → Timeout
  pair : ℕ → ℕ → Timeout

pub record Sent : Type 0 where
  pub url : ParsedUrl
  pub timeout : Timeout
  pub allow_redirects : Bool

-- `content_length` is the header where it is decimal.
pub record Answer : Type 0 where
  pub is_redirect : Bool
  pub content_length : Option ℕ
  pub chunks : List (List ℕ)

unfoldable pub capped_timeout : ℕ → Timeout → Timeout
capped_timeout cap missing = seconds cap
capped_timeout cap (seconds n) = if ltb cap n then seconds cap else seconds n
capped_timeout cap (pair c r) = pair c r

abbrev pub too_long : ℕ → Option ℕ → Bool
too_long limit none = false
too_long limit (some n) = ltb limit n

unfoldable pub read_body : ℕ → ℕ → List ℕ → List (List ℕ) → Result (List ℕ)
read_body limit read got [] = ok got
read_body limit read got (chunk ∷ chunks) =
    let rest = read_body limit (read + length chunk) (got ++ chunk) chunks in
    if ltb limit (read + length chunk) then err blocked_target else rest

abbrev pub request_of : NetworkPolicy → ParsedUrl → Timeout → Bool → Sent
request_of policy url timeout redirects = record {
  url = url;
  timeout = capped_timeout policy.max_timeout_seconds timeout;
  allow_redirects = policy.allow_redirects && redirects;
}

abbrev pub received : NetworkPolicy → Answer → Result (List ℕ)
received policy answer = do
  guard (not (not policy.allow_redirects && answer.is_redirect)) blocked_target
  guard (not (too_long policy.max_response_bytes answer.content_length)) blocked_target
  read_body policy.max_response_bytes 0 [] answer.chunks

-- validate_url
abbrev pub validate_url : Resolver → ParsedUrl → NetworkPolicy → Result (Unit {0})
validate_url resolve url policy = resolve_and_validate resolve url policy >>= λ allowed. ok tt

-- The result, and the requests that were sent.
abbrev pub after_check :
    (Sent → Answer) → NetworkPolicy → Sent → Result (Unit {0}) → Result (List ℕ) × List Sent
after_check send policy request (err e) = (err e, [])
after_check send policy request (ok u) = (received policy (send request), request ∷ [])

unfoldable pub guarded_send :
    Resolver
    → (Sent → Answer)
    → NetworkPolicy
    → ParsedUrl
    → Timeout
    → Bool
    → Result (List ℕ) × List Sent
guarded_send resolve send policy url timeout redirects =
    after_check send policy (request_of policy url timeout redirects)
      (validate_url resolve url policy)

-- From the timeout that was asked for to the one that is sent: none becomes the maximum, seconds
-- the lower of the two, and a pair stays what it is, however long.
pub data IsCapped (cap : ℕ) : Timeout → Timeout → Type 0 where
  filled_in : IsCapped cap missing (seconds cap)
  kept : {n : ℕ} → n ≤ cap → IsCapped cap (seconds n) (seconds n)
  cut : {n : ℕ} → cap < n → IsCapped cap (seconds n) (seconds cap)
  pair_uncut : {c r : ℕ} → IsCapped cap (pair c r) (pair c r)

capped_timeout-IsCapped : (cap : ℕ) (t : Timeout) → IsCapped cap t (capped_timeout cap t)
unfolding capped_timeout
capped_timeout-IsCapped cap missing = filled_in
capped_timeout-IsCapped cap (seconds n) = elim (Bool-cases (ltb cap n)) [
  | inl e ↦ rw e (cut (ground (arith, e)))
  | inr e ↦ rw e (kept (ground (arith, e)))
]
capped_timeout-IsCapped cap (pair c r) = pair_uncut

read_body_bound :
    (limit read : ℕ) (got : List ℕ) (chunks : List (List ℕ)) (out : List ℕ)
    → read ≡ length got
    → read ≤ limit
    → read_body limit read got chunks ≡ ok out
    → length out ≤ limit
unfolding read_body
read_body_bound limit read got [] out e le h = ground (arith, ap length (ok-injective got out h))
read_body_bound limit read got (chunk ∷ chunks) out e le h = ground (
  arith,
  length-append got chunk,
  read_body_bound limit (read + length chunk) (got ++ chunk) chunks out,
)

-- What was sent, if anything, after the URL passed the policy.
pub record IsGuarded (resolve : Resolver) (policy : NetworkPolicy) (url : ParsedUrl)
    (timeout : Timeout) (sent : Sent) : Type 0 where
  pub validated : (validate_url resolve url policy) ≡ ok tt
  pub same_url : sent.url ≡ url
  pub capped : IsCapped policy.max_timeout_seconds timeout sent.timeout
  pub redirects : policy.allow_redirects ≡ false → sent.allow_redirects ≡ false

abbrev pub AllSent : (Sent → Type 0) → List Sent → Type 0
AllSent P [] = Unit
AllSent P (s ∷ ss) = P s × AllSent P ss

after_check-IsGuarded :
    (resolve : Resolver) (send : Sent → Answer) (policy : NetworkPolicy) (url : ParsedUrl)
    (timeout : Timeout) (redirects : Bool) (check : Result (Unit {0}))
    → (validate_url resolve url policy) ≡ check
    → AllSent
        (IsGuarded resolve policy url timeout)
        (after_check send policy (request_of policy url timeout redirects) check).1
after_check-IsGuarded resolve send policy url timeout redirects (err e) h = tt
after_check-IsGuarded resolve send policy url timeout redirects (ok tt) h = (
  record {
    validated = h;
    same_url = refl;
    capped = capped_timeout-IsCapped policy.max_timeout_seconds timeout;
    redirects = λ off. rw off refl;
  },
  tt,
)

received_bound :
    (send : Sent → Answer) (policy : NetworkPolicy) (request : Sent) (check : Result (Unit {0}))
    (content : List ℕ)
    → (after_check send policy request check).0 ≡ ok content
    → length content ≤ policy.max_response_bytes
received_bound send policy request (err e) content h = absurd (cc h)
received_bound send policy request (ok u) content h =
    let answer = send request in
    let (a, h₁) =
      guard-eq-ok (not (not policy.allow_redirects && answer.is_redirect)) blocked_target _ h in
    let (b, h₂) =
      guard-eq-ok (not (too_long policy.max_response_bytes answer.content_length)) blocked_target _
        h₁ in
    read_body_bound policy.max_response_bytes 0 [] (send request).chunks content refl (omega arith)
      h₂

-- The guard sends a request only for a URL that passes the policy, without redirects where they
-- are disabled; a missing timeout becomes the policy's maximum, one in seconds the lower of the
-- two, and a pair for connecting and reading is sent as it is, however long; what it returns is no
-- longer than the policy's limit.
pub guarded_send_sound :
    (resolve : Resolver) (send : Sent → Answer) (policy : NetworkPolicy) (url : ParsedUrl)
    (timeout : Timeout) (redirects : Bool)
    → AllSent
        (IsGuarded resolve policy url timeout)
        (guarded_send resolve send policy url timeout redirects).1
      × ((content : List ℕ)
          → (guarded_send resolve send policy url timeout redirects).0 ≡ ok content
          → length content ≤ policy.max_response_bytes)
unfolding guarded_send
guarded_send_sound resolve send policy url timeout redirects = (
  after_check-IsGuarded resolve send policy url timeout redirects _ refl,
  λ content h. received_bound send policy (request_of policy url timeout redirects) _ content h,
)
