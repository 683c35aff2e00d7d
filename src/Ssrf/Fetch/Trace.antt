-- ===== src/Ssrf/Fetch/Trace.antt =====
-- What a fetch may do: its requests, their number and the size of its result.
use ocspcrltesting.Ssrf.Address.{Address}
use ocspcrltesting.Ssrf.Policy.{NetworkPolicy}
use ocspcrltesting.Ssrf.Url.{ParsedUrl, Resolver, resolve_and_validate}
use ocspcrltesting.Ssrf.Url.Checked.{MissingOrPasses, Validated, resolve_and_validate-Validated}
use ocspcrltesting.Ssrf.Fetch.{
  Request, Response, raised, redirect, failure, body, request_for, read_chunks, after_answer,
  fetch_loop, guarded_fetch,
}
use ocspcrltesting.Prelude.{
  ℕ, zero, suc, ◌+◌, ◌≤◌, String, ◌≡◌, refl, ap, ◌⊎◌, inl, inr, true, List, [], ◌∷◌, ◌++◌, arith,
  str_eq, eq_iff, is_some, is_empty, Bool-cases, length, length-append, Result, ok, ok-injective,
  Result-cases,
}

-- What was read stays within the limit.
read_chunks_bound :
    (max_bytes read : ℕ) (got : List ℕ) (chunks : List (List ℕ)) (out : List ℕ)
    → read ≡ length got
    → read ≤ max_bytes
    → read_chunks max_bytes read got chunks ≡ ok out
    → length out ≤ max_bytes
unfolding read_chunks
read_chunks_bound max_bytes read got [] out e le h =
    ground (arith, ap length (ok-injective got out h))
read_chunks_bound max_bytes read got (chunk ∷ chunks) out e le h = ground (
  arith,
  length-append got chunk,
  read_chunks_bound max_bytes (read + length chunk) (got ++ chunk) chunks out,
)

module _ (resolve : ℕ → Resolver) (get : ℕ → Request → Response)
    (join : ParsedUrl → String → ParsedUrl) (policy : NetworkPolicy) (max_bytes : ℕ) where
  -- A request of a hop for `url`, which was validated on the answer that the resolver gave there,
  -- and whose pinned address passes the policy.
  pub record Approved (hop : ℕ) (url : ParsedUrl) (request : Request) : Type 0 where
    pub same_url : request.url ≡ url
    pub allowed : List Address
    pub validated : Validated (resolve hop) url policy allowed
    pub pinned : MissingOrPasses policy request.connect
    pub http_pinned : (url.scheme ≡ "https") ⊎ (is_some request.connect ≡ true) ⊎ (allowed ≡ [])

  -- The requests of a fetch from a hop on: the first is for the URL there, and the later ones are
  -- those of the next hop, for the location that the answer redirects to.
  pub data Trail : ℕ → ParsedUrl → List Request → Type 0 where
    no_request : {hop : ℕ} {url : ParsedUrl} → Trail hop url []
    last_request :
        {hop : ℕ} {url : ParsedUrl} {request : Request}
        → Approved hop url request
        → Trail hop url (request ∷ [])
    redirected :
        {hop : ℕ} {url : ParsedUrl} {request : Request} {requests : List Request}
        (location : String)
        → Approved hop url request
        → get hop request ≡ redirect location
        → Trail (hop + 1) (join url location) requests
        → Trail hop url (request ∷ requests)

  request_for-Approved :
      (hop : ℕ) (url : ParsedUrl) (allowed : List Address)
      → Validated (resolve hop) url policy allowed
      → Approved hop url (request_for url allowed)
  unfolding request_for
  request_for-Approved hop url [] v = record {
    same_url = refl;
    allowed = [];
    validated = v;
    pinned = tt;
    http_pinned = inr (inr refl);
  }
  request_for-Approved hop url (ip ∷ ips) v = elim (Bool-cases (str_eq url.scheme "http")) [
    | inl e ↦ rw e (record {
      same_url = refl;
      allowed = ip ∷ ips;
      validated = v;
      pinned = v.passes.0;
      http_pinned = inr (inl refl);
    })
    | inr e ↦ rw e (record {
      same_url = refl;
      allowed = ip ∷ ips;
      validated = v;
      pinned = tt;
      http_pinned = inl (ground (arith, e, v.scheme, eq_iff url.scheme "http"));
    })
  ]

  after_answer-Trail :
      (hop : ℕ) (url : ParsedUrl) (request : Request)
      (follow : String → Result (List ℕ) × List Request) (answer : Response)
      → get hop request ≡ answer
      → Approved hop url request
      → ((location : String) → Trail (hop + 1) (join url location) (follow location).1)
      → Trail hop url (after_answer max_bytes request follow answer).1
  unfolding after_answer
  after_answer-Trail hop url request follow (redirect location) e a rest =
      elim (Bool-cases (is_empty location)) [
        | inl empty ↦ rw empty (last_request a)
        | inr there ↦ rw there (redirected location a e (rest location))
      ]
  after_answer-Trail hop url request follow raised e a rest = last_request a
  after_answer-Trail hop url request follow failure e a rest = last_request a
  after_answer-Trail hop url request follow (body chunks) e a rest = last_request a

  abbrev outcome : ℕ → ℕ → ParsedUrl → Result (List ℕ) × List Request
  outcome = fetch_loop resolve get join policy max_bytes

  fetch_loop-Trail : (rounds hop : ℕ) (url : ParsedUrl) → Trail hop url (outcome rounds hop url).1
  unfolding fetch_loop
  fetch_loop-Trail zero hop url = no_request
  fetch_loop-Trail (suc rounds) hop url =
      elim (Result-cases (resolve_and_validate (resolve hop) url policy)) [
        | inl (e, refused) ↦ rw (refused, fetch_loop) no_request
        | inr (allowed, valid) ↦
            rw (valid, fetch_loop)
              (after_answer-Trail hop url (request_for url allowed) _
                (get hop (request_for url allowed)) refl
                (request_for-Approved hop url allowed
                  (resolve_and_validate-Validated (resolve hop) url policy allowed valid))
                (λ location. fetch_loop-Trail rounds (hop + 1) (join url location)))
      ]

  -- One round makes one request at most, and reads no more than the limit.
  abbrev Within : ℕ → Result (List ℕ) × List Request → Type 0
  Within rounds r = (length r.1 ≤ rounds) × ((out : List ℕ) → r.0 ≡ ok out → length out ≤ max_bytes)

  after_answer-Within :
      (rounds : ℕ) (request : Request) (follow : String → Result (List ℕ) × List Request)
      (answer : Response)
      → ((location : String) → Within rounds (follow location))
      → Within (suc rounds) (after_answer max_bytes request follow answer)
  unfolding after_answer
  after_answer-Within rounds request follow (redirect location) rest =
      elim (Bool-cases (is_empty location)) [
        | inl e ↦ rw e (omega arith, λ out h. cc)
        | inr e ↦ rw e (omega (arith, (rest location).0), (rest location).1)
      ]
  after_answer-Within rounds request follow raised rest = (omega arith, λ out h. cc)
  after_answer-Within rounds request follow failure rest = (omega arith, λ out h. cc)
  after_answer-Within rounds request follow (body chunks) rest =
      (omega arith, λ out h. read_chunks_bound max_bytes 0 [] chunks out refl (omega arith) h)

  fetch_loop-Within : (rounds hop : ℕ) (url : ParsedUrl) → Within rounds (outcome rounds hop url)
  unfolding fetch_loop
  fetch_loop-Within zero hop url = (omega arith, λ out h. cc)
  fetch_loop-Within (suc rounds) hop url =
      elim (Result-cases (resolve_and_validate (resolve hop) url policy)) [
        | inl (e, refused) ↦ rw (refused, fetch_loop) (omega arith, λ out h. cc)
        | inr (allowed, valid) ↦
            rw (valid, fetch_loop)
              (after_answer-Within rounds (request_for url allowed) _
                (get hop (request_for url allowed))
                (λ location. fetch_loop-Within rounds (hop + 1) (join url location)))
      ]

  -- For every resolver, server, redirect limit and URL: the first request of a fetch is for that
  -- URL and each later one for the location that the answer before it redirects to; each is made
  -- after the URL was validated on the answer that the resolver gave at that hop, a pinned
  -- connection goes to an address that passes the policy, and an http request is pinned unless
  -- the validated addresses are empty.
  pub guarded_fetch-Trail :
      (max_redirects : ℕ) (url : ParsedUrl)
      → Trail 0 url (guarded_fetch resolve get join policy max_bytes max_redirects url).1
  unfolding guarded_fetch
  guarded_fetch-Trail max_redirects url = fetch_loop-Trail (max_redirects + 1) 0 url

  -- Whatever is answered, a fetch makes at most one request more than the redirect limit.
  pub guarded_fetch-requests :
      (max_redirects : ℕ) (url : ParsedUrl)
      → length (guarded_fetch resolve get join policy max_bytes max_redirects url).1
        ≤ max_redirects + 1
  unfolding guarded_fetch
  guarded_fetch-requests max_redirects url = (fetch_loop-Within (max_redirects + 1) 0 url).0

  -- What a fetch returns is no longer than `max_bytes`.
  guarded_fetch-size :
      (max_redirects : ℕ) (url : ParsedUrl) (out : List ℕ)
      → (guarded_fetch resolve get join policy max_bytes max_redirects url).0 ≡ ok out
      → length out ≤ max_bytes
  unfolding guarded_fetch
  guarded_fetch-size max_redirects url = (fetch_loop-Within (max_redirects + 1) 0 url).1
