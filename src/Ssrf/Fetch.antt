-- ===== src/Ssrf/Fetch.antt =====
-- backend/app/ssrf.py: `guarded_fetch`, which follows redirects by hand. The resolver and the server
-- may answer otherwise at each hop, so both take the hop's number; `requests.get` is the parameter
-- `get`, and `join` is `urljoin`. An exception of the requests package is an HTTP failure. The result comes with the requests that were made.
pub mod Trace
use ocspcrltesting.Ssrf.Address.{Address}
use ocspcrltesting.Ssrf.Policy.{NetworkPolicy}
use ocspcrltesting.Ssrf.Url.{ParsedUrl, Resolver, resolve_and_validate}
use ocspcrltesting.Prelude.{
  ℕ, zero, suc, ◌+◌, String, Option, none, some, List, [], ◌∷◌, ◌++◌, str_eq, ltb, if◌then◌else◌,
  is_empty, length, value_error, blocked_target, http_failure, Result, ok, err,
}

-- A request for `url`; `connect` is the address in the place of its host, if it is pinned.
pub record Request : Type 0 where
  pub url : ParsedUrl
  pub connect : Option Address

-- What `requests.get` does: it raises, or answers. `failure` is an answer that `raise_for_status`
-- refuses, and `body` the chunks of another.
pub data Response : Type 0 where
  raised : Response
  redirect : String → Response
  failure : Response
  body : List (List ℕ) → Response

-- For http the connection is pinned to the first validated address, for https to the host's name.
unfoldable pub request_for : ParsedUrl → List Address → Request
request_for url [] = record { url = url; connect = none }
request_for url (ip ∷ ips) = record {
  url = url;
  connect = if str_eq url.scheme "http" then some ip else none;
}

-- The loop over `iter_content`: it stops as soon as more than `max_bytes` were read.
unfoldable pub read_chunks : ℕ → ℕ → List ℕ → List (List ℕ) → Result (List ℕ)
read_chunks max_bytes read got [] = ok got
read_chunks max_bytes read got (chunk ∷ chunks) =
    let rest = read_chunks max_bytes (read + length chunk) (got ++ chunk) chunks in
    if ltb max_bytes (read + length chunk) then err value_error else rest

-- What one answer leads to: `follow` is the rest of the loop at the redirect's location.
unfoldable pub after_answer :
    ℕ
    → Request
    → (String → Result (List ℕ) × List Request)
    → Response
    → Result (List ℕ) × List Request
after_answer max_bytes request follow (redirect location) =
    let (result, trace) = follow location in
    if is_empty location then (err blocked_target, request ∷ []) else (result, request ∷ trace)
after_answer max_bytes request follow raised = (err http_failure, request ∷ [])
after_answer max_bytes request follow failure = (err http_failure, request ∷ [])
after_answer max_bytes request follow (body chunks) =
    (read_chunks max_bytes 0 [] chunks, request ∷ [])

module _ (resolve : ℕ → Resolver) (get : ℕ → Request → Response)
    (join : ParsedUrl → String → ParsedUrl) (policy : NetworkPolicy) (max_bytes : ℕ) where
  -- The rounds of the loop that are left, the hop's number, and the URL of the hop.
  unfoldable pub fetch_loop : ℕ → ℕ → ParsedUrl → Result (List ℕ) × List Request
  fetch_loop zero hop current = (err blocked_target, [])
  fetch_loop (suc rounds) hop current = elim (resolve_and_validate (resolve hop) current policy) [
    | err e ↦ (err e, [])
    | ok allowed ↦
        after_answer max_bytes (request_for current allowed)
          (λ location. fetch_loop rounds (hop + 1) (join current location))
          (get hop (request_for current allowed))
  ]

  unfoldable pub guarded_fetch : ℕ → ParsedUrl → Result (List ℕ) × List Request
  unfolding fetch_loop
  guarded_fetch max_redirects url = fetch_loop (max_redirects + 1) 0 url
