-- ===== src/Ssrf/Examples.antt =====
-- Addresses, URLs and fetches at concrete values.
use ocspcrltesting.Ssrf.Address.{Address, v4, v6, mapped_base}
use ocspcrltesting.Ssrf.Policy.{
  NetworkPolicy, from_settings, address_block_reason, normalize, is_metadata, classify_ip,
}
use ocspcrltesting.Ssrf.Policy.Ranges.{rfc1918_192, mapped, Internal-blocked}
use ocspcrltesting.Ssrf.Policy.Metadata.{Metadata, lab_mode_iff}
use ocspcrltesting.Ssrf.Url.{
  ParsedUrl, Resolver, resolve_and_validate, AddrInfo, guarded_getaddrinfo,
}
use ocspcrltesting.Ssrf.Url.Checked.{EntryPasses, guarded_getaddrinfo_sound}
use ocspcrltesting.Ssrf.Fetch.{Request, Response, redirect, body, guarded_fetch}
use ocspcrltesting.Ssrf.Fetch.Trace.{Trail, guarded_fetch-Trail, guarded_fetch-requests}
use ocspcrltesting.Samples.{settings}
use ocspcrltesting.Prelude.{
  ℕ, String, ◌≡◌, ◌≢◌, ◌↔◌, ◌≤◌, ◌+◌, ◌*◌, ◌^◌, refl, none, some, [], ◌∷◌, List, All, Result, ok,
  err, arith, true, false, ◌==◌, if◌then◌else◌, length, blocked_target,
}

abbrev policy : NetworkPolicy
policy = from_settings settings

abbrev lab : NetworkPolicy
lab = record {
  allow_private = true;
  allow_redirects = true;
  max_response_bytes = 1000;
  max_timeout_seconds = 30;
  blocked_hosts = [];
}

Internal-blocked_example : address_block_reason (v6 (mapped_base + 0xc0a80001) none) policy ≢ none
unfolding from_settings
Internal-blocked_example =
    Internal-blocked (v6 (mapped_base + 0xc0a80001) none) policy refl
      (mapped 0xc0a80001 none (omega arith) (rfc1918_192 0 1 (omega arith) (omega arith)))

lab_mode_iff_example :
    (address_block_reason (v4 0xa9fea9fe) lab ≡ none) ↔ (¬ Metadata (v4 0xa9fea9fe))
lab_mode_iff_example = lab_mode_iff (v4 0xa9fea9fe) lab refl

abbrev url : ParsedUrl
url = record {
  scheme = "http";
  hostname = some "ocsp.example";
  port = none;
  netloc = "ocsp.example";
}

-- A public answer at the first hop, an internal one afterwards.
abbrev resolve : ℕ → Resolver
resolve hop host =
    if hop == 0 then some (some (v4 0x08080808) ∷ none ∷ []) else some (some (v4 0x7f000001) ∷ [])

rebound : resolve_and_validate (resolve 1) url policy ≡ err blocked_target
unfolding resolve_and_validate from_settings ocspcrltesting.Prelude.Text.ends_with
    ocspcrltesting.Ssrf.Url.allowed_addresses address_block_reason
    ocspcrltesting.Ssrf.Policy.classify normalize ocspcrltesting.Ssrf.Address.is_loopback
rebound = refl

abbrev public_entry : AddrInfo
public_entry = record { raw = "8.8.8.8"; address = some (v4 0x08080808) }

abbrev loopback_entry : AddrInfo
loopback_entry = record { raw = "127.0.0.1"; address = some (v4 0x7f000001) }

guarded_getaddrinfo_sound_example :
    All (EntryPasses policy) (public_entry ∷ []) × ((public_entry ∷ []) ≢ [])
unfolding guarded_getaddrinfo address_block_reason ocspcrltesting.Ssrf.Policy.classify normalize
    ocspcrltesting.Ssrf.Address.is_loopback ocspcrltesting.Ssrf.Address.is_link_local
    ocspcrltesting.Ssrf.Address.is_private ocspcrltesting.Ssrf.Address.is_unspecified
    ocspcrltesting.Ssrf.Address.is_multicast ocspcrltesting.Ssrf.Address.is_reserved from_settings
guarded_getaddrinfo_sound_example =
    guarded_getaddrinfo_sound (λ h. ok (public_entry ∷ loopback_entry ∷ [])) policy "ocsp.example"
      (public_entry ∷ []) refl

abbrev get : ℕ → Request → Response
get hop request = body ((1 ∷ 2 ∷ []) ∷ (3 ∷ []) ∷ [])

-- A server that redirects for ever.
abbrev circular : ℕ → Request → Response
circular hop request = redirect "/again"

abbrev join : ParsedUrl → String → ParsedUrl
join base location = base

guarded_fetch-Trail_example :
    Trail resolve circular join policy 1000 0 url
      (guarded_fetch resolve circular join policy 1000 5 url).1
guarded_fetch-Trail_example = guarded_fetch-Trail resolve circular join policy 1000 5 url

guarded_fetch-requests_example :
    length (guarded_fetch resolve circular join policy 1000 5 url).1 ≤ 6
guarded_fetch-requests_example = guarded_fetch-requests resolve circular join policy 1000 5 url
