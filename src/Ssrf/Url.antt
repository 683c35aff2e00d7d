-- ===== src/Ssrf/Url.antt =====
-- backend/app/ssrf.py: the check of a URL, and the resolver that the worker installs. A URL comes as
-- the parts that `urllib.parse.urlparse` gives; its `hostname` is in lower case already. The system's
-- resolver is a parameter: `none` is its error, and an entry `none` is a text that is no IP address.
pub mod Checked
use ocspcrltesting.Prelude.Text.{ends_with}
use ocspcrltesting.Ssrf.Address.{Address}
use ocspcrltesting.Ssrf.Policy.{NetworkPolicy, normalize, address_block_reason}
use ocspcrltesting.Prelude.{
  ℕ, String, Bool, true, not, ◌||◌, Option, none, some, List, [], ◌∷◌, str_eq, if◌then◌else◌,
  is_some, is_empty, filter, any, blocked_target, gaierror, Result, ok, err, guard, or_raise, ◌>>=◌,
  ◌>>◌,
}

pub record ParsedUrl : Type 0 where
  pub scheme : String
  pub hostname : Option String
  pub port : Option ℕ
  pub netloc : String

abbrev pub Resolver : Type 0
Resolver = String → Option (List (Option Address))

-- The entries that parse as addresses.
unfoldable pub usable : List (Option Address) → List Address
usable [] = []
usable (none ∷ infos) = usable infos
usable (some ip ∷ infos) = ip ∷ usable infos

abbrev non_empty : List Address → Result (List Address)
non_empty [] = err blocked_target
non_empty (ip ∷ ips) = ok (ip ∷ ips)

unfoldable pub resolve_host : Resolver → String → Result (List Address)
unfolding usable
resolve_host resolve host = do
  infos ← or_raise (resolve host) blocked_target
  non_empty (usable infos)

-- Every resolved address must pass the policy.
unfoldable pub allowed_addresses : NetworkPolicy → List Address → Result (List Address)
allowed_addresses policy [] = ok []
allowed_addresses policy (ip ∷ ips) =
    let rest = allowed_addresses policy ips in
    elim (address_block_reason ip policy) [
      | some reason ↦ err blocked_target
      | none ↦ do allowed ← rest; ok (normalize ip ∷ allowed)
    ]

abbrev pub is_localhost : String → Bool
is_localhost host = str_eq host "localhost" || ends_with host ".localhost"

-- `if not host` holds of a missing host and of an empty one.
abbrev pub host_of : ParsedUrl → Option String
host_of url = elim url.hostname [
  | none ↦ none
  | some host ↦ if is_empty host then none else some host
]

unfoldable pub host_addresses : Resolver → NetworkPolicy → String → Result (List Address)
unfolding resolve_host
host_addresses resolve policy host =
    if is_localhost host
    then (do guard policy.allow_private blocked_target; ok [])
    else (do addresses ← resolve_host resolve host; allowed_addresses policy addresses)

-- The empty answer is the `localhost` shortcut of lab mode.
unfoldable pub resolve_and_validate : Resolver → ParsedUrl → NetworkPolicy → Result (List Address)
unfolding host_addresses
resolve_and_validate resolve url policy = do
  guard (str_eq url.scheme "http" || str_eq url.scheme "https") blocked_target
  host ← or_raise (host_of url) blocked_target
  guard (not (any (str_eq host) policy.blocked_hosts)) blocked_target
  host_addresses resolve policy host

unfoldable pub validate_urls : Resolver → List ParsedUrl → NetworkPolicy → Result (Unit {0})
validate_urls resolve [] policy = ok tt
validate_urls resolve (url ∷ urls) policy = do
  allowed ← resolve_and_validate resolve url policy
  validate_urls resolve urls policy

-- A result of `getaddrinfo`: its address text, and the address where the text is one.
pub record AddrInfo : Type 0 where
  pub raw : String
  pub address : Option Address

-- What is no IP address is passed on unjudged.
abbrev pub may_connect : NetworkPolicy → AddrInfo → Bool
may_connect policy info = elim info.address [
  | none ↦ true
  | some ip ↦ not (is_some (address_block_reason ip policy))
]

abbrev or_gaierror : List AddrInfo → Result (List AddrInfo)
or_gaierror [] = err gaierror
or_gaierror (info ∷ infos) = ok (info ∷ infos)

unfoldable pub guarded_getaddrinfo :
    (String → Result (List AddrInfo)) → NetworkPolicy → String → Result (List AddrInfo)
guarded_getaddrinfo original policy host = do
  results ← original host
  or_gaierror (filter (may_connect policy) results)
