-- ===== src/Ssrf/Url/Checked.antt =====
-- What the check of a URL lets through.
use ocspcrltesting.Ssrf.Address.{Address}
use ocspcrltesting.Ssrf.Policy.{NetworkPolicy, normalize, address_block_reason}
use ocspcrltesting.Ssrf.Policy.Ranges.{normalize_judged_alike}
use ocspcrltesting.Ssrf.Url.{
  ParsedUrl, Resolver, AddrInfo, usable, resolve_host, allowed_addresses, host_addresses, non_empty,
  is_localhost, host_of, resolve_and_validate, may_connect, or_gaierror, guarded_getaddrinfo,
}
use ocspcrltesting.Prelude.{
  String, ◌≡◌, sym, ◌∙◌, subst, ◌≢◌, ◌⊎◌, inl, inr, Bool, true, false, not, ◌||◌, Option, none,
  some, List, [], ◌∷◌, map, arith, str_eq, eq_iff, is_some, Bool-cases, Option-cases, filter, any,
  All, blocked_target, Result, ok, ◌>>=◌, >>=-eq-ok, guard-eq-ok, or_raise-eq-ok,
}

abbrev pub Passes : NetworkPolicy → Address → Type 0
Passes policy ip = address_block_reason ip policy ≡ none

-- The loop returns the normal forms of all addresses, and every address passes.
allowed_addresses_sound :
    (policy : NetworkPolicy) (ips allowed : List Address)
    → allowed_addresses policy ips ≡ ok allowed
    → (map normalize ips ≡ allowed) × All (Passes policy) ips
unfolding allowed_addresses
allowed_addresses_sound policy [] allowed h = (ground arith, tt)
allowed_addresses_sound policy (ip ∷ ips) allowed h =
    elim (Option-cases (address_block_reason ip policy)) [
      | inr (reason, e) ↦ ground (arith, e)
      | inl e ↦
          let (rest, r, e₁) =
            >>=-eq-ok (allowed_addresses policy ips) (λ rest. ok (normalize ip ∷ rest))
              {b = allowed} (ground (arith, h, e)) in
          let (same, passes) = allowed_addresses_sound policy ips rest r in
          (ground (arith, e₁, same), (e, passes))
    ]

-- What passes does so in its normal form.
All-normalize :
    (policy : NetworkPolicy) (ips : List Address)
    → All (Passes policy) ips
    → All (Passes policy) (map normalize ips)
All-normalize policy [] h = tt
All-normalize policy (ip ∷ ips) h = (rw normalize_judged_alike h.0, All-normalize policy ips h.1)

-- The addresses to connect to: none with the `localhost` shortcut of lab mode, and otherwise all
-- that the resolver gave.
abbrev pub Addresses : Resolver → NetworkPolicy → String → List Address → Type 0
Addresses resolve policy host allowed =
    ((is_localhost host ≡ true) × (policy.allow_private ≡ true) × (allowed ≡ []))
    ⊎ ((infos : List (Option Address)) × (resolve host ≡ some infos)
        × (map normalize (usable infos) ≡ allowed)
        × All (Passes policy) (usable infos)
        × (allowed ≢ []))

-- What a validated URL comes with: a web scheme, a host off the block list, and the addresses to
-- connect to, which are all the resolver gave and which all pass. None come only with the
-- `localhost` shortcut of lab mode.
pub record Validated (resolve : Resolver) (url : ParsedUrl) (policy : NetworkPolicy)
    (allowed : List Address) : Type 0 where
  pub scheme : (url.scheme ≡ "http") ⊎ (url.scheme ≡ "https")
  pub host : String
  pub host_found : host_of url ≡ some host
  pub unlisted : any (str_eq host) policy.blocked_hosts ≡ false
  pub passes : All (Passes policy) allowed
  pub addresses : Addresses resolve policy host allowed

non_empty-kept :
    (infos : List (Option Address)) (addresses : List Address)
    → non_empty (usable infos) ≡ ok addresses
    → (addresses ≡ usable infos) × (map normalize (usable infos) ≢ [])
non_empty-kept infos addresses h = go (usable infos) h
  where
    go :
        (xs : List Address)
        → non_empty xs ≡ ok addresses
        → (addresses ≡ xs) × (map normalize xs ≢ [])
    go [] k = cc
    go (x ∷ xs) k = (ground arith, λ e. cc)

-- The resolver's answer, and then the judgement of the addresses in it.
resolved_then :
    (resolve : Resolver) (policy : NetworkPolicy) (host : String) (allowed : List Address)
    → (resolve_host resolve host >>= allowed_addresses policy) ≡ ok allowed
    → (infos : List (Option Address)) × (resolve host ≡ some infos)
      × ((non_empty (usable infos) >>= allowed_addresses policy) ≡ ok allowed)
unfolding resolve_host
resolved_then resolve policy host allowed h = elim (Option-cases (resolve host)) [
  | inl e ↦ ground (arith, e)
  | inr (infos, e) ↦ (infos, e, rw e at h)
]

host_addresses_sound :
    (resolve : Resolver) (policy : NetworkPolicy) (host : String) (allowed : List Address)
    → host_addresses resolve policy host ≡ ok allowed
    → All (Passes policy) allowed × Addresses resolve policy host allowed
unfolding host_addresses
host_addresses_sound resolve policy host allowed h = elim (Bool-cases (is_localhost host)) [
  | inl e ↦
      let (lab, made) =
        guard-eq-ok policy.allow_private blocked_target (ok []) {b = allowed}
          (ground (arith, h, e)) in
      let none_left : [] ≡ allowed = ground (arith, made) in
      (subst (All (Passes policy)) none_left tt, inl (e, lab, sym none_left))
  | inr e ↦
      let (infos, resolved, h₁) =
        resolved_then resolve policy host allowed (ground (arith, h, e)) in
      let (addresses, kept, h₂) = >>=-eq-ok (non_empty (usable infos)) _ h₁ in
      let (same, some_left) = non_empty-kept infos addresses kept in
      let (mapped, passes) =
        allowed_addresses_sound policy (usable infos) allowed (ground (arith, h₂, same)) in
      (
        subst (All (Passes policy)) mapped (All-normalize policy (usable infos) passes),
        inr (infos, resolved, mapped, passes, (λ none_left. some_left (mapped ∙ none_left))),
      )
]

web_scheme :
    (s : String) → (str_eq s "http" || str_eq s "https") ≡ true → (s ≡ "http") ⊎ (s ≡ "https")
web_scheme s h = ground (arith, eq_iff s "http", eq_iff s "https")

-- A URL that is let through has the scheme http or https and a host that is not blocked, every
-- address returned passes the policy, and the addresses are those that the host resolves to or
-- none for the localhost shortcut.
pub resolve_and_validate-Validated :
    (resolve : Resolver) (url : ParsedUrl) (policy : NetworkPolicy) (allowed : List Address)
    → resolve_and_validate resolve url policy ≡ ok allowed
    → Validated resolve url policy allowed
unfolding resolve_and_validate
resolve_and_validate-Validated resolve url policy allowed h =
    let (web, h₁) = guard-eq-ok (str_eq url.scheme "http" || str_eq url.scheme "https") _ _ h in
    let (host, found, h₂) = or_raise-eq-ok (host_of url) _ _ h₁ in
    let (off, h₃) = guard-eq-ok (not (any (str_eq host) policy.blocked_hosts)) _ _ h₂ in
    let (passes, addresses) = host_addresses_sound resolve policy host allowed h₃ in
    record {
      scheme = web_scheme url.scheme web;
      host = host;
      host_found = found;
      unlisted = ground (arith, off);
      passes = passes;
      addresses = addresses;
    }

-- Of an address that may be missing: if it is there, it passes.
abbrev pub MissingOrPasses : NetworkPolicy → Option Address → Type 0
MissingOrPasses policy none = Unit {0}
MissingOrPasses policy (some ip) = Passes policy ip

abbrev pub EntryPasses : NetworkPolicy → AddrInfo → Type 0
EntryPasses policy info = MissingOrPasses policy info.address

abbrev unjudged : NetworkPolicy → Option Address → Bool
unjudged policy none = true
unjudged policy (some ip) = not (is_some (address_block_reason ip policy))

unjudged-passes :
    (policy : NetworkPolicy) (address : Option Address)
    → unjudged policy address ≡ true
    → MissingOrPasses policy address
unjudged-passes policy none h = tt
unjudged-passes policy (some ip) h = ground arith

may_connect-passes :
    (policy : NetworkPolicy) (info : AddrInfo)
    → may_connect policy info ≡ true
    → EntryPasses policy info
may_connect-passes policy info h = unjudged-passes policy info.address (ground arith)

filter-passes :
    (policy : NetworkPolicy) (infos : List AddrInfo)
    → All (EntryPasses policy) (filter (may_connect policy) infos)
filter-passes policy [] = tt
filter-passes policy (info ∷ infos) = elim (Bool-cases (may_connect policy info)) [
  | inl e ↦ rw e (may_connect-passes policy info e, filter-passes policy infos)
  | inr e ↦ rw e (filter-passes policy infos)
]

or_gaierror-kept :
    (xs infos : List AddrInfo) → or_gaierror xs ≡ ok infos → (xs ≡ infos) × (infos ≢ [])
or_gaierror-kept [] infos h = cc
or_gaierror-kept (x ∷ xs) infos h = (ground arith, λ e. cc)

-- Whatever the original resolver answers, the guarded one that succeeds returns at least one
-- entry, and every entry with an address passes the policy.
pub guarded_getaddrinfo_sound :
    (original : String → Result (List AddrInfo)) (policy : NetworkPolicy) (host : String)
    (infos : List AddrInfo)
    → guarded_getaddrinfo original policy host ≡ ok infos
    → All (EntryPasses policy) infos × (infos ≢ [])
unfolding guarded_getaddrinfo
guarded_getaddrinfo_sound original policy host infos h =
    let (results, resolved, h₁) = >>=-eq-ok (original host) _ h in
    let (kept, some_left) = or_gaierror-kept (filter (may_connect policy) results) infos h₁ in
    (subst (All (EntryPasses policy)) kept (filter-passes policy results), some_left)
