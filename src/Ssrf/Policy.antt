-- ===== src/Ssrf/Policy.antt =====
-- backend/app/ssrf.py: the policy and its judgement of one address.
pub mod Ranges
pub mod Metadata
use ocspcrltesting.Settings.{Settings}
use ocspcrltesting.Ssrf.Address.{
  Address, v4, v6, ipv4_mapped, is_loopback, is_link_local, is_private, is_unspecified,
  is_multicast, is_reserved,
}
use ocspcrltesting.Prelude.{
  ℕ, ◌+◌, ◌*◌, ◌^◌, String, Bool, false, ◌||◌, Option, none, some, List, ◌==◌, if◌then◌else◌,
}

pub record NetworkPolicy : Type 0 where
  pub allow_private : Bool
  pub allow_redirects : Bool
  pub max_response_bytes : ℕ
  pub max_timeout_seconds : ℕ
  pub blocked_hosts : List String

unfoldable pub from_settings : Settings → NetworkPolicy
from_settings s = record {
  allow_private = s.allow_private_targets;
  allow_redirects = s.allow_redirects;
  max_response_bytes = s.max_response_bytes;
  max_timeout_seconds = s.max_request_timeout_seconds;
  blocked_hosts = s.extra_blocked_host_list;
}

-- The reason texts, in their order.
pub data Reason : Type 0 where
  metadata loopback link_local private non_unicast : Reason

unfoldable pub normalize : Address → Address
unfolding ipv4_mapped
normalize (v4 n) = v4 n
normalize (v6 n scope_id) = elim (ipv4_mapped n) [ none ↦ v6 n scope_id | some m ↦ v4 m ]

-- `str(ip) in METADATA_ADDRESSES`: 169.254.169.254, 100.100.100.200 and fd00:ec2::254. The text of
-- an address with a scope_id is another one.
abbrev pub in_metadata_addresses : Address → Bool
in_metadata_addresses (v4 n) = n == 0xa9fea9fe || n == 0x646464c8
in_metadata_addresses (v6 n none) = n == 0xfd000ec2 * 2 ^ 96 + 0x254
in_metadata_addresses (v6 n (some scope_id)) = false

unfoldable pub is_metadata : Address → Bool
is_metadata ip = in_metadata_addresses (normalize ip)

unfoldable pub classify : Address → Option Reason
classify ip =
    if in_metadata_addresses ip
    then some metadata
    else if is_loopback ip
    then some loopback
    else if is_link_local ip
    then some link_local
    else if is_private ip
    then some private
    else if is_unspecified ip || is_multicast ip || is_reserved ip
    then some non_unicast
    else none

unfoldable pub classify_ip : Address → Option Reason
classify_ip ip = classify (normalize ip)

unfoldable pub address_block_reason : Address → NetworkPolicy → Option Reason
unfolding classify_ip is_metadata
address_block_reason ip policy = elim (classify_ip ip) [
  | none ↦ none
  | some reason ↦
      if is_metadata ip then some reason else if policy.allow_private then none else some reason
]
