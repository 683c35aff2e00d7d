-- ===== src/Ssrf/Policy/Ranges.antt =====
-- Which addresses the policy lets through.
use ocspcrltesting.Ssrf.Address.{
  Address, v4, v6, mapped_base, is_loopback, is_link_local, is_private, is_unspecified,
  is_multicast,
}
use ocspcrltesting.Ssrf.Policy.{
  NetworkPolicy, metadata, normalize, in_metadata_addresses, is_metadata, classify,
  address_block_reason,
}
use ocspcrltesting.Prelude.{
  ℕ, ◌+◌, ◌*◌, ◌^◌, ◌≤◌, ◌<◌, String, ◌≡◌, refl, ◌≢◌, ◌⊎◌, inl, inr, true, false, ◌||◌, Option,
  none, some, arith,
}

pub normalize-mapped :
    (n : ℕ) (scope_id : Option String)
    → n < 2 ^ 32
    → normalize (v6 (mapped_base + n) scope_id) ≡ v4 n
unfolding normalize
normalize-mapped n scope_id h = ground arith

normalize-v4 : (n : ℕ) → normalize (v4 n) ≡ v4 n
unfolding normalize
normalize-v4 n = refl

-- An IPv4-mapped IPv6 address is judged as the IPv4 address, with or without a scope.
pub mapped_as_v4 :
    (n : ℕ) (scope_id : Option String) (policy : NetworkPolicy)
    → n < 2 ^ 32
    → address_block_reason (v6 (mapped_base + n) scope_id) policy
      ≡ address_block_reason (v4 n) policy
unfolding address_block_reason
mapped_as_v4 n scope_id policy h = ground (arith, normalize-mapped n scope_id h, normalize-v4 n)

classify-metadata : (ip : Address) → in_metadata_addresses ip ≡ true → classify ip ≡ some metadata
unfolding classify
classify-metadata ip h = rw h

-- Under every policy, the lab mode included, the metadata endpoints are blocked, as metadata.
pub metadata_blocked :
    (ip : Address) (policy : NetworkPolicy)
    → is_metadata ip ≡ true
    → address_block_reason ip policy ≡ some metadata
unfolding address_block_reason
metadata_blocked ip policy h = ground (arith, classify-metadata (normalize ip), h)

-- The address a.b.c.d.
abbrev pub dotted : ℕ → ℕ → ℕ → ℕ → ℕ
dotted a b c d = a * 2 ^ 24 + b * 2 ^ 16 + c * 2 ^ 8 + d

-- The addresses of a private network, as the RFCs write them.
pub data Internal : Address → Type 0 where
  loopback_v4 : (b c d : ℕ) → b < 256 → c < 256 → d < 256 → Internal (v4 (dotted 127 b c d))
  rfc1918_ten : (b c d : ℕ) → b < 256 → c < 256 → d < 256 → Internal (v4 (dotted 10 b c d))
  rfc1918_172 : (b c d : ℕ) → 16 ≤ b → b < 32 → c < 256 → d < 256 → Internal (v4 (dotted 172 b c d))
  rfc1918_192 : (c d : ℕ) → c < 256 → d < 256 → Internal (v4 (dotted 192 168 c d))
  link_local_v4 : (c d : ℕ) → c < 256 → d < 256 → Internal (v4 (dotted 169 254 c d))
  this_host_v4 : (b c d : ℕ) → b < 256 → c < 256 → d < 256 → Internal (v4 (dotted 0 b c d))
  multicast_v4 :
      (a b c d : ℕ)
      → 224 ≤ a
      → a < 240
      → b < 256
      → c < 256
      → d < 256
      → Internal (v4 (dotted a b c d))
  loopback_v6 : (scope_id : Option String) → Internal (v6 1 scope_id)
  unspecified_v6 : (scope_id : Option String) → Internal (v6 0 scope_id)
  link_local_v6 :
      (n : ℕ) (scope_id : Option String)
      → 0xfe80 * 2 ^ 112 ≤ n
      → n < 0xfec0 * 2 ^ 112
      → Internal (v6 n scope_id)
  unique_local_v6 :
      (n : ℕ) (scope_id : Option String)
      → 0xfc00 * 2 ^ 112 ≤ n
      → n < 0xfe00 * 2 ^ 112
      → Internal (v6 n scope_id)
  mapped :
      (n : ℕ) (scope_id : Option String)
      → n < 2 ^ 32
      → Internal (v4 n)
      → Internal (v6 (mapped_base + n) scope_id)

pub normalize-v6 :
    (n : ℕ) (scope_id : Option String)
    → (n < mapped_base) ⊎ (mapped_base + 2 ^ 32 ≤ n)
    → normalize (v6 n scope_id) ≡ v6 n scope_id
unfolding normalize
normalize-v6 n scope_id h = ground arith

classify-caught :
    (ip : Address)
    → (is_loopback ip || is_link_local ip || is_private ip || is_unspecified ip || is_multicast ip)
      ≡ true
    → classify ip ≢ none
unfolding classify
classify-caught ip h = ground arith

-- In strict mode what the classifier catches is blocked.
caught_blocked :
    (ip : Address) (policy : NetworkPolicy)
    → policy.allow_private ≡ false
    → classify (normalize ip) ≢ none
    → address_block_reason ip policy ≢ none
unfolding address_block_reason
caught_blocked ip policy strict h = ground (arith, strict, h)

caught_v4 :
    (n : ℕ) (policy : NetworkPolicy)
    → policy.allow_private ≡ false
    → (is_loopback (v4 n)
        || is_link_local (v4 n)
        || is_private (v4 n)
        || is_unspecified (v4 n)
        || is_multicast (v4 n))
      ≡ true
    → address_block_reason (v4 n) policy ≢ none
caught_v4 n policy strict h =
    caught_blocked (v4 n) policy strict (rw normalize-v4 (classify-caught (v4 n) h))

caught_v6 :
    (n : ℕ) (scope_id : Option String) (policy : NetworkPolicy)
    → policy.allow_private ≡ false
    → (n < mapped_base) ⊎ (mapped_base + 2 ^ 32 ≤ n)
    → (is_loopback (v6 n scope_id)
        || is_link_local (v6 n scope_id)
        || is_private (v6 n scope_id)
        || is_unspecified (v6 n scope_id)
        || is_multicast (v6 n scope_id))
      ≡ true
    → address_block_reason (v6 n scope_id) policy ≢ none
caught_v6 n scope_id policy strict out h =
    caught_blocked (v6 n scope_id) policy strict
      (rw (normalize-v6 n scope_id out) (classify-caught (v6 n scope_id) h))

-- Unless private targets are allowed, every address of the listed internal ranges, of either
-- family or IPv4-mapped, is refused.
pub Internal-blocked :
    (ip : Address) (policy : NetworkPolicy)
    → policy.allow_private ≡ false
    → Internal ip
    → address_block_reason ip policy ≢ none
unfolding is_loopback is_link_local is_private is_unspecified is_multicast
Internal-blocked _ policy strict (loopback_v4 b c d hb hc hd) =
    caught_v4 (dotted 127 b c d) policy strict (ground arith)
Internal-blocked _ policy strict (rfc1918_ten b c d hb hc hd) =
    caught_v4 (dotted 10 b c d) policy strict (ground arith)
Internal-blocked _ policy strict (rfc1918_172 b c d lo hi hc hd) =
    caught_v4 (dotted 172 b c d) policy strict (ground arith)
Internal-blocked _ policy strict (rfc1918_192 c d hc hd) =
    caught_v4 (dotted 192 168 c d) policy strict (ground arith)
Internal-blocked _ policy strict (link_local_v4 c d hc hd) =
    caught_v4 (dotted 169 254 c d) policy strict (ground arith)
Internal-blocked _ policy strict (this_host_v4 b c d hb hc hd) =
    caught_v4 (dotted 0 b c d) policy strict (ground arith)
Internal-blocked _ policy strict (multicast_v4 a b c d lo hi hb hc hd) =
    caught_v4 (dotted a b c d) policy strict (ground arith)
Internal-blocked _ policy strict (loopback_v6 scope_id) =
    caught_v6 1 scope_id policy strict (inl (omega arith)) (ground arith)
Internal-blocked _ policy strict (unspecified_v6 scope_id) =
    caught_v6 0 scope_id policy strict (inl (omega arith)) (ground arith)
Internal-blocked _ policy strict (link_local_v6 n scope_id lo hi) =
    caught_v6 n scope_id policy strict (inr (omega arith)) (ground arith)
Internal-blocked _ policy strict (unique_local_v6 n scope_id lo hi) =
    caught_v6 n scope_id policy strict (inr (omega arith)) (ground arith)
Internal-blocked _ policy strict (mapped n scope_id lt inner) =
    rw (mapped_as_v4 n scope_id policy lt) (Internal-blocked (v4 n) policy strict inner)

normalize-normalize : (ip : Address) → normalize (normalize ip) ≡ normalize ip
unfolding normalize
normalize-normalize (v4 n) = refl
normalize-normalize (v6 n scope_id) = ground arith

-- The normalized address, which is the one returned for the connection, gets the same judgement as
-- the one that was resolved.
pub normalize_judged_alike :
    (ip : Address) (policy : NetworkPolicy)
    → address_block_reason (normalize ip) policy ≡ address_block_reason ip policy
unfolding address_block_reason
normalize_judged_alike ip policy = ground (arith, normalize-normalize ip)
