-- ===== src/Ssrf/Policy/Metadata.antt =====
-- Which addresses pass where private targets are allowed.
use ocspcrltesting.Ssrf.Address.{Address, v4, v6, mapped_base}
use ocspcrltesting.Ssrf.Policy.{
  NetworkPolicy, normalize, in_metadata_addresses, is_metadata, address_block_reason,
}
use ocspcrltesting.Ssrf.Policy.Ranges.{dotted, normalize-mapped, normalize-v6, metadata_blocked}
use ocspcrltesting.Prelude.{
  ℕ, ◌+◌, ◌-◌, ◌*◌, ◌^◌, ◌≤◌, ◌<◌, String, ◌≡◌, refl, subst, ◌↔◌, ◌⊎◌, inl, inr, true, Option, none,
  some, arith, ltb, leb, Bool-cases,
}

-- The metadata endpoints of the cloud providers; the IPv4 ones are also in their IPv6 form.
pub data Metadata : Address → Type 0 where
  aws_v4 : Metadata (v4 (dotted 169 254 169 254))
  alibaba_v4 : Metadata (v4 (dotted 100 100 100 200))
  aws_v6 : Metadata (v6 (0xfd00 * 2 ^ 112 + 0xec2 * 2 ^ 96 + 0x254) none)
  mapped_aws :
      (scope_id : Option String) → Metadata (v6 (mapped_base + dotted 169 254 169 254) scope_id)
  mapped_alibaba :
      (scope_id : Option String) → Metadata (v6 (mapped_base + dotted 100 100 100 200) scope_id)

Metadata-recognized : (ip : Address) → Metadata ip → is_metadata ip ≡ true
unfolding is_metadata normalize
Metadata-recognized _ aws_v4 = ground arith
Metadata-recognized _ alibaba_v4 = ground arith
Metadata-recognized _ aws_v6 = ground arith
Metadata-recognized _ (mapped_aws scope_id) = ground arith
Metadata-recognized _ (mapped_alibaba scope_id) = ground arith

in_table_v4 :
    (n : ℕ)
    → in_metadata_addresses (v4 n) ≡ true
    → (n ≡ dotted 169 254 169 254) ⊎ (n ≡ dotted 100 100 100 200)
in_table_v4 n h = ground (arith, h)

in_table_v6 :
    (n : ℕ) (scope_id : Option String)
    → in_metadata_addresses (v6 n scope_id) ≡ true
    → (n ≡ 0xfd00 * 2 ^ 112 + 0xec2 * 2 ^ 96 + 0x254) × (scope_id ≡ none)
in_table_v6 n none h = (ground (arith, h), refl)
in_table_v6 n (some s) h = cc

mapped_recognized :
    (m : ℕ) (scope_id : Option String)
    → in_metadata_addresses (v4 m) ≡ true
    → Metadata (v6 (mapped_base + m) scope_id)
mapped_recognized m scope_id h = elim (in_table_v4 m h) [
  | inl e ↦ rw e (mapped_aws scope_id)
  | inr e ↦ rw e (mapped_alibaba scope_id)
]

plain_recognized :
    (n : ℕ) (scope_id : Option String)
    → in_metadata_addresses (v6 n scope_id) ≡ true
    → Metadata (v6 n scope_id)
plain_recognized n scope_id h =
    let (e, none_there) = in_table_v6 n scope_id h in rw (e, none_there) aws_v6

-- An IPv6 address is outside the mapped range or stands for an IPv4 address.
mapped_or_not :
    (n : ℕ)
    → ((n < mapped_base) ⊎ (mapped_base + 2 ^ 32 ≤ n))
      ⊎ ((m : ℕ) × (m < 2 ^ 32) × (n ≡ mapped_base + m))
mapped_or_not n = elim (Bool-cases (ltb n mapped_base)) [
  | inl lt ↦ inl (inl (ground (arith, lt)))
  | inr ge ↦ elim (Bool-cases (leb (mapped_base + 2 ^ 32) n)) [
    | inl high ↦ inl (inr (ground (arith, high)))
    | inr low ↦ inr (n - mapped_base, ground (arith, ge, low), ground (arith, ge))
  ]
]

recognized-Metadata : (ip : Address) → is_metadata ip ≡ true → Metadata ip
unfolding is_metadata normalize
recognized-Metadata (v4 n) h = elim (in_table_v4 n h) [
  | inl e ↦ rw e aws_v4
  | inr e ↦ rw e alibaba_v4
]
recognized-Metadata (v6 n scope_id) h = elim (mapped_or_not n) [
  | inl out ↦ plain_recognized n scope_id (rw (normalize-v6 n scope_id out) at h)
  | inr (m, lt, e) ↦ rw e (
      mapped_recognized m scope_id (
        subst (λ a. in_metadata_addresses a ≡ true) (normalize-mapped m scope_id lt)
          (subst (λ k. in_metadata_addresses (normalize (v6 k scope_id)) ≡ true) e h)))
]

-- Where private targets are allowed, an address passes exactly if it is none of the listed
-- metadata endpoints: two IPv4 addresses, as such or IPv4-mapped with or without a scope, and one
-- IPv6 address without a scope. Loopback addresses pass, and so does that IPv6 address with a
-- scope.
pub lab_mode_iff :
    (ip : Address) (policy : NetworkPolicy)
    → policy.allow_private ≡ true
    → (address_block_reason ip policy ≡ none) ↔ (¬ Metadata ip)
unfolding address_block_reason
lab_mode_iff ip policy lab = (
  λ h m. cc (metadata_blocked ip policy (Metadata-recognized ip m), h),
  λ h. elim (Bool-cases (is_metadata ip)) [
    | inl e ↦ absurd (h (recognized-Metadata ip e))
    | inr e ↦ ground (arith, lab, e)
  ],
)

scoped_unrecognized :
    (scope_id : String) → ¬ (is_metadata (v6 (0xfd000ec2 * 2 ^ 96 + 0x254) (some scope_id)) ≡ true)
unfolding is_metadata normalize
scoped_unrecognized scope_id h = cc

-- Where private targets are allowed, the IPv6 metadata address with a scope passes.
pub scoped_metadata_passes :
    (scope_id : String) (policy : NetworkPolicy)
    → policy.allow_private ≡ true
    → address_block_reason (v6 (0xfd000ec2 * 2 ^ 96 + 0x254) (some scope_id)) policy ≡ none
scoped_metadata_passes scope_id policy lab =
    (lab_mode_iff (v6 (0xfd000ec2 * 2 ^ 96 + 0x254) (some scope_id)) policy lab).1
      (λ m. absurd (scoped_unrecognized scope_id (Metadata-recognized _ m)))
