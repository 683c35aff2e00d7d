-- ===== src/Worker/Analysis.antt =====
-- backend/app/worker/analysis.py: warnings and references that are added to a result. `parse_ts` is
-- `strptime` with the formats in turn, in seconds; `now` is the clock. The entries "warnings" and
-- "rfc_refs" of the details are fields of their own.
pub mod Warnings
use ocspcrltesting.Schemas.{RunConfig, starts_with_lower}
use ocspcrltesting.Worker.Json.{
  Json, null, boolean, number, text, array, object, Items, Fields, get, find_keys,
}
use Prim.Native.String as Text
use ocspcrltesting.Prelude.{
  ℕ, ◌+◌, ◌-◌, ◌*◌, String, Bool, true, false, not, ◌&&◌, ◌||◌, Option, none, some, List, [], ◌∷◌,
  ◌++◌, str_eq, ltb, if◌then◌else◌, any, first,
}

pub data Warning : Type 0 where
  engine_warning : String → Warning
  next_update_past this_update_future this_update_old nonce_not_echoed nonce_short : Warning
  deprecated_algorithm : String → Warning

-- A serialized result.
pub record TestResult : Type 0 where
  pub id : String
  pub category : String
  pub name : String
  pub status : String
  pub message : String
  pub details : Fields
  pub warnings : List Warning
  pub rfc_refs : List String

-- DEPRECATED_SIG_OIDS
abbrev pub deprecated_sig_oids : List String
deprecated_sig_oids =
    "1.2.840.113549.1.1.5" ∷ "1.2.840.113549.1.1.4" ∷ "1.2.840.10040.4.3" ∷ "1.2.840.10045.4.1" ∷ []

-- CATEGORY_RFC_REFS.get(category, [])
unfoldable pub category_rfc_refs : String → List String
category_rfc_refs category =
    if str_eq category "Protocol"
    then "RFC 6960 (OCSP)" ∷ "RFC 5019 (lightweight OCSP profile)" ∷ []
    else if str_eq category "Status"
    then "RFC 6960 §2.2 (response statuses)" ∷ []
    else if str_eq category "Security"
    then "RFC 6960 §5 (security considerations)" ∷ []
    else if str_eq category "CRL"
    then "RFC 5280 §5 (CRL profile)" ∷ []
    else if str_eq category "IKEv2"
    then "RFC 4806 (OCSP extensions to IKEv2)" ∷ []
    else if str_eq category "Federal PKI"
    then "Federal PKI X.509 certificate policy" ∷ "RFC 6960" ∷ []
    else if str_eq category "Path Validation"
    then "RFC 5280 §6 (path validation)" ∷ []
    else if str_eq category "Performance"
    then "RFC 5019 §6 (caching recommendations)" ∷ []
    else []

-- "nonce" in name.lower()
unfoldable pub mentions_nonce : String → Bool
mentions_nonce Text.[] = false
mentions_nonce (Text.◌∷◌ c s) = starts_with_lower (Text.◌∷◌ c s) "nonce" || mentions_nonce s

-- A value, or the "value" of an object.
abbrev raw_of : Json → Json
raw_of (object members) = elim (get "value" members) [ none ↦ null | some value ↦ value ]
raw_of (array items) = array items
raw_of null = null
raw_of (boolean b) = boolean b
raw_of (number n) = number n
raw_of (text s) = text s

module _ (parse_ts : String → Option ℕ) (now : ℕ) where
  abbrev timestamp : Json → Option ℕ
  timestamp (text s) = parse_ts s
  timestamp (object members) = none
  timestamp (array items) = none
  timestamp null = none
  timestamp (boolean b) = none
  timestamp (number n) = none

  abbrev is_past : Option ℕ → Bool
  is_past none = false
  is_past (some ts) = ltb ts now

  abbrev next_update_warnings : List Json → List Warning
  next_update_warnings values =
      if any (λ v. is_past (timestamp (raw_of v))) values then next_update_past ∷ [] else []

  abbrev age_warnings : ℕ → ℕ → List Warning
  age_warnings max_age ts =
      if ltb (now + 300) ts
      then this_update_future ∷ []
      else if ltb max_age (now - ts)
      then this_update_old ∷ []
      else []

  -- The first value that is a time decides.
  abbrev this_update_warnings : ℕ → List Json → List Warning
  this_update_warnings max_age [] = []
  this_update_warnings max_age (v ∷ vs) =
      let later = this_update_warnings max_age vs in
      elim (timestamp (raw_of v)) [ none ↦ later | some ts ↦ age_warnings max_age ts ]

  abbrev is_false : Option Json → Bool
  is_false (some (boolean false)) = true
  is_false _ = false

  abbrev nonce_warnings : RunConfig → String → List Json → List Warning
  nonce_warnings config name echoed =
      (if config.nonce_enabled && is_false (first echoed) then nonce_not_echoed ∷ [] else [])
      ++ (if config.nonce_enabled && ltb config.nonce_length 32 && mentions_nonce name
          then nonce_short ∷ []
          else [])

  abbrev algorithm_warnings : Option Json → List Warning
  algorithm_warnings (some (text oid)) =
      if any (str_eq oid) deprecated_sig_oids then deprecated_algorithm oid ∷ [] else []
  algorithm_warnings _ = []

  unfoldable pub found_warnings : RunConfig → TestResult → List Warning
  unfolding mentions_nonce
  found_warnings config r =
      next_update_warnings (find_keys ("next_update" ∷ "nextUpdate" ∷ []) (object r.details))
      ++ this_update_warnings (config.max_age_hours * 3600)
          (find_keys ("this_update" ∷ "thisUpdate" ∷ []) (object r.details))
      ++ nonce_warnings config r.name (find_keys ("nonce_echoed" ∷ []) (object r.details))
      ++ algorithm_warnings (first (find_keys ("signature_algorithm_oid" ∷ []) (object r.details)))

  abbrev add_missing : List String → List String → List String
  add_missing refs [] = refs
  add_missing refs (ref ∷ rest) =
      add_missing (if any (str_eq ref) refs then refs else refs ++ ref ∷ []) rest

  abbrev degraded : List Warning → String → String
  degraded [] status = status
  degraded (w ∷ ws) status = if str_eq status "PASS" then "WARN" else status

  unfoldable pub enrich_result : RunConfig → TestResult → TestResult
  unfolding found_warnings
  enrich_result config r =
      let warnings = r.warnings ++ found_warnings config r in
      record r {
        warnings = warnings;
        status = degraded warnings r.status;
        rfc_refs = add_missing r.rfc_refs (category_rfc_refs r.category);
      }
