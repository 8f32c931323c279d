-- ===== src/F2/Evidence.antt =====
-- What counts as evidence: `F2EvidenceProvenance::is_reproducible` and the `is_current_*` tests of
-- `crates/core/src/f2_observation.rs`.
use nidavellir.Shared.{
  ℕ, zero, suc, ◌==◌, leb, Bool, true, false, not, ◌&&◌, ◌||◌, List, [], ◌∷◌, Option, none, some,
  if◌then◌else◌, is_some,
}
use nidavellir.Shared.Text.{Text}
use nidavellir.F2.Kinds.{
  discovery, qualification, apply_qualification, eq_kind, pass, eq_verdict, fsgl4, eq_strength,
  F2QualificationPattern, texture, eq_pattern, is_validated,
}
use nidavellir.F2.Observation.{F2EvidenceProvenance, F2QualificationCoverage, F2Observation}

abbrev pub f2_discovery_contract_version : ℕ
f2_discovery_contract_version = 6

abbrev pub f2_qualification_contract_version : ℕ
f2_qualification_contract_version = 25

-- `char::is_whitespace`
abbrev pub is_whitespace : ℕ → Bool
is_whitespace c =
    (leb 9 c && leb c 13)
    || c == 32
    || c == 0x85
    || c == 0xa0
    || c == 0x1680
    || (leb 0x2000 c && leb c 0x200a)
    || c == 0x2028
    || c == 0x2029
    || c == 0x202f
    || c == 0x205f
    || c == 0x3000

abbrev trim_start : Text → Text
trim_start [] = []
trim_start (c ∷ s) = if is_whitespace c then trim_start s else c ∷ s

abbrev trim_last : ℕ → Text → Text
trim_last c [] = if is_whitespace c then [] else c ∷ []
trim_last c (d ∷ s) = c ∷ d ∷ s

abbrev trim_end : Text → Text
trim_end [] = []
trim_end (c ∷ s) = trim_last c (trim_end s)

-- `str::trim`
unfoldable pub trim : Text → Text
trim s = trim_end (trim_start s)

abbrev pub is_empty {ℓ} : {A : Type ℓ} → List A → Bool
is_empty [] = true
is_empty (x ∷ xs) = false

-- `option.is_some_and(p)`
abbrev pub is_some_and {ℓ} : {A : Type ℓ} → Option A → (A → Bool) → Bool
is_some_and none p = false
is_some_and (some x) p = p x

abbrev pub present : Option Text → Bool
present value = is_some_and value (λ text. not (is_empty (trim text)))

unfoldable pub is_reproducible : F2EvidenceProvenance → Bool
unfolding trim
is_reproducible p =
    present p.build_version
    && present p.build_revision
    && present p.workload_fingerprint
    && present p.render_backend
    && present p.adapter_name
    && (present p.driver_name || present p.driver_info)
    && present p.checksum_method
    && present p.golden_config

abbrev pub required_qualification_patterns : List F2QualificationPattern
required_qualification_patterns = texture ∷ []

abbrev next_place : Option ℕ → Option ℕ
next_place none = none
next_place (some i) = some (suc i)

-- `iter().position(p)`
abbrev position {ℓ} : {A : Type ℓ} → (A → Bool) → List A → Option ℕ
position p [] = none
position p (x ∷ xs) = if p x then some zero else next_place (position p xs)

unfoldable pub required_pattern_index : F2QualificationPattern → Option ℕ
required_pattern_index p =
    position (λ required. eq_pattern required p) required_qualification_patterns

unfoldable pub is_required_qualification_pattern : F2QualificationPattern → Bool
unfolding required_pattern_index
is_required_qualification_pattern p = is_some (required_pattern_index p)

abbrev pub has_proven_cleanup : F2Observation → Bool
has_proven_cleanup o = o.reset_to_stock_ok && o.boot_flag_cleared

abbrev pub has_reproducible_provenance : F2Observation → Bool
has_reproducible_provenance o = is_some_and o.evidence_provenance is_reproducible

unfoldable pub is_current_discovery_evidence : F2Observation → Bool
is_current_discovery_evidence o =
    eq_kind o.evidence_kind discovery
    && is_some_and o.discovery_contract_version (λ v. v == f2_discovery_contract_version)
    && o.power_p99_confirmed
    && has_proven_cleanup o
    && has_reproducible_provenance o

abbrev pub covers_required : F2QualificationCoverage → Bool
covers_required c =
    eq_strength c.strength fsgl4
    && is_some_and c.workload_pattern is_required_qualification_pattern
    && eq_verdict c.verdict pass

abbrev pub covers_some : F2QualificationCoverage → Bool
covers_some c =
    eq_strength c.strength fsgl4 && is_some c.workload_pattern && eq_verdict c.verdict pass

unfoldable pub is_current_qualification_pass : F2Observation → Bool
is_current_qualification_pass o =
    eq_kind o.evidence_kind qualification
    && is_some_and o.qualification_contract_version (λ v. v == f2_qualification_contract_version)
    && is_validated o.outcome
    && has_proven_cleanup o
    && has_reproducible_provenance o
    && is_some_and o.qualification_coverage covers_required

unfoldable pub is_current_apply_qualification_evidence : F2Observation → Bool
is_current_apply_qualification_evidence o =
    eq_kind o.evidence_kind apply_qualification
    && is_some_and o.qualification_contract_version (λ v. v == f2_qualification_contract_version)
    && is_validated o.outcome
    && has_proven_cleanup o
    && has_reproducible_provenance o
    && is_some_and o.qualification_coverage covers_some

abbrev pattern_in : Option F2QualificationCoverage → Option F2QualificationPattern
pattern_in none = none
pattern_in (some c) = c.workload_pattern

-- `o.qualification_coverage.as_ref().and_then(|coverage| coverage.pattern)`
abbrev pub pattern_of : F2Observation → Option F2QualificationPattern
pattern_of o = pattern_in o.qualification_coverage

unfoldable pub is_current_apply_qualification_pass : F2Observation → Bool
unfolding is_current_apply_qualification_evidence
is_current_apply_qualification_pass o =
    is_current_apply_qualification_evidence o
    && is_some_and (pattern_of o) is_required_qualification_pattern
