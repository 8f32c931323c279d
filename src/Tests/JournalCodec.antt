-- ===== src/Tests/JournalCodec.antt =====
-- A codec that knows one observation, and the journal file on it.
use native.Mathlib.Decide.{ℕ_discrete}
use nidavellir.Shared.{ℕ, String, [], ◌∷◌, Option}
use nidavellir.Shared.Text.{Text}
use nidavellir.SafeLoop.Store.{Codec}
use nidavellir.F2.Kinds.{
  F2EvidenceKind, F2QualificationVerdict, F2QualificationStrength, F2QualificationPattern,
  F2ObsMode, F2ObsVerifier, F2ObsDwell, F2ObsOutcome,
}
use nidavellir.F2.Observation.{
  F2EvidenceProvenance, F2QualificationPhaseMetric, F2QualificationCoverage, F2Observation,
}
use nidavellir.Tests.Codecs.{String-discrete, List-discrete, Option-discrete, ℤ-discrete, one_codec}
use nidavellir.Tests.Journal.{dropped_at}

texts : Discrete (Option Text)
texts = Option-discrete (List-discrete ℕ_discrete)

strings : Discrete (Option String)
strings = Option-discrete String-discrete

numbers : Discrete (Option ℕ)
numbers = Option-discrete ℕ_discrete

Kind-discrete : Discrete F2EvidenceKind
Kind-discrete = hlevel

Verdict-discrete : Discrete F2QualificationVerdict
Verdict-discrete = hlevel

Strength-discrete : Discrete F2QualificationStrength
Strength-discrete = hlevel

Pattern-discrete : Discrete F2QualificationPattern
Pattern-discrete = hlevel

Mode-discrete : Discrete F2ObsMode
Mode-discrete = hlevel

Verifier-discrete : Discrete F2ObsVerifier
Verifier-discrete = hlevel

Dwell-discrete : Discrete F2ObsDwell
Dwell-discrete = hlevel

Outcome-discrete : Discrete F2ObsOutcome
Outcome-discrete = hlevel

Provenance-discrete : Discrete F2EvidenceProvenance
Provenance-discrete = hlevel texts

Metric-discrete : Discrete F2QualificationPhaseMetric
Metric-discrete = hlevel (String-discrete, numbers, ℕ_discrete)

Coverage-discrete : Discrete F2QualificationCoverage
Coverage-discrete = hlevel (
  Strength-discrete,
  Option-discrete Pattern-discrete,
  Verdict-discrete,
  List-discrete Metric-discrete,
  strings,
  numbers,
  ℕ_discrete,
)

F2Observation-discrete : Discrete F2Observation
F2Observation-discrete = hlevel (
  String-discrete,
  strings,
  numbers,
  ℕ_discrete,
  ℤ-discrete,
  Kind-discrete,
  Option-discrete Coverage-discrete,
  Option-discrete Provenance-discrete,
  Mode-discrete,
  Verifier-discrete,
  Dwell-discrete,
  Outcome-discrete,
)

abbrev braces : Text
braces = b'{' ∷ b'}' ∷ []

abbrev lost : F2Observation
lost = dropped_at 850

abbrev json : Codec F2Observation
json = one_codec F2Observation-discrete lost braces
