-- ===== src/Tests/Codecs.antt =====
-- Codecs that know one value, for the tests.
use native.Mathlib.Decide.{ℕ_discrete}
use nidavellir.Shared.{
  ◌≡◌, refl, sym, ap, subst, ◌∙◌, true, false, String, List, [], ◌∷◌, Option, none, some, arith,
  str_eq, eq_iff, Bool-cases, inl, inr, any,
}
use nidavellir.Shared.Int.{ℤ}
use nidavellir.Shared.Text.{Text}
use nidavellir.SafeLoop.Point.{TuningPoint, BlacklistRegion}
use nidavellir.SafeLoop.Phase.{SafeLoopState}
use nidavellir.SafeLoop.Bugcheck.{CrashClass}
use nidavellir.SafeLoop.Record.{ForgeIncidentKind, ForgeIncident, SafeLoopRecord}
use nidavellir.SafeLoop.Recovery.{BootFlag}
use nidavellir.SafeLoop.Store.{Codec, Io, strip_bom}
use nidavellir.SafeLoop.Startup.Effects.{IsLossless, Works}
use nidavellir.Condemnation.Event.{CondemnationSeverity, CondemnationEvent}
use nidavellir.Condemnation.Ledger.{strip_cr, trim_boms}
use nidavellir.Condemnation.Ledger.Append.{is_newline, IsLineCodec}

pub String-discrete : Discrete String
String-discrete a b = elim (Bool-cases (str_eq a b)) [
  | inl e ↦ yes ((eq_iff a b).0 e)
  | inr e ↦ no (λ p. ground (arith, eq_iff a b))
]

pub List-discrete : {A : Type 0} → Discrete A → Discrete (List A)
List-discrete d = hlevel d

pub Option-discrete : {A : Type 0} → Discrete A → Discrete (Option A)
Option-discrete d = hlevel d

pub ℤ-discrete : Discrete ℤ
ℤ-discrete = hlevel ℕ_discrete

axis-discrete : Discrete (String × ℤ)
axis-discrete = hlevel (String-discrete, ℤ-discrete)

TuningPoint-discrete : Discrete TuningPoint
TuningPoint-discrete = hlevel (List-discrete axis-discrete)

pub BootFlag-discrete : Discrete BootFlag
BootFlag-discrete = hlevel (String-discrete, TuningPoint-discrete)

BlacklistRegion-discrete : Discrete BlacklistRegion
BlacklistRegion-discrete = hlevel (ℤ-discrete, TuningPoint-discrete)

Kind-discrete : Discrete ForgeIncidentKind
Kind-discrete = hlevel

ForgeIncident-discrete : Discrete ForgeIncident
ForgeIncident-discrete =
    hlevel
      (String-discrete, Kind-discrete, Option-discrete String-discrete, Option-discrete ℕ_discrete)

State-discrete : Discrete SafeLoopState
State-discrete = hlevel

Class-discrete : Discrete CrashClass
Class-discrete = hlevel

pub SafeLoopRecord-discrete : Discrete SafeLoopRecord
SafeLoopRecord-discrete = hlevel (
  ℕ_discrete,
  State-discrete,
  Option-discrete TuningPoint-discrete,
  List-discrete BlacklistRegion-discrete,
  List-discrete Class-discrete,
  Option-discrete ForgeIncident-discrete,
  List-discrete ForgeIncident-discrete,
)

Severity-discrete : Discrete CondemnationSeverity
Severity-discrete = hlevel

pub CondemnationEvent-discrete : Discrete CondemnationEvent
CondemnationEvent-discrete = hlevel (
  String-discrete,
  ℕ_discrete,
  Severity-discrete,
  Option-discrete String-discrete,
  Option-discrete ℕ_discrete,
)

abbrev encoded : {A : Type 0} {a b : A} → Dec (a ≡ b) → Text → Option Text
encoded (yes p) t = some t
encoded (no n) t = none

abbrev decoded : {A : Type 0} {t u : Text} → Dec (t ≡ u) → A → Option A
decoded (yes p) a = some a
decoded (no n) a = none

pub Text-discrete : Discrete Text
Text-discrete = List-discrete ℕ_discrete

unfoldable pub one_codec : {A : Type 0} → Discrete A → A → Text → Codec A
one_codec d a t = record {
  encode = λ x. encoded (d x a) t;
  decode = λ u. decoded (Text-discrete u t) a;
}

encoded_by :
    {A : Type 0} (x a : A) (t u : Text) (d : Dec (x ≡ a)) → encoded d t ≡ some u → (x ≡ a) × (t ≡ u)
encoded_by x a t u (yes p) e = (p, cc)
encoded_by x a t u (no n) e = cc

decoded_same : {A : Type 0} (a : A) (t u : Text) (d : Dec (u ≡ t)) → u ≡ t → decoded d a ≡ some a
decoded_same a t u (yes p) e = refl
decoded_same a t u (no n) e = absurd (n e)

pub one_codec-decode :
    {A : Type 0} (d : Discrete A) (a : A) (t : Text) (x : A) (u : Text)
    → (one_codec d a t).encode x ≡ some u
    → (one_codec d a t).decode u ≡ some x
unfolding one_codec
one_codec-decode d a t x u e =
    let (same, text) = encoded_by x a t u (d x a) e in
    decoded_same a t u (Text-discrete u t) (sym text) ∙ ap some (sym same)

pub one_codec-encode :
    {A : Type 0} (d : Discrete A) (a : A) (t : Text) → (one_codec d a t).encode a ≡ some t
unfolding one_codec
one_codec-encode d a t = go (d a a)
  where
    go : (k : Dec (a ≡ a)) → encoded k t ≡ some t
    go (yes p) = refl
    go (no n) = absurd (n refl)

decoded_other : {A : Type 0} (a : A) (t u : Text) (d : Dec (u ≡ t)) → ¬ (u ≡ t) → decoded d a ≡ none
decoded_other a t u (yes p) h = absurd (h p)
decoded_other a t u (no n) h = refl

-- Any other text is no value.
pub one_codec-other :
    {A : Type 0} (d : Discrete A) (a : A) (t u : Text)
    → ¬ (u ≡ t)
    → (one_codec d a t).decode u ≡ none
unfolding one_codec
one_codec-other d a t u h = decoded_other a t u (Text-discrete u t) h

pub one_codec-text :
    {A : Type 0} (d : Discrete A) (a : A) (t : Text) (x : A) (u : Text)
    → (one_codec d a t).encode x ≡ some u
    → t ≡ u
unfolding one_codec
one_codec-text d a t x u e = (encoded_by x a t u (d x a) e).1

-- The text of a JSON object.
pub one_codec-IsLossless :
    {A : Type 0} (d : Discrete A) (a : A) → IsLossless (one_codec d a (b'{' ∷ b'}' ∷ []))
one_codec-IsLossless d a = record {
  decode-encode = one_codec-decode d a (b'{' ∷ b'}' ∷ []);
  no_bom = λ x u e.
      unfold strip_bom in
      subst (λ s. strip_bom s ≡ s) (one_codec-text d a (b'{' ∷ b'}' ∷ []) x u e) refl;
}

pub one_codec-IsLineCodec :
    (a : CondemnationEvent)
    → IsLineCodec (one_codec CondemnationEvent-discrete a (b'{' ∷ b'}' ∷ []))
one_codec-IsLineCodec a =
    let text = one_codec-text CondemnationEvent-discrete a (b'{' ∷ b'}' ∷ []) in
    record {
      one_line = λ x u e. subst (λ s. any is_newline s ≡ false) (text x u e) refl;
      no_cr = λ x u e. subst (λ s. strip_cr s ≡ s) (text x u e) refl;
      no_bom = λ x u e. unfold trim_boms in subst (λ s. trim_boms s ≡ s) (text x u e) refl;
      decode-encode = one_codec-decode CondemnationEvent-discrete a (b'{' ∷ b'}' ∷ []);
    }

abbrev or_decoded : {A : Type 0} {t u : Text} → Dec (u ≡ t) → A → Option A → Option A
or_decoded (yes p) a other = some a
or_decoded (no n) a other = other

-- A codec that also decodes an older text.
unfoldable pub also_codec : {A : Type 0} → Codec A → Text → A → Codec A
also_codec c t a = record {
  encode = c.encode;
  decode = λ u. or_decoded (Text-discrete u t) a (c.decode u);
}

or_decoded_other :
    {A : Type 0} (t u : Text) (d : Dec (u ≡ t)) (a : A) (other : Option A)
    → ¬ (u ≡ t)
    → or_decoded d a other ≡ other
or_decoded_other t u (yes p) a other h = absurd (h p)
or_decoded_other t u (no n) a other h = refl

or_decoded_same :
    {A : Type 0} (t : Text) (d : Dec (t ≡ t)) (a : A) (other : Option A)
    → or_decoded d a other ≡ some a
or_decoded_same t (yes p) a other = refl
or_decoded_same t (no n) a other = absurd (n refl)

pub also_codec-decode :
    {A : Type 0} (c : Codec A) (t : Text) (a : A) → (also_codec c t a).decode t ≡ some a
unfolding also_codec
also_codec-decode c t a = or_decoded_same t (Text-discrete t t) a (c.decode t)

pub also_codec-encode :
    {A : Type 0} (c : Codec A) (t : Text) (a x : A) → (also_codec c t a).encode x ≡ c.encode x
unfolding also_codec
also_codec-encode c t a x = refl

pub also_codec-IsLossless :
    {A : Type 0} (c : Codec A) (t : Text) (a : A)
    → IsLossless c
    → ((x : A) → ¬ (c.encode x ≡ some t))
    → IsLossless (also_codec c t a)
unfolding also_codec
also_codec-IsLossless c t a lossless other = record {
  decode-encode = λ x u e.
      or_decoded_other t u (Text-discrete u t) a (c.decode u) (λ p. other x (e ∙ ap some p))
      ∙ lossless.decode-encode x u e;
  no_bom = lossless.no_bom;
}

-- A file system on which nothing fails.
abbrev pub working : Io
working = record {
  creates_dir = true;
  reads = λ f. true;
  stats = λ f. true;
  writes = λ f. true;
  removes = λ f n. true;
  torn = λ f. none;
}

pub working-Works : Works working
working-Works = record {
  dir_ok = refl;
  reads_ok = λ f. refl;
  stats_ok = λ f. refl;
  writes_ok = λ f. refl;
  removes_ok = λ f n. refl;
}
