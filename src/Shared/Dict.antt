-- ===== src/Shared/Dict.antt =====
-- `BTreeMap<String, V>`: its entries, no key twice.
use Prim.Native.String.{String}
use mathlib.Core.List.{List, [], ◌∷◌, map}
use mathlib.Core.Option.{Option, none, some}
use text.Mathlib.Text.{◌==◌}
use mathlib.Core.Path.{◌≡◌, sym, ◌∙◌, subst}
use mathlib.Core.Logic.{inl, inr}
use text.Mathlib.TextEquality.{eq_iff}
use text.Mathlib.TextPositions.{eq_refl}
use nidavellir.Shared.Tests.{if◌then◌else◌, Bool-cases, none-some, some-some}
use nidavellir.Shared.Lists.{All, In}

abbrev pub Dict {ℓ} : Type ℓ → Type ℓ
Dict Value = List (String × Value)

module _ {ℓ} {Value : Type ℓ} where
  -- `get`
  unfoldable pub lookup : String → Dict Value → Option Value
  lookup wanted [] = none
  lookup wanted (entry ∷ others) =
      let later = lookup wanted others in if entry.0 == wanted then some entry.1 else later

  unfoldable pub insert : String → Value → Dict Value → Dict Value
  insert name setting [] = (name, setting) ∷ []
  insert name setting (entry ∷ others) =
      let later = entry ∷ insert name setting others in
      if entry.0 == name then (name, setting) ∷ others else later

  abbrev pub keys : Dict Value → List String
  keys entries = map (λ entry. entry.0) entries

module _ {Value : Type 0} where
  -- What holds of every entry, kept by `insert` and had by what `lookup` finds.
  pub insert-All :
      (Q : String → Value → Type 0) (name : String) (setting : Value) (d : Dict Value)
      → Q name setting
      → All (λ e. Q e.0 e.1) d
      → All (λ e. Q e.0 e.1) (insert name setting d)
  unfolding insert
  insert-All Q name setting [] q h = (q, tt)
  insert-All Q name setting (e ∷ d) q h = elim (Bool-cases (e.0 == name)) [
    | inl same ↦ rw same (q, h.1)
    | inr other ↦ rw other (h.0, insert-All Q name setting d q h.1)
  ]

  pub lookup-All :
      (Q : String → Value → Type 0) (name : String) (setting : Value) (d : Dict Value)
      → All (λ e. Q e.0 e.1) d
      → lookup name d ≡ some setting
      → Q name setting
  unfolding lookup
  lookup-All Q name setting [] h found = absurd (none-some setting found)
  lookup-All Q name setting (e ∷ d) h found = elim (Bool-cases (e.0 == name)) [
    | inl same ↦
        let at : some e.1 ≡ some setting =
          subst (λ b. (if b then some e.1 else lookup name d) ≡ some setting) same found in
        subst (λ n. Q n setting) ((eq_iff e.0 name).0 same)
          (subst (Q e.0) (some-some e.1 setting at) h.0)
    | inr other ↦
        lookup-All Q name setting d h.1
          (subst (λ b. (if b then some e.1 else lookup name d) ≡ some setting) other found)
  ]

  pub lookup-insert :
      (name : String) (setting : Value) (d : Dict Value)
      → lookup name (insert name setting d) ≡ some setting
  unfolding lookup insert
  lookup-insert name setting [] = rw (eq_refl name)
  lookup-insert name setting (e ∷ d) = elim (Bool-cases (e.0 == name)) [
    | inl same ↦ rw (same, eq_refl name)
    | inr other ↦ rw (other, other) (lookup-insert name setting d)
  ]

  pub lookup-insert_other :
      (name other : String) (setting : Value) (d : Dict Value)
      → ¬ (name ≡ other)
      → lookup other (insert name setting d) ≡ lookup other d
  unfolding lookup insert
  lookup-insert_other name other setting [] h = elim (Bool-cases (name == other)) [
    | inl e ↦ absurd (h ((eq_iff name other).0 e))
    | inr e ↦ rw e
  ]
  lookup-insert_other name other setting (e ∷ d) h = elim (Bool-cases (e.0 == name)) [
    | inr k ↦ rw (k, lookup-insert_other name other setting d h)
    | inl k ↦ elim (Bool-cases (e.0 == other)) [
      | inl l ↦ absurd (h (sym ((eq_iff e.0 name).0 k) ∙ (eq_iff e.0 other).0 l))
      | inr l ↦ elim (Bool-cases (name == other)) [
        | inl m ↦ absurd (h ((eq_iff name other).0 m))
        | inr m ↦ rw (k, l, m)
      ]
    ]
  ]

  pub lookup-In :
      (name : String) (setting : Value) (d : Dict Value)
      → lookup name d ≡ some setting
      → In setting (map (λ e. e.1) d)
  unfolding lookup
  lookup-In name setting [] h = absurd (none-some setting h)
  lookup-In name setting (e ∷ d) h = elim (Bool-cases (e.0 == name)) [
    | inl k ↦ inl (
        some-some setting e.1
          (sym (subst (λ b. (if b then some e.1 else lookup name d) ≡ some setting) k h)))
    | inr k ↦ inr (
        lookup-In name setting d
          (subst (λ b. (if b then some e.1 else lookup name d) ≡ some setting) k h))
  ]
