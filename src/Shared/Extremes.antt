-- ===== src/Shared/Extremes.antt =====
-- `iter().min_by_key` and `iter().max_by_key` by a number. The first of equal minima is kept, and the
-- last of equal maxima.
use Prim.Native.Nat.{ℕ, ◌≤◌}
use mathlib.Core.Path.{◌≡◌, refl, ap, sym, subst}
use mathlib.Core.Logic.{◌⊎◌, inl, inr}
use mathlib.Core.Bool.{Bool, true, false}
use mathlib.Core.List.{List, [], ◌∷◌}
use mathlib.Core.Option.{Option, none, some}
use native.Mathlib.Omega.{arith}
use nidavellir.Shared.Tests.{leb, if◌then◌else◌, Bool-cases, none-some, some-some}
use nidavellir.Shared.Lists.{In, All, filter}

module _ {A : Type 0} where
  unfoldable pub least_from : (A → ℕ) → A → List A → A
  least_from key best [] = best
  least_from key best (x ∷ xs) = least_from key (if leb (key best) (key x) then best else x) xs

  unfoldable pub min_by_key : (A → ℕ) → List A → Option A
  unfolding least_from
  min_by_key key [] = none
  min_by_key key (x ∷ xs) = some (least_from key x xs)

  unfoldable pub greatest_from : (A → ℕ) → A → List A → A
  greatest_from key best [] = best
  greatest_from key best (x ∷ xs) =
      greatest_from key (if leb (key best) (key x) then x else best) xs

  unfoldable pub max_by_key : (A → ℕ) → List A → Option A
  unfolding greatest_from
  max_by_key key [] = none
  max_by_key key (x ∷ xs) = some (greatest_from key x xs)

  -- One of the elements, and none has a smaller key.
  abbrev pub IsLeast : (A → ℕ) → List A → A → Type 0
  IsLeast key xs m = In m xs × All (λ x. key m ≤ key x) xs

  abbrev pub IsGreatest : (A → ℕ) → List A → A → Type 0
  IsGreatest key xs m = In m xs × All (λ x. key x ≤ key m) xs

  In-skip : (a x : A) (xs : List A) (m : A) → In m (a ∷ xs) → In m (a ∷ x ∷ xs)
  In-skip a x xs m (inl e) = inl e
  In-skip a x xs m (inr h) = inr (inr h)

  least_from_step :
      (key : A → ℕ) (best next x : A) (xs : List A)
      → (if leb (key best) (key x) then best else x) ≡ next
      → least_from key next xs ≡ least_from key best (x ∷ xs)
  unfolding least_from
  least_from_step key best next x xs e = ap (λ b. least_from key b xs) (sym e)

  greatest_from_step :
      (key : A → ℕ) (best next x : A) (xs : List A)
      → (if leb (key best) (key x) then x else best) ≡ next
      → greatest_from key next xs ≡ greatest_from key best (x ∷ xs)
  unfolding greatest_from
  greatest_from_step key best next x xs e = ap (λ b. greatest_from key b xs) (sym e)

  least_from-IsLeast :
      (key : A → ℕ) (best : A) (xs : List A) → IsLeast key (best ∷ xs) (least_from key best xs)
  least_from-IsLeast key best [] = unfold least_from in (inl refl, (omega arith, tt))
  least_from-IsLeast key best (x ∷ xs) = elim (Bool-cases (leb (key best) (key x))) [
    | inl keep ↦
        let (found, least) = least_from-IsLeast key best xs in
        let m = least_from key best xs in
        subst (IsLeast key (best ∷ x ∷ xs)) (least_from_step key best best x xs (rw keep))
          (In-skip best x xs m found, (least.0, (ground (arith, least.0), least.1)))
    | inr next ↦
        let (found, least) = least_from-IsLeast key x xs in
        subst (IsLeast key (best ∷ x ∷ xs)) (least_from_step key best x x xs (rw next))
          (inr found, (ground (arith, least.0), (least.0, least.1)))
  ]

  greatest_from-IsGreatest :
      (key : A → ℕ) (best : A) (xs : List A)
      → IsGreatest key (best ∷ xs) (greatest_from key best xs)
  greatest_from-IsGreatest key best [] = unfold greatest_from in (inl refl, (omega arith, tt))
  greatest_from-IsGreatest key best (x ∷ xs) = elim (Bool-cases (leb (key best) (key x))) [
    | inl next ↦
        let (found, greatest) = greatest_from-IsGreatest key x xs in
        subst (IsGreatest key (best ∷ x ∷ xs)) (greatest_from_step key best x x xs (rw next))
          (inr found, (ground (arith, greatest.0), (greatest.0, greatest.1)))
    | inr keep ↦
        let (found, greatest) = greatest_from-IsGreatest key best xs in
        let m = greatest_from key best xs in
        subst (IsGreatest key (best ∷ x ∷ xs)) (greatest_from_step key best best x xs (rw keep))
          (In-skip best x xs m found, (greatest.0, (ground (arith, greatest.0), greatest.1)))
  ]

  pub min_by_key-IsLeast :
      (key : A → ℕ) (xs : List A)
      → ((min_by_key key xs ≡ none) × (xs ≡ []))
        ⊎ ((m : A) × (min_by_key key xs ≡ some m) × IsLeast key xs m)
  unfolding min_by_key
  min_by_key-IsLeast key [] = inl (refl, refl)
  min_by_key-IsLeast key (x ∷ xs) = inr (least_from key x xs, refl, least_from-IsLeast key x xs)

  pub max_by_key-IsGreatest :
      (key : A → ℕ) (xs : List A)
      → ((max_by_key key xs ≡ none) × (xs ≡ []))
        ⊎ ((m : A) × (max_by_key key xs ≡ some m) × IsGreatest key xs m)
  unfolding max_by_key
  max_by_key-IsGreatest key [] = inl (refl, refl)
  max_by_key-IsGreatest key (x ∷ xs) =
      inr (greatest_from key x xs, refl, greatest_from-IsGreatest key x xs)

  pub max_by_key-In : (key : A → ℕ) (m : A) (xs : List A) → max_by_key key xs ≡ some m → In m xs
  unfolding max_by_key
  max_by_key-In key m [] h = absurd (none-some m h)
  max_by_key-In key m (x ∷ xs) h =
      let greatest = greatest_from-IsGreatest key x xs in
      subst (λ a. In a (x ∷ xs)) (some-some (greatest_from key x xs) m h) greatest.0

  -- What a filter keeps: an element of the list that passes.
  pub In-filter : (f : A → Bool) (a : A) (xs : List A) → In a (filter f xs) → In a xs × (f a ≡ true)
  In-filter f a [] h = absurd h
  In-filter f a (x ∷ xs) h = elim (Bool-cases (f x)) [
    | inl kept ↦
        keep kept (In-filter f a xs)
          (subst (λ b. In a (if b then x ∷ filter f xs else filter f xs)) kept h)
    | inr left ↦
        let (found, passes) =
          In-filter f a xs
            (subst (λ b. In a (if b then x ∷ filter f xs else filter f xs)) left h) in
        (inr found, passes)
  ]
    where
      keep :
          f x ≡ true
          → (In a (filter f xs) → In a xs × (f a ≡ true))
          → In a (x ∷ filter f xs)
          → In a (x ∷ xs) × (f a ≡ true)
      keep kept rest (inl e) = (inl e, subst (λ y. f y ≡ true) (sym e) kept)
      keep kept rest (inr k) = (inr (rest k).0, (rest k).1)

  -- What holds of all that is kept, of every element: it does not pass, or the predicate holds.
  pub All-filter :
      (Q : A → Type 0) (f : A → Bool) (xs : List A)
      → All Q (filter f xs)
      → All (λ x. (f x ≡ false) ⊎ Q x) xs
  All-filter Q f [] h = tt
  All-filter Q f (x ∷ xs) h = elim (Bool-cases (f x)) [
    | inl kept ↦
        let k : Q x × All Q (filter f xs) =
          subst (λ b. All Q (if b then x ∷ filter f xs else filter f xs)) kept h in
        (inr k.0, All-filter Q f xs k.1)
    | inr left ↦
        let k : All Q (filter f xs) =
          subst (λ b. All Q (if b then x ∷ filter f xs else filter f xs)) left h in
        (inl left, All-filter Q f xs k)
  ]

  pub filter_none : (f : A → Bool) (xs : List A) → filter f xs ≡ [] → All (λ x. f x ≡ false) xs
  filter_none f [] h = tt
  filter_none f (x ∷ xs) h = (ground arith, filter_none f xs (ground arith))

  -- The least of what passes: none exactly if nothing passes.
  pub min_filter-IsLeast :
      (key : A → ℕ) (f : A → Bool) (xs : List A)
      → ((min_by_key key (filter f xs) ≡ none) × All (λ x. f x ≡ false) xs)
        ⊎ ((m : A) × (min_by_key key (filter f xs) ≡ some m)
            × In m xs
            × (f m ≡ true)
            × All (λ x. (f x ≡ false) ⊎ (key m ≤ key x)) xs)
  min_filter-IsLeast key f xs = elim (min_by_key-IsLeast key (filter f xs)) [
    | inl (e, empty) ↦ inl (e, filter_none f xs empty)
    | inr (m, e, best) ↦
        let (place, passes) = In-filter f m xs best.0 in
        inr (m, e, place, passes, All-filter (λ x. key m ≤ key x) f xs best.1)
  ]

  pub max_filter-IsGreatest :
      (key : A → ℕ) (f : A → Bool) (xs : List A)
      → ((max_by_key key (filter f xs) ≡ none) × All (λ x. f x ≡ false) xs)
        ⊎ ((m : A) × (max_by_key key (filter f xs) ≡ some m)
            × In m xs
            × (f m ≡ true)
            × All (λ x. (f x ≡ false) ⊎ (key x ≤ key m)) xs)
  max_filter-IsGreatest key f xs = elim (max_by_key-IsGreatest key (filter f xs)) [
    | inl (e, empty) ↦ inl (e, filter_none f xs empty)
    | inr (m, e, best) ↦
        let (place, passes) = In-filter f m xs best.0 in
        inr (m, e, place, passes, All-filter (λ x. key x ≤ key m) f xs best.1)
  ]
