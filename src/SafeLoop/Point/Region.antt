-- ===== src/SafeLoop/Point/Region.antt =====
-- A blacklist region is the box of all points that differ from its centre by at most the radius on
-- every axis (`BlacklistRegion::contains` of `crates/core/src/safe_loop.rs`).
use nidavellir.Shared.{
  ℕ, ◌≤◌, ◌≡◌, refl, ◌↔◌, inl, inr, String, Bool, true, false, ◌||◌, subst, ◌∷◌, [], ◌++◌, List,
  none, arith, eq_iff, All, Bool-cases, str_eq,
}
use nidavellir.Shared.Int.{pos, ◌-ℤ◌, leb_ℤ, wrap_i64, abs_i64, dist, IsSmall, abs_sub-eq-dist}
use nidavellir.Shared.Dict.{Dict, lookup, keys}
use nidavellir.SafeLoop.Point.{TuningPoint, axis, chebyshev_loop, chebyshev, around, contains}

-- Every setting is far enough from the ends of i64 that no difference wraps.
abbrev pub IsSmallPoint : TuningPoint → Type 0
IsSmallPoint p = (k : String) → IsSmall (axis p k)

-- The two points differ by at most `n` on the axis `k`.
abbrev pub IsNear : TuningPoint → TuningPoint → ℕ → String → Type 0
IsNear a b n k = dist (axis a k) (axis b k) ≤ n

abbrev NearAll : TuningPoint → TuningPoint → ℕ → List String → Type 0
NearAll a b n = All (IsNear a b n)

abbrev any_key : String → List String → Bool
any_key k [] = false
any_key k (j ∷ ks) = str_eq j k || any_key k ks

-- A key that a map does not list has no value.
lookup_unlisted :
    {V : Type 0} (k : String) (m : Dict V) → any_key k (keys m) ≡ false → lookup k m ≡ none
unfolding lookup
lookup_unlisted k [] e = refl
lookup_unlisted k ((j, v) ∷ m) e = ground (arith, lookup_unlisted k m)

any_key-append :
    (k : String) (xs ys : List String) → any_key k (xs ++ ys) ≡ (any_key k xs || any_key k ys)
any_key-append k [] ys = refl
any_key-append k (x ∷ xs) ys = ground (arith, any_key-append k xs ys)

module _ (a b : TuningPoint) (sa : IsSmallPoint a) (sb : IsSmallPoint b) (n : ℕ) where
  -- The loop stays within `n` exactly when it began there and every axis that it visits does.
  loop_iff :
      (ks : List String) (m : ℕ)
      → (leb_ℤ (chebyshev_loop a b ks (pos m)) (pos n) ≡ true) ↔ ((m ≤ n) × NearAll a b n ks)
  unfolding chebyshev_loop
  loop_iff [] m = ground arith
  loop_iff (k ∷ ks) m =
      rw (abs_sub-eq-dist (axis a k) (axis b k) (sa k) (sb k))
        (ground (arith, loop_iff ks m, loop_iff ks (dist (axis a k) (axis b k))))

  -- An axis that neither point names is 0 on both.
  dist_unnamed : (k : String) → lookup k a.axes ≡ none → lookup k b.axes ≡ none → IsNear a b n k
  unfolding axis
  dist_unnamed k ea eb = rw (ea, eb) (omega arith)

  NearAll-at :
      (ks : List String) (k : String) → NearAll a b n ks → any_key k ks ≡ true → IsNear a b n k
  NearAll-at [] k h e = cc
  NearAll-at (j ∷ ks) k h e = elim (Bool-cases (str_eq j k)) [
    | inl same ↦ subst (IsNear a b n) ((eq_iff j k).0 same) h.0
    | inr other ↦ NearAll-at ks k h.1 (ground arith)
  ]

  -- Where all axes are within `n`, so are those of any list.
  IsNear-NearAll : (ks : List String) → ((k : String) → IsNear a b n k) → NearAll a b n ks
  IsNear-NearAll [] h = tt
  IsNear-NearAll (k ∷ ks) h = (h k, IsNear-NearAll ks h)

  NearAll-IsNear : (k : String) → NearAll a b n (keys a.axes ++ keys b.axes) → IsNear a b n k
  NearAll-IsNear k h = elim (Bool-cases (any_key k (keys a.axes ++ keys b.axes))) [
    | inl named ↦ NearAll-at (keys a.axes ++ keys b.axes) k h named
    | inr unnamed ↦
        let e = any_key-append k (keys a.axes) (keys b.axes) in
        dist_unnamed k (lookup_unlisted k a.axes (ground arith))
          (lookup_unlisted k b.axes (ground arith))
  ]

  -- A region of radius `n` around `a` contains exactly the points that differ from `a` by at
  -- most `n` on every axis, named or not, where the settings of both points are small enough
  -- that no difference wraps.
  pub contains_iff :
      (contains (around a (pos n)) b ≡ true) ↔ ((k : String) → dist (axis a k) (axis b k) ≤ n)
  unfolding contains chebyshev around
  contains_iff =
      let loop = loop_iff (keys a.axes ++ keys b.axes) 0 in
      (
        λ h k. NearAll-IsNear k (loop.0 h).1,
        λ h. loop.1 (omega arith, IsNear-NearAll (keys a.axes ++ keys b.axes) h),
      )

-- A crash point lies in every region of radius 0 or more that is carved out around it.
chebyshev_loop_self : (a : TuningPoint) (ks : List String) → chebyshev_loop a a ks (pos 0) ≡ pos 0
unfolding chebyshev_loop abs_i64 wrap_i64 ◌-ℤ◌
chebyshev_loop_self a [] = refl
chebyshev_loop_self a (k ∷ ks) = ground (arith, chebyshev_loop_self a ks)

pub contains_self : (a : TuningPoint) (n : ℕ) → contains (around a (pos n)) a ≡ true
unfolding contains chebyshev around
contains_self a n = rw (chebyshev_loop_self a (keys a.axes ++ keys a.axes)) (ground arith)
