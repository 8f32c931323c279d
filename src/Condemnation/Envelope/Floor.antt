-- ===== src/Condemnation/Envelope/Floor.antt =====
-- The floor that the envelope gives at a clock, `vf_floor_envelope` of
-- `crates/core/src/condemnation.rs`.
use native.Mathlib.Nat.{
  div-lt_iff_lt-mul, le-div_iff_mul-le, mul-le-mul_left, le_trans, div-mul-le_self,
}
use nidavellir.Shared.{
  ℕ, ◌+◌, ◌-◌, ◌*◌, ◌/◌, ◌≤◌, ◌<◌, ◌≡◌, inl, inr, max, [], ◌∷◌, some, arith, In, u32_max,
}
use nidavellir.Condemnation.Envelope.{
  mv_limit, insert_sorted, sort_unstable, extend, envelope_loop, interpolate, scan, floor_of,
  vf_floor_envelope,
}
use nidavellir.Condemnation.Envelope.Shape.{
  Pairs, IsEnvelope, Covers, envelope_loop-IsEnvelope, envelope_loop-Covers,
}

-- No voltage is above `m`.
abbrev pub AtMost : ℕ → Pairs → Type 0
AtMost m [] = Unit
AtMost m (p ∷ r) = (p.1 ≤ m) × AtMost m r

extend-AtMost : (m : ℕ) (env : Pairs) (c w : ℕ) → w ≤ m → AtMost m env → AtMost m (extend env c w)
unfolding extend
extend-AtMost m [] c w h k = (h, tt)
extend-AtMost m (p ∷ []) c w h k = ground arith
extend-AtMost m (p ∷ q ∷ r) c w h k = (k.0, extend-AtMost m (q ∷ r) c w h k.1)

insert_sorted-AtMost :
    (m : ℕ) (p : ℕ × ℕ) (r : Pairs) → p.1 ≤ m → AtMost m r → AtMost m (insert_sorted p r)
unfolding insert_sorted
insert_sorted-AtMost m p [] h k = (h, tt)
insert_sorted-AtMost m p (q ∷ r) h k = ground (arith, insert_sorted-AtMost m p r h k.1)

sort_unstable-AtMost : (m : ℕ) (r : Pairs) → AtMost m r → AtMost m (sort_unstable r)
unfolding sort_unstable
sort_unstable-AtMost m [] k = tt
sort_unstable-AtMost m (p ∷ r) k =
    insert_sorted-AtMost m p (sort_unstable r) k.0 (sort_unstable-AtMost m r k.1)

loop-AtMost :
    (m : ℕ) (env : Pairs) (worst : ℕ) (pts : Pairs)
    → worst ≤ m
    → AtMost m env
    → AtMost m pts
    → AtMost m (envelope_loop env worst pts)
unfolding envelope_loop
loop-AtMost m env worst [] h k l = k
loop-AtMost m env worst ((c, v) ∷ pts) h k l =
    let top : max worst v ≤ m = omega arith in
    loop-AtMost m (extend env c (max worst v)) (max worst v) pts top
      (extend-AtMost m env c (max worst v) top k) l.1

-- The ceil quotient lies between 0 and `d` where the fraction lies between 0 and 1.
ceil-le : (d k w : ℕ) → 0 < w → k ≤ w → (d * k + w - 1) / w ≤ d
ceil-le d k w pos le =
    let bound : d * k ≤ d * w = mul-le-mul_left d le in
    let small : d * k + w - 1 < (d + 1) * w = omega arith in
    let r : (d * k + w - 1) / w < d + 1 =
      (div-lt_iff_lt-mul {x = d * k + w - 1} {y = d + 1} pos).1 small in
    omega arith

div_mono : (a b w : ℕ) → 0 < w → a ≤ b → a / w ≤ b / w
div_mono a b w pos le =
    let down : a / w * w ≤ a = div-mul-le_self a w in
    (le-div_iff_mul-le {x = a / w} {y = b} pos).1 (le_trans down le)

-- Between two clocks of the envelope the interpolation stays between their voltages.
interpolate_bounds :
    (c0 v0 c1 v1 clock : ℕ)
    → c0 < clock
    → clock < c1
    → v0 ≤ v1
    → (v0 ≤ interpolate c0 v0 c1 v1 clock) × (interpolate c0 v0 c1 v1 clock ≤ v1)
interpolate_bounds c0 v0 c1 v1 clock h0 h1 hv =
    omega (arith, ceil-le (v1 - v0) (clock - c0) (c1 - c0) (omega arith) (omega arith))

-- No intermediate result of the interpolation leaves i64.
interpolate_fits :
    (c0 v0 c1 v1 clock : ℕ)
    → v1 ≤ mv_limit
    → c1 ≤ u32_max
    → clock < c1
    → (v1 - v0) * (clock - c0) + (c1 - c0) ≤ 9223372036854775807
interpolate_fits c0 v0 c1 v1 clock hv hc h =
    let rows : (v1 - v0) * (clock - c0) ≤ (v1 - v0) * 4294967295 =
      mul-le-mul_left (v1 - v0) (omega arith) in
    omega (arith, rows)

interpolate_mono :
    (c0 v0 c1 v1 a b : ℕ) → c0 < c1 → a ≤ b → interpolate c0 v0 c1 v1 a ≤ interpolate c0 v0 c1 v1 b
interpolate_mono c0 v0 c1 v1 a b h le =
    let product : (v1 - v0) * (a - c0) ≤ (v1 - v0) * (b - c0) =
      mul-le-mul_left (v1 - v0) (omega arith) in
    omega (
      arith,
      div_mono ((v1 - v0) * (a - c0) + (c1 - c0) - 1) ((v1 - v0) * (b - c0) + (c1 - c0) - 1)
          (c1 - c0) (omega arith) (omega arith),
    )

scan-ge : (clock : ℕ) (p : ℕ × ℕ) (r : Pairs) → IsEnvelope (p ∷ r) → p.1 ≤ scan clock p.1 (p ∷ r)
unfolding scan
scan-ge clock p [] e = omega arith
scan-ge clock p (q ∷ r) e =
    ground (arith, scan-ge clock q r e.2, interpolate_bounds p.0 p.1 q.0 q.1 clock)

-- The clocks that an envelope covers begin at its first.
Covers-clock : (p : ℕ × ℕ) (r : Pairs) (c v : ℕ) → IsEnvelope (p ∷ r) → Covers c v (p ∷ r) → p.0 ≤ c
Covers-clock p r c v e (inl k) = omega arith
Covers-clock p [] c v e (inr k) = absurd k
Covers-clock p (q ∷ r) c v e (inr k) = omega (arith, Covers-clock q r c v e.2 k)

scan-Covers :
    (clock : ℕ) (p : ℕ × ℕ) (r : Pairs) (c v : ℕ)
    → IsEnvelope (p ∷ r)
    → c ≤ clock
    → Covers c v (p ∷ r)
    → v ≤ scan clock p.1 (p ∷ r)
unfolding scan
scan-Covers clock p r c v e h (inl k) = le_trans k.1 (scan-ge clock p r e)
scan-Covers clock p [] c v e h (inr k) = absurd k
scan-Covers clock p (q ∷ r) c v e h (inr k) =
    ground (arith, Covers-clock q r c v e.2 k, scan-Covers clock q r c v e.2 h k)

scan-AtMost :
    (m clock : ℕ) (p : ℕ × ℕ) (r : Pairs)
    → IsEnvelope (p ∷ r)
    → AtMost m (p ∷ r)
    → scan clock p.1 (p ∷ r) ≤ m
unfolding scan
scan-AtMost m clock p [] e k = k.0
scan-AtMost m clock p (q ∷ r) e k =
    ground (arith, scan-AtMost m clock q r e.2 k.1, interpolate_bounds p.0 p.1 q.0 q.1 clock)

scan_mono :
    (a b : ℕ) (p : ℕ × ℕ) (r : Pairs)
    → IsEnvelope (p ∷ r)
    → a ≤ b
    → scan a p.1 (p ∷ r) ≤ scan b p.1 (p ∷ r)
unfolding scan
scan_mono a b p [] e h = omega arith
scan_mono a b p (q ∷ r) e h = ground (
  arith,
  scan_mono a b q r e.2 h,
  scan-ge b q r e.2,
  interpolate_bounds p.0 p.1 q.0 q.1 a,
  interpolate_bounds p.0 p.1 q.0 q.1 b,
  interpolate_mono p.0 p.1 q.0 q.1 a b,
)

floor_of-Covers :
    (env : Pairs) (clock c v : ℕ)
    → IsEnvelope env
    → AtMost mv_limit env
    → Covers c v env
    → c ≤ clock
    → (f : ℕ) × (floor_of env clock ≡ some f) × (v ≤ f)
unfolding floor_of
floor_of-Covers [] clock c v e m k h = absurd k
floor_of-Covers (p ∷ r) clock c v e m k h =
    let first = Covers-clock p r c v e k in
    let fits = scan-AtMost mv_limit clock p r e m in
    (scan clock p.1 (p ∷ r), ground arith, scan-Covers clock p r c v e h k)

floor_of_mono :
    (env : Pairs) (a b f : ℕ)
    → IsEnvelope env
    → AtMost mv_limit env
    → a ≤ b
    → floor_of env a ≡ some f
    → (g : ℕ) × (floor_of env b ≡ some g) × (f ≤ g)
unfolding floor_of
floor_of_mono [] a b f e m h k = cc
floor_of_mono (p ∷ r) a b f e m h k =
    let grows = scan_mono a b p r e h in
    let fits = scan-AtMost mv_limit b p r e m in (scan b p.1 (p ∷ r), ground arith, ground arith)

floor_of-AtMost :
    (env : Pairs) (m clock f : ℕ)
    → IsEnvelope env
    → AtMost m env
    → floor_of env clock ≡ some f
    → f ≤ m
unfolding floor_of
floor_of-AtMost [] m clock f e k h = cc
floor_of-AtMost (p ∷ r) m clock f e k h = ground (arith, scan-AtMost m clock p r e k)

envelope_loop-AtMost :
    (m : ℕ) (pairs : Pairs) → AtMost m pairs → AtMost m (envelope_loop [] 0 (sort_unstable pairs))
envelope_loop-AtMost m pairs h =
    loop-AtMost m [] 0 (sort_unstable pairs) (omega arith) tt (sort_unstable-AtMost m pairs h)

-- The floor lets no condemned pair slip: at its clock and at every higher one there is a floor,
-- and it is at least the condemned voltage. All voltages are within the range of the
-- interpolation.
pub vf_floor_envelope-ge :
    (pairs : Pairs) (clock c v : ℕ)
    → AtMost mv_limit pairs
    → In (c, v) pairs
    → c ≤ clock
    → (f : ℕ) × (vf_floor_envelope pairs clock ≡ some f) × (v ≤ f)
unfolding vf_floor_envelope
vf_floor_envelope-ge pairs clock c v m h le =
    floor_of-Covers (envelope_loop [] 0 (sort_unstable pairs)) clock c v
      (envelope_loop-IsEnvelope pairs) (envelope_loop-AtMost mv_limit pairs m)
      (envelope_loop-Covers pairs c v h) le

-- The floor does not fall as the clock rises, for voltages within the range of the interpolation.
pub vf_floor_envelope_mono :
    (pairs : Pairs) (a b f : ℕ)
    → AtMost mv_limit pairs
    → a ≤ b
    → vf_floor_envelope pairs a ≡ some f
    → (g : ℕ) × (vf_floor_envelope pairs b ≡ some g) × (f ≤ g)
unfolding vf_floor_envelope
vf_floor_envelope_mono pairs a b f m le h =
    floor_of_mono (envelope_loop [] 0 (sort_unstable pairs)) a b f (envelope_loop-IsEnvelope pairs)
      (envelope_loop-AtMost mv_limit pairs m) le h

-- The floor is never above the highest condemned voltage, if that is within the range of the
-- interpolation.
pub vf_floor_envelope-le :
    (pairs : Pairs) (m clock f : ℕ)
    → AtMost m pairs
    → m ≤ mv_limit
    → vf_floor_envelope pairs clock ≡ some f
    → f ≤ m
unfolding vf_floor_envelope
vf_floor_envelope-le pairs m clock f k small h =
    floor_of-AtMost (envelope_loop [] 0 (sort_unstable pairs)) m clock f
      (envelope_loop-IsEnvelope pairs) (envelope_loop-AtMost m pairs k) h
