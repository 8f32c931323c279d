-- ===== src/Condemnation/Envelope.antt =====
-- `vf_floor_envelope` of `crates/core/src/condemnation.rs`. The source widens its u32 pairs to i64;
-- along the envelope neither a clock nor a voltage falls, so its differences are natural numbers, and
-- the running maximum may start at 0 where the source starts at the least i64. The interpolation stays
-- within i64 for voltages up to `mv_limit`, and the theorems ask for no higher ones.
pub mod Shape
pub mod Floor
use nidavellir.Shared.{
  ℕ, ◌+◌, ◌-◌, ◌*◌, ◌/◌, ◌==◌, max, ltb, leb, Bool, ◌&&◌, ◌||◌, List, [], ◌∷◌, Option, none, some,
  if◌then◌else◌, u32_max,
}

abbrev pub mv_limit : ℕ
mv_limit = 2147483647

-- The order of pairs that `sort_unstable` uses.
abbrev pub leb_pair : ℕ × ℕ → ℕ × ℕ → Bool
leb_pair (a, b) (c, d) = ltb a c || (a == c && leb b d)

unfoldable pub insert_sorted : ℕ × ℕ → List (ℕ × ℕ) → List (ℕ × ℕ)
insert_sorted p [] = p ∷ []
insert_sorted p (q ∷ r) = if leb_pair p q then p ∷ q ∷ r else q ∷ insert_sorted p r

-- What `sort_unstable` makes of the pairs: the order is total on them, so the result is one.
unfoldable pub sort_unstable : List (ℕ × ℕ) → List (ℕ × ℕ)
unfolding insert_sorted
sort_unstable [] = []
sort_unstable (p ∷ r) = insert_sorted p (sort_unstable r)

-- `match env.last_mut()`: the last clock's value is raised, or a new clock is pushed.
unfoldable pub extend : List (ℕ × ℕ) → ℕ → ℕ → List (ℕ × ℕ)
extend [] clock worst = (clock, worst) ∷ []
extend (p ∷ []) clock worst = if p.0 == clock then (p.0, worst) ∷ [] else p ∷ (clock, worst) ∷ []
extend (p ∷ q ∷ r) clock worst = p ∷ extend (q ∷ r) clock worst

unfoldable pub envelope_loop : List (ℕ × ℕ) → ℕ → List (ℕ × ℕ) → List (ℕ × ℕ)
unfolding extend
envelope_loop env worst [] = env
envelope_loop env worst ((clock, mv) ∷ pts) =
    envelope_loop (extend env clock (max worst mv)) (max worst mv) pts

-- Ceil interpolation between two clocks of the envelope.
abbrev pub interpolate : ℕ → ℕ → ℕ → ℕ → ℕ → ℕ
interpolate c0 v0 c1 v1 clock = v0 + ((v1 - v0) * (clock - c0) + (c1 - c0) - 1) / (c1 - c0)

-- The loop over `windows(2)`, with its two breaks.
unfoldable pub scan : ℕ → ℕ → List (ℕ × ℕ) → ℕ
scan clock floor [] = floor
scan clock floor (p ∷ []) = floor
scan clock floor (p ∷ q ∷ r) =
    let rest = scan clock q.1 (q ∷ r) in
    if leb q.0 clock
    then rest
    else if ltb p.0 clock
    then interpolate p.0 p.1 q.0 q.1 clock
    else floor

-- `u32::try_from(_).ok()`
abbrev pub try_u32 : ℕ → Option ℕ
try_u32 n = if leb n u32_max then some n else none

unfoldable pub floor_of : List (ℕ × ℕ) → ℕ → Option ℕ
unfolding scan
floor_of [] clock = none
floor_of (p ∷ r) clock = if ltb clock p.0 then none else try_u32 (scan clock p.1 (p ∷ r))

unfoldable pub vf_floor_envelope : List (ℕ × ℕ) → ℕ → Option ℕ
vf_floor_envelope pairs clock = floor_of (envelope_loop [] 0 (sort_unstable pairs)) clock
