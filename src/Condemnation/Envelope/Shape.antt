-- ===== src/Condemnation/Envelope/Shape.antt =====
-- The shape of the envelope: clocks rise strictly along it and voltages do not fall, and every pair
-- that went in is covered at its own clock.
use nidavellir.Shared.{
  ℕ, ap, ◌≤◌, ◌<◌, ◌≡◌, refl, ◌⊎◌, inl, inr, max, List, [], ◌∷◌, arith, In, Bool-cases,
}
use nidavellir.Condemnation.Envelope.{leb_pair, insert_sorted, sort_unstable, extend, envelope_loop}

abbrev pub Pairs : Type 0
Pairs = List (ℕ × ℕ)

abbrev pub IsEnvelope : Pairs → Type 0
IsEnvelope [] = Unit
IsEnvelope (p ∷ []) = Unit
IsEnvelope (p ∷ q ∷ r) = (p.0 < q.0) × (p.1 ≤ q.1) × IsEnvelope (q ∷ r)

-- No entry lies beyond a clock or above a voltage.
abbrev pub Within : ℕ → ℕ → Pairs → Type 0
Within clock mv [] = Unit
Within clock mv (p ∷ r) = (p.0 ≤ clock) × (p.1 ≤ mv) × Within clock mv r

-- Some entry stands at the clock, with the voltage or a higher one.
abbrev pub Covers : ℕ → ℕ → Pairs → Type 0
Covers clock mv [] = ⊥
Covers clock mv (p ∷ r) = ((p.0 ≡ clock) × (mv ≤ p.1)) ⊎ Covers clock mv r

-- Every clock is at least this one.
abbrev pub From : ℕ → Pairs → Type 0
From clock [] = Unit
From clock (p ∷ r) = (clock ≤ p.0) × From clock r

-- The clocks of the pairs do not fall.
abbrev IsSorted : Pairs → Type 0
IsSorted [] = Unit
IsSorted (p ∷ r) = From p.0 r × IsSorted r

Within-mono : (c v c' v' : ℕ) (env : Pairs) → c ≤ c' → v ≤ v' → Within c v env → Within c' v' env
Within-mono c v c' v' [] hc hv h = tt
Within-mono c v c' v' (p ∷ r) hc hv h =
    (omega arith, omega arith, Within-mono c v c' v' r hc hv h.2)

extend-IsEnvelope :
    (env : Pairs) (c w : ℕ) → IsEnvelope env → Within c w env → IsEnvelope (extend env c w)
unfolding extend
extend-IsEnvelope [] c w e h = tt
extend-IsEnvelope (p ∷ []) c w e h = ground arith
extend-IsEnvelope (p ∷ q ∷ []) c w e h = ground arith
extend-IsEnvelope (p ∷ q ∷ s ∷ r) c w e h = (e.0, e.1, extend-IsEnvelope (q ∷ s ∷ r) c w e.2 h.2)

extend-Within : (env : Pairs) (c w : ℕ) → Within c w env → Within c w (extend env c w)
unfolding extend
extend-Within [] c w h = omega arith
extend-Within (p ∷ []) c w h = ground arith
extend-Within (p ∷ q ∷ r) c w h = (h.0, h.1, extend-Within (q ∷ r) c w h.2)

extend-Covers_self : (env : Pairs) (c w : ℕ) → Covers c w (extend env c w)
unfolding extend
extend-Covers_self [] c w = inl (refl, omega arith)
extend-Covers_self (p ∷ []) c w = ground arith
extend-Covers_self (p ∷ q ∷ r) c w = inr (extend-Covers_self (q ∷ r) c w)

extend-Covers :
    (env : Pairs) (c w clock mv : ℕ)
    → Within c w env
    → Covers clock mv env
    → Covers clock mv (extend env c w)
unfolding extend
extend-Covers [] c w clock mv h k = absurd k
extend-Covers (p ∷ []) c w clock mv h k = ground arith
extend-Covers (p ∷ q ∷ r) c w clock mv h (inl k) = inl k
extend-Covers (p ∷ q ∷ r) c w clock mv h (inr k) = inr (extend-Covers (q ∷ r) c w clock mv h.2 k)

From-insert_sorted :
    (c : ℕ) (p : ℕ × ℕ) (r : Pairs) → c ≤ p.0 → From c r → From c (insert_sorted p r)
unfolding insert_sorted
From-insert_sorted c p [] h k = (h, tt)
From-insert_sorted c p (q ∷ r) h k = ground (arith, From-insert_sorted c p r h k.1)

From-mono : (c c' : ℕ) (r : Pairs) → c' ≤ c → From c r → From c' r
From-mono c c' [] h k = tt
From-mono c c' (p ∷ r) h k = (omega arith, From-mono c c' r h k.1)

insert_sorted-IsSorted : (p : ℕ × ℕ) (r : Pairs) → IsSorted r → IsSorted (insert_sorted p r)
unfolding insert_sorted
insert_sorted-IsSorted p [] s = (tt, tt)
insert_sorted-IsSorted p (q ∷ r) s =
    ground (arith, insert_sorted-IsSorted p r s.1, From-insert_sorted q.0 p r, From-mono q.0 p.0 r)

sort_unstable-IsSorted : (r : Pairs) → IsSorted (sort_unstable r)
unfolding sort_unstable
sort_unstable-IsSorted [] = tt
sort_unstable-IsSorted (p ∷ r) =
    insert_sorted-IsSorted p (sort_unstable r) (sort_unstable-IsSorted r)

-- What is built from pairs in order keeps the shape.
loop-IsEnvelope :
    (env : Pairs) (clock worst : ℕ) (pts : Pairs)
    → IsEnvelope env
    → Within clock worst env
    → From clock pts
    → IsSorted pts
    → IsEnvelope (envelope_loop env worst pts)
unfolding envelope_loop
loop-IsEnvelope env clock worst [] e w f s = e
loop-IsEnvelope env clock worst ((c, v) ∷ pts) e w f s =
    let within = Within-mono clock worst c (max worst v) env f.0 (omega arith) w in
    loop-IsEnvelope (extend env c (max worst v)) c (max worst v) pts
      (extend-IsEnvelope env c (max worst v) e within) (extend-Within env c (max worst v) within)
      s.0 s.1

Covers-mono : (c v v' : ℕ) (env : Pairs) → v' ≤ v → Covers c v env → Covers c v' env
Covers-mono c v v' [] h k = k
Covers-mono c v v' (p ∷ r) h (inl k) = inl (k.0, omega arith)
Covers-mono c v v' (p ∷ r) h (inr k) = inr (Covers-mono c v v' r h k)

covered_next :
    (env : Pairs) (c' top c v v' : ℕ)
    → v' ≤ top
    → (pts : Pairs) → Within c' top env
    → Covers c v env ⊎ In (c, v) ((c', v') ∷ pts)
    → Covers c v (extend env c' top) ⊎ In (c, v) pts
covered_next env c' top c v v' le pts w (inl k) = inl (extend-Covers env c' top c v w k)
covered_next env c' top c v v' le pts w (inr (inr k)) = inr k
covered_next env c' top c v v' le pts w (inr (inl e)) =
    let same_clock : c ≡ c' = ap (λ (p : ℕ × ℕ). p.0) e in
    let same_mv : v ≡ v' = ap (λ (p : ℕ × ℕ). p.1) e in
    inl (
      rw (same_clock, same_mv)
        (Covers-mono c' top v' (extend env c' top) le (extend-Covers_self env c' top)))

loop-Covers :
    (env : Pairs) (clock worst : ℕ) (pts : Pairs) (c v : ℕ)
    → Within clock worst env
    → From clock pts
    → IsSorted pts
    → Covers c v env ⊎ In (c, v) pts
    → Covers c v (envelope_loop env worst pts)
unfolding envelope_loop
loop-Covers env clock worst [] c v w f s (inl k) = k
loop-Covers env clock worst [] c v w f s (inr k) = absurd k
loop-Covers env clock worst ((c', v') ∷ pts) c v w f s h =
    let top = max worst v' in
    let within = Within-mono clock worst c' top env f.0 (omega arith) w in
    loop-Covers (extend env c' top) c' top pts c v (extend-Within env c' top within) s.0 s.1
      (covered_next env c' top c v v' (omega arith) pts within h)

From-zero : (r : Pairs) → From 0 r
From-zero [] = tt
From-zero (p ∷ r) = (omega arith, From-zero r)

In-insert_sorted_self : (p : ℕ × ℕ) (r : Pairs) → In p (insert_sorted p r)
unfolding insert_sorted
In-insert_sorted_self p [] = inl refl
In-insert_sorted_self p (q ∷ r) = elim (Bool-cases (leb_pair p q)) [
  | inl first ↦ rw first (inl refl)
  | inr later ↦ rw later (inr (In-insert_sorted_self p r))
]

In-insert_sorted : (a p : ℕ × ℕ) (r : Pairs) → In a r → In a (insert_sorted p r)
unfolding insert_sorted
In-insert_sorted a p [] h = absurd h
In-insert_sorted a p (q ∷ r) h = elim (Bool-cases (leb_pair p q)) [
  | inl first ↦ rw first (inr h)
  | inr later ↦ rw later (elim h [ inl e ↦ inl e | inr k ↦ inr (In-insert_sorted a p r k) ])
]

In-sort_unstable : (a : ℕ × ℕ) (r : Pairs) → In a r → In a (sort_unstable r)
unfolding sort_unstable
In-sort_unstable a [] h = absurd h
In-sort_unstable a (p ∷ r) (inl e) = rw e (In-insert_sorted_self p (sort_unstable r))
In-sort_unstable a (p ∷ r) (inr h) = In-insert_sorted a p (sort_unstable r) (In-sort_unstable a r h)

-- The envelope of any pairs, in any order, has the shape.
pub envelope_loop-IsEnvelope :
    (pairs : Pairs) → IsEnvelope (envelope_loop [] 0 (sort_unstable pairs))
envelope_loop-IsEnvelope pairs =
    loop-IsEnvelope [] 0 0 (sort_unstable pairs) tt tt (From-zero (sort_unstable pairs))
      (sort_unstable-IsSorted pairs)

-- It covers every pair.
pub envelope_loop-Covers :
    (pairs : Pairs) (c v : ℕ)
    → In (c, v) pairs
    → Covers c v (envelope_loop [] 0 (sort_unstable pairs))
envelope_loop-Covers pairs c v h =
    loop-Covers [] 0 0 (sort_unstable pairs) c v tt (From-zero (sort_unstable pairs))
      (sort_unstable-IsSorted pairs) (inr (In-sort_unstable (c, v) pairs h))
