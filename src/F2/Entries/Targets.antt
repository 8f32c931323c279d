-- ===== src/F2/Entries/Targets.antt =====
-- The targets that the journal speaks of, each once and in order: `sort_unstable` and `dedup` in
-- `learned_frontier` of `crates/core/src/f2_observation.rs`.
use nidavellir.Shared.{
  ℕ, ◌≤◌, ◌<◌, ◌≡◌, ap, ◌⊎◌, inl, inr, ◌==◌, leb, List, [], ◌∷◌, map, arith, All, In, Bool-cases,
}
use nidavellir.F2.Observation.{F2Observation}
use nidavellir.F2.Entries.{insert_target, sort_targets, dedup_from, dedup, targets_of}

-- Each number is at most, or below, all that follow.
abbrev IsSorted : List ℕ → Type 0
IsSorted [] = Unit
IsSorted (n ∷ ns) = All (λ m. n ≤ m) ns × IsSorted ns

abbrev pub IsAscending : List ℕ → Type 0
IsAscending [] = Unit
IsAscending (n ∷ ns) = All (λ m. n < m) ns × IsAscending ns

All-le : (n m : ℕ) (ns : List ℕ) → n ≤ m → All (λ k. m ≤ k) ns → All (λ k. n ≤ k) ns
All-le n m [] h k = tt
All-le n m (x ∷ ns) h k = (omega (arith, h, k.0), All-le n m ns h k.1)

insert_target-All :
    (Q : ℕ → Type 0) (n : ℕ) (ns : List ℕ) → Q n → All Q ns → All Q (insert_target n ns)
insert_target-All Q n [] q h = (q, tt)
insert_target-All Q n (m ∷ ms) q h = elim (Bool-cases (leb n m)) [
  | inl e ↦ rw e (q, (h.0, h.1))
  | inr e ↦ rw e (h.0, insert_target-All Q n ms q h.1)
]

insert_target-IsSorted : (n : ℕ) (ns : List ℕ) → IsSorted ns → IsSorted (insert_target n ns)
insert_target-IsSorted n [] h = (tt, tt)
insert_target-IsSorted n (m ∷ ms) h = elim (Bool-cases (leb n m)) [
  | inl e ↦ let le : n ≤ m = ground arith in rw e (((le, All-le n m ms le h.0)), (h.0, h.1))
  | inr e ↦
      rw e (insert_target-All (λ k. m ≤ k) n ms (ground arith) h.0, insert_target-IsSorted n ms h.1)
]

sort_targets-IsSorted : (ns : List ℕ) → IsSorted (sort_targets ns)
sort_targets-IsSorted [] = tt
sort_targets-IsSorted (n ∷ ns) =
    insert_target-IsSorted n (sort_targets ns) (sort_targets-IsSorted ns)

In-insert_target : (x n : ℕ) (ns : List ℕ) → (x ≡ n) ⊎ In x ns → In x (insert_target n ns)
In-insert_target x n [] (inl e) = inl e
In-insert_target x n [] (inr h) = absurd h
In-insert_target x n (m ∷ ms) h = elim (Bool-cases (leb n m)) [
  | inl e ↦ rw e h
  | inr e ↦ rw e (elim h [
    | inl p ↦ inr (In-insert_target x n ms (inl p))
    | inr (inl p) ↦ inl p
    | inr (inr k) ↦ inr (In-insert_target x n ms (inr k))
  ])
]

In-sort_targets : (x : ℕ) (ns : List ℕ) → In x ns → In x (sort_targets ns)
In-sort_targets x [] h = h
In-sort_targets x (n ∷ ns) (inl e) = In-insert_target x n (sort_targets ns) (inl e)
In-sort_targets x (n ∷ ns) (inr h) =
    In-insert_target x n (sort_targets ns) (inr (In-sort_targets x ns h))

dedup_from-All : (Q : ℕ → Type 0) (n : ℕ) (ns : List ℕ) → Q n → All Q ns → All Q (dedup_from n ns)
dedup_from-All Q n [] q h = (q, tt)
dedup_from-All Q n (m ∷ ms) q h = elim (Bool-cases (n == m)) [
  | inl e ↦ rw e (dedup_from-All Q n ms q h.1)
  | inr e ↦ rw e (q, dedup_from-All Q m ms h.0 h.1)
]

All-lt : (n m : ℕ) (ns : List ℕ) → n < m → All (λ k. m ≤ k) ns → All (λ k. n < k) ns
All-lt n m [] h k = tt
All-lt n m (x ∷ ns) h k = (omega (arith, h, k.0), All-lt n m ns h k.1)

dedup_from-IsAscending :
    (n : ℕ) (ns : List ℕ) → All (λ m. n ≤ m) ns → IsSorted ns → IsAscending (dedup_from n ns)
dedup_from-IsAscending n [] h k = (tt, tt)
dedup_from-IsAscending n (m ∷ ms) h k = elim (Bool-cases (n == m)) [
  | inl e ↦ rw e (dedup_from-IsAscending n ms h.1 k.1)
  | inr e ↦
      let below : n < m = ground (arith, h.0) in
      rw e (
        dedup_from-All (λ x. n < x) m ms below (All-lt n m ms below k.0),
        dedup_from-IsAscending m ms k.0 k.1,
      )
]

In-dedup_from : (x n : ℕ) (ns : List ℕ) → (x ≡ n) ⊎ In x ns → In x (dedup_from n ns)
In-dedup_from x n [] (inl e) = inl e
In-dedup_from x n [] (inr h) = absurd h
In-dedup_from x n (m ∷ ms) h = elim (Bool-cases (n == m)) [
  | inl e ↦ rw e (elim h [
    | inl p ↦ In-dedup_from x n ms (inl p)
    | inr (inl p) ↦ In-dedup_from x n ms (inl (ground arith))
    | inr (inr k) ↦ In-dedup_from x n ms (inr k)
  ])
  | inr e ↦ rw e (elim h [ inl p ↦ inl p | inr k ↦ inr (In-dedup_from x m ms k) ])
]

dedup-IsAscending : (ns : List ℕ) → IsSorted ns → IsAscending (dedup ns)
dedup-IsAscending [] h = tt
dedup-IsAscending (n ∷ ns) h = dedup_from-IsAscending n ns h.0 h.1

In-dedup : (x : ℕ) (ns : List ℕ) → In x ns → In x (dedup ns)
In-dedup x [] h = h
In-dedup x (n ∷ ns) h = In-dedup_from x n ns h

pub targets_of-IsAscending : (obs : List F2Observation) → IsAscending (targets_of obs)
unfolding targets_of
targets_of-IsAscending obs =
    let targets = map (λ o. o.target_mhz) obs in
    dedup-IsAscending (sort_targets targets) (sort_targets-IsSorted targets)

In-target :
    (o : F2Observation) (obs : List F2Observation)
    → In o obs
    → In o.target_mhz (map (λ x. x.target_mhz) obs)
In-target o [] h = absurd h
In-target o (x ∷ obs) (inl e) = inl (ap (λ x. x.target_mhz) e)
In-target o (x ∷ obs) (inr h) = inr (In-target o obs h)

pub In-targets_of :
    (o : F2Observation) (obs : List F2Observation) → In o obs → In o.target_mhz (targets_of obs)
unfolding targets_of
In-targets_of o obs h =
    let targets = map (λ x. x.target_mhz) obs in
    In-dedup o.target_mhz (sort_targets targets)
      (In-sort_targets o.target_mhz targets (In-target o obs h))
