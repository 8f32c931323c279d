-- ===== src/Condemnation/Pairs/Active.antt =====
-- Which pairs the ledger holds condemned on a GPU, against a description of the events themselves
-- (`condemned_pairs` of `crates/core/src/condemnation.rs`).
use nidavellir.Shared.{
  any, arith, true, ℕ, ◌≡◌, refl, sym, ap, ◌↔◌, ◌⊎◌, inl, inr, false, List, [], ◌∷◌, ◌++◌, String,
  In, In-append, In-append_left, In-append_right, Bool-cases,
}
use nidavellir.Condemnation.Event.{CondemnationSeverity, CondemnationEvent, matches_gpu, cancels}
use nidavellir.Condemnation.Pairs.{
  CondemnedPairs, empty, push_pair, is_skipped, condemned_loop, condemned_pairs,
}

-- An event is in force: it is of this GPU or of no particular one, it is no rehabilitation, and no event
-- behind it rehabilitates its pair.
abbrev pub IsInForce : String → CondemnationEvent → List CondemnationEvent → Type 0
IsInForce gpu e later =
    (matches_gpu e.gpu_key gpu ≡ true)
    × (e.rehabilitated ≡ false)
    × (any (cancels gpu e.target_mhz e.vf_bin_mv) later ≡ false)

kept-IsInForce :
    (gpu : String) (e : CondemnationEvent) (later : List CondemnationEvent)
    → is_skipped gpu e later ≡ false
    → IsInForce gpu e later
kept-IsInForce gpu e later h = ground arith

skipped-IsInForce :
    (gpu : String) (e : CondemnationEvent) (later : List CondemnationEvent)
    → is_skipped gpu e later ≡ true
    → ¬ IsInForce gpu e later
skipped-IsInForce gpu e later h f = ground arith

-- Some event condemns the pair with this severity, and is in force.
abbrev pub Active : String → CondemnationSeverity → ℕ → ℕ → List CondemnationEvent → Type 0
Active gpu s c v [] = ⊥
Active gpu s c v (e ∷ later) =
    (IsInForce gpu e later × (e.severity ≡ s) × (e.target_mhz ≡ c) × (e.vf_bin_mv ≡ v))
    ⊎ Active gpu s c v later

abbrev of_severity : CondemnationSeverity → CondemnedPairs → List (ℕ × ℕ)
of_severity CondemnationSeverity.rigid out = out.rigid
of_severity CondemnationSeverity.quarantine out = out.quarantine

In-snoc :
    (c v a b : ℕ) (xs : List (ℕ × ℕ))
    → In (c, v) (xs ++ (a, b) ∷ []) ↔ (In (c, v) xs ⊎ ((a ≡ c) × (b ≡ v)))
In-snoc c v a b xs = (forth, back)
  where
    forth : In (c, v) (xs ++ (a, b) ∷ []) → In (c, v) xs ⊎ ((a ≡ c) × (b ≡ v))
    forth h = elim (In-append (c, v) xs ((a, b) ∷ []) h) [
      | inl old ↦ inl old
      | inr (inl e) ↦ inr (sym (ap (λ (p : ℕ × ℕ). p.0) e), sym (ap (λ (p : ℕ × ℕ). p.1) e))
      | inr (inr none_left) ↦ absurd none_left
    ]

    back : In (c, v) xs ⊎ ((a ≡ c) × (b ≡ v)) → In (c, v) (xs ++ (a, b) ∷ [])
    back (inl old) = In-append_left (c, v) xs ((a, b) ∷ []) old
    back (inr (p, q)) = In-append_right (c, v) xs ((a, b) ∷ []) (inl (λ i. (sym p i, sym q i)))

-- What one push adds to the list of a severity.
push_iff :
    (t s : CondemnationSeverity) (e : CondemnationEvent) (out : CondemnedPairs) (c v : ℕ)
    → In (c, v) (of_severity s (push_pair t e out))
      ↔ (In (c, v) (of_severity s out) ⊎ ((t ≡ s) × (e.target_mhz ≡ c) × (e.vf_bin_mv ≡ v)))
push_iff CondemnationSeverity.rigid CondemnationSeverity.rigid e out c v =
    let snoc = In-snoc c v e.target_mhz e.vf_bin_mv out.rigid in
    (
      λ h. elim (snoc.0 h) [ inl old ↦ inl old | inr (p, q) ↦ inr (refl, p, q) ],
      λ h. elim h [ inl old ↦ snoc.1 (inl old) | inr (r, p, q) ↦ snoc.1 (inr (p, q)) ],
    )
push_iff CondemnationSeverity.quarantine CondemnationSeverity.quarantine e out c v =
    let snoc = In-snoc c v e.target_mhz e.vf_bin_mv out.quarantine in
    (
      λ h. elim (snoc.0 h) [ inl old ↦ inl old | inr (p, q) ↦ inr (refl, p, q) ],
      λ h. elim h [ inl old ↦ snoc.1 (inl old) | inr (r, p, q) ↦ snoc.1 (inr (p, q)) ],
    )
push_iff CondemnationSeverity.rigid CondemnationSeverity.quarantine e out c v =
    (inl, λ h. elim h [ inl old ↦ old | inr (r, p, q) ↦ cc ])
push_iff CondemnationSeverity.quarantine CondemnationSeverity.rigid e out c v =
    (inl, λ h. elim h [ inl old ↦ old | inr (r, p, q) ↦ cc ])

-- One turn of the loop, past an entry and at one that is pushed.
module _ {A B C X : Type 0} where
  turn_skip : A ↔ (B ⊎ C) → ¬ X → A ↔ (B ⊎ (X ⊎ C))
  turn_skip f no_x = (
    λ a. elim (f.0 a) [ inl b ↦ inl b | inr c ↦ inr (inr c) ],
    λ h. elim h [ inl b ↦ f.1 (inl b) | inr (inl x) ↦ absurd (no_x x) | inr (inr c) ↦ f.1 (inr c) ],
  )

  turn_push : {D : Type 0} → A ↔ (D ⊎ C) → D ↔ (B ⊎ X) → A ↔ (B ⊎ (X ⊎ C))
  turn_push f g = (
    λ a. elim (f.0 a) [
      | inl d ↦ elim (g.0 d) [ inl b ↦ inl b | inr x ↦ inr (inl x) ]
      | inr c ↦ inr (inr c)
    ],
    λ h. elim h [
      | inl b ↦ f.1 (inl (g.1 (inl b)))
      | inr (inl x) ↦ f.1 (inl (g.1 (inr x)))
      | inr (inr c) ↦ f.1 (inr c)
    ],
  )

-- A pushed entry, with what puts it in force.
pushed :
    (gpu : String) (s : CondemnationSeverity) (e : CondemnationEvent)
    (later : List CondemnationEvent) (out : CondemnedPairs) (c v : ℕ)
    → IsInForce gpu e later
    → In (c, v) (of_severity s (push_pair e.severity e out)) ↔ (
        In (c, v) (of_severity s out)
        ⊎ (IsInForce gpu e later × (e.severity ≡ s) × (e.target_mhz ≡ c) × (e.vf_bin_mv ≡ v)))
pushed gpu s e later out c v f =
    let push = push_iff e.severity s e out c v in
    (
      λ h. elim (push.0 h) [ inl old ↦ inl old | inr (t, p, q) ↦ inr (f, t, p, q) ],
      λ h. elim h [ inl old ↦ push.1 (inl old) | inr (r, t, p, q) ↦ push.1 (inr (t, p, q)) ],
    )

loop_iff :
    (gpu : String) (s : CondemnationSeverity) (out : CondemnedPairs)
    (events : List CondemnationEvent) (c v : ℕ)
    → In (c, v) (of_severity s (condemned_loop gpu out events))
      ↔ (In (c, v) (of_severity s out) ⊎ Active gpu s c v events)
unfolding condemned_loop
loop_iff gpu s out [] c v = (inl, λ h. elim h [ inl k ↦ k | inr k ↦ absurd k ])
loop_iff gpu s out (e ∷ later) c v = elim (Bool-cases (is_skipped gpu e later)) [
  | inl skipped ↦
      rw skipped
        (turn_skip (loop_iff gpu s out later c v) (λ h. skipped-IsInForce gpu e later skipped h.0))
  | inr kept ↦ rw kept (
      turn_push (loop_iff gpu s (push_pair e.severity e out) later c v)
        (pushed gpu s e later out c v (kept-IsInForce gpu e later kept)))
]

-- A pair is listed under a severity exactly when some event condemns it so and is in force.
pub condemned_iff :
    (events : List CondemnationEvent) (gpu : String) (c v : ℕ)
    → let out = condemned_pairs events gpu in
      (In (c, v) out.rigid ↔ Active gpu CondemnationSeverity.rigid c v events)
      × (In (c, v) out.quarantine ↔ Active gpu CondemnationSeverity.quarantine c v events)
unfolding condemned_pairs
condemned_iff events gpu c v = (
  no_start (loop_iff gpu CondemnationSeverity.rigid empty events c v),
  no_start (loop_iff gpu CondemnationSeverity.quarantine empty events c v),
)
  where
    no_start : {A C : Type 0} → A ↔ (⊥ ⊎ C) → A ↔ C
    no_start f = (λ a. elim (f.0 a) [ inl b ↦ absurd b | inr c ↦ c ], λ c. f.1 (inr c))
