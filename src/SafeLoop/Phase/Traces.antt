-- ===== src/SafeLoop/Phase/Traces.antt =====
-- What a run of the phase machine shows of the events that led to it.
use nidavellir.Shared.{◌≡◌, refl, ◌⊎◌, inl, inr, List, [], ◌∷◌, arith, In}
use nidavellir.SafeLoop.Phase.{
  SafeLoopState, idle, probing, applying, dwell, validated, safe_mode, SafeLoopEvent, start_probe,
  applied, enter_dwell, dwell_passed, hard_crash, reset, transition, run,
}

-- How many of the events that lead from `idle` to `validated` are still to come.
abbrev pub Follows : List SafeLoopEvent → List SafeLoopEvent → Type 0
Follows [] es = Unit
Follows (w ∷ ws) [] = ⊥
Follows (w ∷ ws) (e ∷ es) = ((w ≡ e) × Follows ws es) ⊎ Follows (w ∷ ws) es

abbrev pub whole_cycle : List SafeLoopEvent
whole_cycle = start_probe ∷ applied ∷ enter_dwell ∷ dwell_passed ∷ []

-- The part of the cycle that a phase still has before it.
abbrev remaining : SafeLoopState → List SafeLoopEvent
remaining probing = applied ∷ enter_dwell ∷ dwell_passed ∷ []
remaining applying = enter_dwell ∷ dwell_passed ∷ []
remaining dwell = dwell_passed ∷ []
remaining validated = []
remaining _ = whole_cycle

Follows-cons :
    (ws es : List SafeLoopEvent) (e : SafeLoopEvent) → Follows ws es → Follows ws (e ∷ es)
Follows-cons [] es e h = tt
Follows-cons (w ∷ ws) es e h = inr h

Follows-tail :
    (w : SafeLoopEvent) (ws es : List SafeLoopEvent) → Follows (w ∷ ws) es → Follows ws es
Follows-tail w ws [] h = absurd h
Follows-tail w ws (e ∷ es) (inl h) = Follows-cons ws es e h.1
Follows-tail w ws (e ∷ es) (inr h) = Follows-cons ws es e (Follows-tail w ws es h)

-- Where the whole cycle is still to come, so is every end of it.
Follows-ends :
    (es : List SafeLoopEvent)
    → Follows whole_cycle es
    → Follows (remaining probing) es
      × Follows (remaining applying) es
      × Follows (remaining dwell) es
Follows-ends es h =
    let one = Follows-tail start_probe (remaining probing) es h in
    let two = Follows-tail applied (remaining applying) es one in
    (one, two, Follows-tail enter_dwell (remaining dwell) es two)

-- Whatever is still to come after a step was to come before it, with at most one event more.
Follows-step :
    (s : SafeLoopState) (e : SafeLoopEvent) (es : List SafeLoopEvent)
    → Follows (remaining (transition s e)) es
    → Follows (remaining s) (e ∷ es)
unfolding transition
Follows-step idle start_probe es h = inl (refl, h)
Follows-step _ _ es h = ground (arith, Follows-ends es)

Follows-run :
    (s : SafeLoopState) (es : List SafeLoopEvent) → run s es ≡ validated → Follows (remaining s) es
unfolding run
Follows-run validated [] h = tt
Follows-run _ [] h = cc
Follows-run s (e ∷ es) h = Follows-step s e es (Follows-run (transition s e) es h)

-- Whatever events are fed to an idle loop: if it ends validated, then a probe was started, its point
-- applied, the dwell entered and the dwell passed, in this order.
pub validated_needs_cycle :
    (es : List SafeLoopEvent) → run idle es ≡ validated → Follows whole_cycle es
validated_needs_cycle es h = Follows-run idle es h

-- Safe Mode is left by a reset or by a report of a hard crash, and by nothing else.
pub safe_mode_latched :
    (es : List SafeLoopEvent) → (run safe_mode es ≡ safe_mode) ⊎ (In reset es ⊎ In hard_crash es)
unfolding run transition
safe_mode_latched [] = inl refl
safe_mode_latched (reset ∷ es) = inr (inl (inl refl))
safe_mode_latched (hard_crash ∷ es) = inr (inr (inl refl))
safe_mode_latched (e ∷ es) = ground (arith, safe_mode_latched es)
