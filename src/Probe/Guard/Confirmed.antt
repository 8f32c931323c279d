-- ===== src/Probe/Guard/Confirmed.antt =====
-- A write that is let through, `confirmed_f2_refusal` of `crates/service/src/gpu_undervolt.rs`.
use nidavellir.Shared.{
  ℕ, ltb, leb, ◌≤◌, ◌<◌, ◌≡◌, ◌↔◌, refl, sym, Bool, true, false, not, Option, none, some, none-some,
  if◌then◌else◌, arith, false-true,
}
use nidavellir.Shared.Int.{ℤ, pos, leb_ℤ}
use nidavellir.SafeLoop.Record.{SafeLoopRecord}
use nidavellir.SafeLoop.Recovery.{safe_mode_crash_threshold}
use nidavellir.VfCurve.Bounded.{PositiveOffsetLimits, PositiveOffsetPlan}
use nidavellir.Probe.Guard.{
  F2Refusal, single_step_only, safe_mode_active, boot_flag_already_armed, blacklisted_intent,
  too_many_crashes, not_positive, above_absolute_cap, above_step_cap, below_hardware_floor,
  above_clock_ceiling, is_one, ltb_ℤ, candidate_blacklisted, confirmed_f2_refusal,
}

-- One guard before the rest.
guard_iff :
    {P Q : Type 0} {rest : Option F2Refusal} (b : Bool) (why : F2Refusal)
    → (b ≡ false) ↔ Q
    → (rest ≡ none) ↔ P
    → ((if b then some why else rest) ≡ none) ↔ (Q × P)
guard_iff true why q p =
    (λ h. absurd (none-some why (sym h)), λ h. absurd (false-true (sym (q.1 h.0))))
guard_iff false why q p = (λ h. (q.0 refl, p.0 h), λ h. p.1 h.1)

last_iff :
    {Q : Type 0} (b : Bool) (why : F2Refusal)
    → (b ≡ false) ↔ Q
    → ((if b then some why else none) ≡ none) ↔ Q
last_iff true why q = (λ h. absurd (none-some why (sym h)), λ h. absurd (false-true (sym (q.1 h))))
last_iff false why q = (λ h. q.0 refl, λ h. refl)

same : (b : Bool) → (b ≡ false) ↔ (b ≡ false)
same b = (λ h. h, λ h. h)

one_iff : (n : ℕ) → (not (is_one (some n)) ≡ false) ↔ (n ≡ 1)
one_iff n = ground arith

leb_iff : (a b : ℕ) → (leb a b ≡ false) ↔ (b < a)
leb_iff a b = ground arith

ltb_iff : (a b : ℕ) → (ltb a b ≡ false) ↔ (b ≤ a)
ltb_iff a b = ground arith

not_iff : (b : Bool) → (not b ≡ false) ↔ (b ≡ true)
not_iff true = (λ h. refl, λ h. refl)
not_iff false = (λ h. sym h, λ h. sym h)

ltb_ℤ_iff : (a b : ℤ) → (ltb_ℤ a b ≡ false) ↔ (leb_ℤ b a ≡ true)
ltb_ℤ_iff a b = not_iff (leb_ℤ b a)

-- A single confirmed write of a candidate is let through exactly when one step is asked for, Safe Mode is
-- off, no boot flag is armed, there were fewer crashes than the threshold, the offset is a raise within
-- the caps, the bin is not below the floor nor the clock above the ceiling, and the candidate is not
-- blacklisted.
pub confirmed_iff :
    (rec : SafeLoopRecord) (boot_flag_armed : Bool) (n : ℕ) (cand : PositiveOffsetPlan)
    (limits : PositiveOffsetLimits) (target_mhz : ℕ)
    → (confirmed_f2_refusal rec boot_flag_armed (some n) (some cand) limits target_mhz ≡ none) ↔ (
        (n ≡ 1)
        × ((rec.safe_mode ≡ false)
            × ((boot_flag_armed ≡ false)
                × ((rec.consecutive_crashes < safe_mode_crash_threshold)
                    × ((leb_ℤ cand.offset_mhz (pos 0) ≡ false)
                        × ((leb_ℤ cand.offset_mhz limits.abs_max_offset_mhz ≡ true)
                            × ((leb_ℤ cand.step_delta_mhz limits.step_max_offset_mhz ≡ true)
                                × ((limits.hw_floor_mv ≤ cand.voltage_mv)
                                    × ((cand.effective_mhz ≤ limits.clock_ceiling_mhz)
                                        × (candidate_blacklisted rec target_mhz cand
                                            ≡ false))))))))))
unfolding confirmed_f2_refusal
confirmed_iff rec boot_flag_armed n cand limits target_mhz =
    guard_iff (not (is_one (some n))) (single_step_only (some n)) (one_iff n) (
      guard_iff rec.safe_mode safe_mode_active (same rec.safe_mode) (
        guard_iff boot_flag_armed boot_flag_already_armed (same boot_flag_armed) (
          guard_iff (leb safe_mode_crash_threshold rec.consecutive_crashes)
            (too_many_crashes rec.consecutive_crashes)
            (leb_iff safe_mode_crash_threshold rec.consecutive_crashes)
            (guard_iff (leb_ℤ cand.offset_mhz (pos 0)) (not_positive cand.offset_mhz)
              (same (leb_ℤ cand.offset_mhz (pos 0)))
              (guard_iff (ltb_ℤ limits.abs_max_offset_mhz cand.offset_mhz)
                (above_absolute_cap cand.offset_mhz)
                (ltb_ℤ_iff limits.abs_max_offset_mhz cand.offset_mhz)
                (guard_iff (ltb_ℤ limits.step_max_offset_mhz cand.step_delta_mhz)
                  (above_step_cap cand.step_delta_mhz)
                  (ltb_ℤ_iff limits.step_max_offset_mhz cand.step_delta_mhz)
                  (guard_iff (ltb cand.voltage_mv limits.hw_floor_mv)
                    (below_hardware_floor cand.voltage_mv)
                    (ltb_iff cand.voltage_mv limits.hw_floor_mv)
                    (guard_iff (ltb limits.clock_ceiling_mhz cand.effective_mhz)
                      (above_clock_ceiling cand.effective_mhz)
                      (ltb_iff limits.clock_ceiling_mhz cand.effective_mhz)
                      (last_iff (candidate_blacklisted rec target_mhz cand) blacklisted_intent
                        (same (candidate_blacklisted rec target_mhz cand)))))))))))
