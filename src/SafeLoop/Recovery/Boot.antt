-- ===== src/SafeLoop/Recovery/Boot.antt =====
-- One boot of `crates/core/src/safe_loop.rs`: what `decide_recovery` and `apply_recovery` do to the
-- record and which point they hand to the hardware.
use nidavellir.Shared.{
  u32_max, ◌||◌, ◌≤◌, ◌<◌, ◌≡◌, ◌⊎◌, true, false, Option, none, some, arith, List, [], ◌∷◌, ◌++◌,
  any, any-append,
}
use nidavellir.Shared.Int.{pos}
use nidavellir.SafeLoop.Point.{TuningPoint, stock, BlacklistRegion, around, contains}
use nidavellir.SafeLoop.Point.Region.{contains_self}
use nidavellir.SafeLoop.Phase.{safe_mode}
use nidavellir.SafeLoop.Bugcheck.{CrashClass}
use nidavellir.SafeLoop.Record.{SafeLoopRecord, is_blacklisted, recovery_target}
use nidavellir.SafeLoop.Recovery.{
  BootFlag, counts, count_crash, boot, decide_recovery, apply_recovery,
}

-- A boot hands the hardware the stock point or the last validated one, never any other.
pub boot_target :
    (flag : Option BootFlag) (bugcheck : CrashClass) (r : SafeLoopRecord)
    → ((boot flag bugcheck r).1 ≡ stock) ⊎ (r.last_validated ≡ some (boot flag bugcheck r).1)
unfolding boot recovery_target decide_recovery apply_recovery
boot_target none bugcheck r = ground arith
boot_target (some flag) bugcheck r = ground arith

-- The crash streak, a u32, counts exactly the armed boots that are not a supervised probe's own
-- crash.
pub boot_streak :
    (flag : BootFlag) (bugcheck : CrashClass) (r : SafeLoopRecord)
    → r.consecutive_crashes ≤ u32_max
    → (boot (some flag) bugcheck r).0.consecutive_crashes
      ≡ count_crash (counts flag bugcheck) r.consecutive_crashes
unfolding boot decide_recovery apply_recovery
boot_streak flag bugcheck r small = ground arith

-- A region added behind the others is found.
any-contains_new :
    (regions : List BlacklistRegion) (c p : TuningPoint)
    → any (λ region. contains region p) (regions ++ around c (pos 1) ∷ [])
      ≡ (any (λ region. contains region p) regions || (contains (around c (pos 1)) p || false))
any-contains_new regions c p =
    any-append (λ region. contains region p) regions (around c (pos 1) ∷ [])

-- A boot forgets no region.
pub boot-is_blacklisted :
    (flag : Option BootFlag) (bugcheck : CrashClass) (r : SafeLoopRecord) (p : TuningPoint)
    → is_blacklisted r p ≡ true
    → is_blacklisted (boot flag bugcheck r).0 p ≡ true
unfolding boot is_blacklisted decide_recovery apply_recovery
boot-is_blacklisted none bugcheck r p h = ground arith
boot-is_blacklisted (some flag) bugcheck r p h =
    ground (arith, any-contains_new r.blacklist flag.intent p)

-- A crash that does not trip Safe Mode leaves its point blacklisted, and recedes to the last
-- validated point or to stock.
pub crash-is_blacklisted :
    (flag : BootFlag) (bugcheck : CrashClass) (r : SafeLoopRecord)
    → (counts flag bugcheck ≡ false) ⊎ (r.consecutive_crashes < 2)
    → let (after, target) = boot (some flag) bugcheck r in
      (is_blacklisted after flag.intent ≡ true)
      × (target ≡ recovery_target r)
      × (after.safe_mode ≡ r.safe_mode)
unfolding boot is_blacklisted decide_recovery apply_recovery
crash-is_blacklisted flag bugcheck r h =
    ground
      (arith, any-contains_new r.blacklist flag.intent flag.intent, contains_self flag.intent 1)

-- The crash that trips Safe Mode: stock is applied, the latch is set, and neither the region of the
-- crashed point nor the class of the crash is recorded.
pub crash_trips :
    (flag : BootFlag) (bugcheck : CrashClass) (r : SafeLoopRecord)
    → counts flag bugcheck ≡ true
    → 2 ≤ r.consecutive_crashes
    → let (after, target) = boot (some flag) bugcheck r in
      (after.safe_mode ≡ true)
      × (after.state ≡ safe_mode)
      × (target ≡ stock)
      × (after.blacklist ≡ r.blacklist)
      × (after.crash_log ≡ r.crash_log)
unfolding boot decide_recovery apply_recovery
crash_trips flag bugcheck r c h = ground arith

-- A boot with no armed flag counts no crash, learns nothing, and changes the phase alone; it hands the
-- hardware the stock point, unless Safe Mode is off, no incident is pending, and the point is the last
-- validated one.
pub clean_boot :
    (bugcheck : CrashClass) (r : SafeLoopRecord)
    → let (after, target) = boot none bugcheck r in
      (after ≡ record r { state = after.state })
      × ((target ≡ stock)
          ⊎ ((r.safe_mode ≡ false)
              × (r.pending_forge_incident ≡ none)
              × (r.last_validated ≡ some target)))
unfolding boot decide_recovery apply_recovery
clean_boot bugcheck r = ground arith

-- A crash of the last validated point itself that does not trip Safe Mode recedes to that same
-- point, although the boot has just blacklisted it.
pub recedes_to_crashed :
    (flag : BootFlag) (bugcheck : CrashClass) (r : SafeLoopRecord)
    → (counts flag bugcheck ≡ false) ⊎ (r.consecutive_crashes < 2)
    → r.last_validated ≡ some flag.intent
    → let (after, target) = boot (some flag) bugcheck r in
      (target ≡ flag.intent) × (is_blacklisted after target ≡ true)
unfolding recovery_target
recedes_to_crashed flag bugcheck r h e =
    let learned = crash-is_blacklisted flag bugcheck r h in
    let same : (boot (some flag) bugcheck r).1 ≡ flag.intent = ground arith in
    (same, rw same learned.0)
