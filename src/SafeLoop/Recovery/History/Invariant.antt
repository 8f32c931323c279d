-- ===== src/SafeLoop/Recovery/History/Invariant.antt =====
-- What holds of every record that the program can reach.
use nidavellir.Shared.{
  ℕ, sym, subst, unwrap_or, length-drop, length-append, leb→le, ◌≤◌, ◌<◌, ◌≡◌, leb, String, drop,
  false, List, [], ◌∷◌, Option, none, some, arith, length, any, Bool-cases, Option-cases, inl, inr,
  u32_max,
}
use nidavellir.SafeLoop.Bugcheck.{CrashClass}
use nidavellir.SafeLoop.Record.{
  ForgeIncident, SafeLoopRecord, mark_validated, clear_recovery_latch, record_forge_incident,
  default_record, is_duplicate, acknowledge_forge_incident,
}
use nidavellir.SafeLoop.Record.Capped.{length-push_capped}
use nidavellir.SafeLoop.Record.Incidents.{
  AreDistinct, AreDistinct-snoc, AreDistinct-drop, any-drop, has_id, fresh_id,
  AreDistinct-push_capped, AreDistinct-acknowledge_stored, length-acknowledge_stored,
}
use nidavellir.SafeLoop.Point.{TuningPoint}
use nidavellir.F2.Bridge.{PowerSweepPoint}
use nidavellir.SafeLoop.Learning.{
  Stamp, is_reported, learn_point, learn_field_failure, add_operator_incident, push_dropping_one,
  operator_incident, record_operator_field_failure, strip_gpu_vf_blacklist, field_intent, target_of,
  anchor_of_point,
}
use nidavellir.SafeLoop.Recovery.{decide_recovery, apply_recovery, BootFlag, boot}
use nidavellir.SafeLoop.Recovery.History.{
  Op, validate, clear_latch, report, acknowledge_pending, restart, learn, field_failure,
  operator_failure, clean_run, full_reset, step, run,
}

pub record IsValid (r : SafeLoopRecord) : Type 0 where
  pub streak_below : r.safe_mode ≡ false → r.consecutive_crashes < 3
  pub streak_fits : r.consecutive_crashes ≤ u32_max
  pub log_capped : length r.crash_log ≤ 32
  pub incidents_capped : length r.forge_incidents ≤ 64
  pub distinct : AreDistinct r.forge_incidents

pub default_record-IsValid : IsValid default_record
unfolding default_record
default_record-IsValid = ground arith

boot-IsValid :
    (flag : Option BootFlag) (bugcheck : CrashClass) (r : SafeLoopRecord)
    → IsValid r
    → IsValid (boot flag bugcheck r).0
unfolding boot decide_recovery apply_recovery
boot-IsValid none bugcheck r v = ground arith
boot-IsValid (some flag) bugcheck r v = ground (arith, length-push_capped r.crash_log bugcheck 32)

report-IsValid :
    (r : SafeLoopRecord) (i : ForgeIncident) → IsValid r → IsValid (record_forge_incident r i).0
unfolding record_forge_incident
report-IsValid r i v = elim (Bool-cases (any (is_duplicate i) r.forge_incidents)) [
  | inl known ↦ rw known v
  | inr new ↦ rw new (record {
    streak_below = v.streak_below;
    streak_fits = v.streak_fits;
    log_capped = v.log_capped;
    incidents_capped = (length-push_capped r.forge_incidents i 64).0;
    distinct =
        AreDistinct-push_capped r.forge_incidents i 64 v.distinct
          (fresh_id r.forge_incidents i new);
  })
]

acknowledge-IsValid : (r : SafeLoopRecord) → IsValid r → IsValid (acknowledge_forge_incident r).0
unfolding acknowledge_forge_incident
acknowledge-IsValid r v = elim (Option-cases r.pending_forge_incident) [
  | inl none_pending ↦ ground arith
  | inr (i, pending) ↦ ground (
    arith,
    AreDistinct-acknowledge_stored i.id r.forge_incidents v.distinct,
    length-acknowledge_stored i.id r.forge_incidents,
  )
]

learn_point-IsValid :
    (r : SafeLoopRecord) (point : TuningPoint) → IsValid r → IsValid (learn_point r point)
unfolding learn_point
learn_point-IsValid r point v = ground arith

forge_incidents-learn_point :
    (r : SafeLoopRecord) (point : TuningPoint)
    → (learn_point r point).forge_incidents ≡ r.forge_incidents
unfolding learn_point
forge_incidents-learn_point r point = ground arith

length-push_dropping_one :
    (is : List ForgeIncident) (i : ForgeIncident)
    → length is ≤ 64
    → length (push_dropping_one is i) ≤ 64
unfolding push_dropping_one
length-push_dropping_one is i h = elim (Bool-cases (leb 64 (length is))) [
  | inl full ↦
      let shorter = length-drop 1 is in
      let longer = length-append (drop 1 is) (i ∷ []) in
      rw full (omega (arith, leb→le 64 (length is) full, shorter, longer))
  | inr free ↦
      let longer = length-append is (i ∷ []) in
      rw free (omega (arith, has_room 64 (length is) free, longer))
]
  where
    has_room : (a b : ℕ) → leb a b ≡ false → b < a
    has_room a b e = ground arith

AreDistinct-push_dropping_one :
    (is : List ForgeIncident) (i : ForgeIncident)
    → any (has_id i.id) is ≡ false
    → AreDistinct is
    → AreDistinct (push_dropping_one is i)
unfolding push_dropping_one
AreDistinct-push_dropping_one is i new d = elim (Bool-cases (leb 64 (length is))) [
  | inl full ↦
      rw full
        (AreDistinct-snoc (drop 1 is) i (AreDistinct-drop 1 is d) (any-drop (has_id i.id) 1 is new))
  | inr free ↦ rw free (AreDistinct-snoc is i d new)
]

operator-IsValid :
    (r : SafeLoopRecord) (gpu_key : String) (i : ForgeIncident)
    → any (has_id i.id) r.forge_incidents ≡ false
    → IsValid r
    → IsValid (add_operator_incident r gpu_key i)
operator-IsValid r gpu_key i new v =
    let reported = is_reported gpu_key (unwrap_or i.target_mhz 0) (unwrap_or i.anchor_mv 0) in
    elim (Bool-cases (any reported r.forge_incidents)) [
      | inl known ↦ rw known v
      | inr first ↦ rw first (record {
        streak_below = v.streak_below;
        streak_fits = v.streak_fits;
        log_capped = v.log_capped;
        incidents_capped = length-push_dropping_one r.forge_incidents i v.incidents_capped;
        distinct = AreDistinct-push_dropping_one r.forge_incidents i new v.distinct;
      })
    ]

failure-IsValid :
    (r : SafeLoopRecord) (point : PowerSweepPoint) (run_id : Option String) (gpu_key : String)
    (stamp : Stamp)
    → any (has_id stamp.id) r.forge_incidents ≡ false
    → IsValid r
    → IsValid (record_operator_field_failure r point run_id gpu_key stamp)
unfolding record_operator_field_failure
failure-IsValid r point run_id gpu_key stamp new v =
    let learned = learn_point r (field_intent point) in
    let i = operator_incident stamp run_id gpu_key (target_of point) (anchor_of_point point) in
    let same : learned.forge_incidents ≡ r.forge_incidents =
      forge_incidents-learn_point r (field_intent point) in
    let added =
      operator-IsValid learned gpu_key i
        (subst (λ is. any (has_id stamp.id) is ≡ false) (sym same) new)
        (learn_point-IsValid r (field_intent point) v) in
    record {
      streak_below = added.streak_below;
      streak_fits = added.streak_fits;
      log_capped = added.log_capped;
      incidents_capped = added.incidents_capped;
      distinct = added.distinct;
    }

-- The id of an operator's report is new where the report is made: it holds the time in nanoseconds.
abbrev pub HasFreshId : SafeLoopRecord → Op → Type 0
HasFreshId r (operator_failure point run_id gpu_key stamp) =
    any (has_id stamp.id) r.forge_incidents ≡ false
HasFreshId r op = Unit

abbrev pub HaveFreshIds : SafeLoopRecord → List Op → Type 0
HaveFreshIds r [] = Unit
HaveFreshIds r (op ∷ ops) = HasFreshId r op × HaveFreshIds (step r op) ops

-- Every operation, in every record, keeps the invariant: out of Safe Mode fewer than three crashes
-- are on the streak, the histories stay within their caps, and no incident is stored twice. The id of an
-- operator's report is new.
pub step-IsValid :
    (r : SafeLoopRecord) (op : Op) → HasFreshId r op → IsValid r → IsValid (step r op)
unfolding step
step-IsValid r (validate point) f v = unfold mark_validated in ground arith
step-IsValid r clear_latch f v = unfold clear_recovery_latch in ground arith
step-IsValid r (report i) f v = report-IsValid r i v
step-IsValid r acknowledge_pending f v = acknowledge-IsValid r v
step-IsValid r (restart flag bugcheck) f v = boot-IsValid flag bugcheck r v
step-IsValid r (learn point) f v = learn_point-IsValid r point v
step-IsValid r (field_failure target_mhz failed_mv) f v = unfold learn_field_failure in ground arith
step-IsValid r (operator_failure point run_id gpu_key stamp) f v =
    failure-IsValid r point run_id gpu_key stamp f v
step-IsValid r clean_run f v = unfold strip_gpu_vf_blacklist in ground arith
step-IsValid r full_reset f v = default_record-IsValid

-- Every sequence of operations keeps the invariant of the record: out of Safe Mode fewer than three
-- crashes are on the streak, the histories stay within their caps, and no incident is stored twice. The
-- operations are those of the Safe Loop and those of the service, the operator's report, the clean run and
-- the full reset included; the id of an operator's report is new.
pub run-IsValid :
    (r : SafeLoopRecord) (ops : List Op) → HaveFreshIds r ops → IsValid r → IsValid (run r ops)
unfolding run
run-IsValid r [] f v = v
run-IsValid r (op ∷ ops) f v = run-IsValid (step r op) ops f.1 (step-IsValid r op f.0 v)
