-- ===== src/SafeLoop/Record.antt =====
-- `ForgeIncident` and `SafeLoopRecord` of `crates/core/src/safe_loop.rs`: a `&mut self` method
-- returns the new record, and its result where it has one.
pub mod Capped
pub mod Incidents
use nidavellir.Shared.{
  ℕ, ◌-◌, String, str_eq, Bool, true, false, ◌&&◌, ◌||◌, not, List, [], ◌∷◌, ◌++◌, Option, none,
  some, ltb, if◌then◌else◌, is_some, unwrap_or, any, find, length, drop,
}
use nidavellir.SafeLoop.Point.{TuningPoint, stock, BlacklistRegion, contains}
use nidavellir.SafeLoop.Phase.{SafeLoopState, idle, validated, unstable}
use nidavellir.SafeLoop.Bugcheck.{CrashClass}

pub data ForgeIncidentKind : Type 0 where
  candidate_crash unaccounted_restart operator_field_failure runtime_failure : ForgeIncidentKind

pub record ForgeIncident : Type 0 where
  pub id : String
  pub kind : ForgeIncidentKind
  pub detected_at : String
  pub run_id : Option String
  pub gpu_key : Option String
  pub target_mhz : Option ℕ
  pub anchor_mv : Option ℕ
  pub message : String
  pub acknowledged : Bool

pub record SafeLoopRecord : Type 0 where
  pub state : SafeLoopState
  pub consecutive_crashes : ℕ
  pub last_validated : Option TuningPoint
  pub blacklist : List BlacklistRegion
  pub safe_mode : Bool
  pub crash_log : List CrashClass
  pub pending_forge_incident : Option ForgeIncident
  pub forge_incidents : List ForgeIncident

-- `SafeLoopRecord::default`
unfoldable pub default_record : SafeLoopRecord
default_record = record {
  state = idle;
  consecutive_crashes = 0;
  last_validated = none;
  blacklist = [];
  safe_mode = false;
  crash_log = [];
  pending_forge_incident = none;
  forge_incidents = [];
}

-- `Vec::push`, then `drain` of what is over the cap at the front.
unfoldable pub push_capped {ℓ} : {A : Type ℓ} → List A → A → ℕ → List A
push_capped v item cap =
    let w = v ++ item ∷ [] in if ltb cap (length w) then drop (length w - cap) w else w

unfoldable pub is_blacklisted : SafeLoopRecord → TuningPoint → Bool
is_blacklisted r point = any (λ region. contains region point) r.blacklist

unfoldable pub mark_validated : SafeLoopRecord → TuningPoint → SafeLoopRecord
mark_validated r point = record r {
  last_validated = some point;
  consecutive_crashes = 0;
  state = validated;
}

unfoldable pub recovery_target : SafeLoopRecord → TuningPoint
unfolding stock
recovery_target r = unwrap_or r.last_validated stock

unfoldable pub clear_recovery_latch : SafeLoopRecord → SafeLoopRecord
clear_recovery_latch r = record r {
  safe_mode = false;
  consecutive_crashes = 0;
  state = if is_some r.pending_forge_incident then unstable else idle;
}

-- `==` on `Option<String>`
abbrev pub opt_eq : Option String → Option String → Bool
opt_eq none none = true
opt_eq (some a) (some b) = str_eq a b
opt_eq _ _ = false

abbrev pub is_duplicate : ForgeIncident → ForgeIncident → Bool
is_duplicate incident known =
    str_eq known.id incident.id || (is_some known.run_id && opt_eq known.run_id incident.run_id)

unfoldable pub record_forge_incident : SafeLoopRecord → ForgeIncident → SafeLoopRecord × Bool
record_forge_incident r incident =
    if any (is_duplicate incident) r.forge_incidents then (r, false) else (
      record r {
        pending_forge_incident = some incident;
        forge_incidents = push_capped r.forge_incidents incident 64;
        state = if not r.safe_mode then unstable else r.state;
      },
      true,
    )

abbrev pub acknowledge : ForgeIncident → ForgeIncident
acknowledge i = record i { acknowledged = true }

-- `iter_mut().find(..)`, then the write to what it found.
unfoldable pub acknowledge_stored : String → List ForgeIncident → List ForgeIncident
acknowledge_stored key [] = []
acknowledge_stored key (i ∷ is) =
    if str_eq i.id key then acknowledge i ∷ is else i ∷ acknowledge_stored key is

unfoldable pub acknowledge_forge_incident : SafeLoopRecord → SafeLoopRecord × Option ForgeIncident
acknowledge_forge_incident r = elim r.pending_forge_incident [
  | none ↦ (r, none)
  | some incident ↦ (
    record r {
      pending_forge_incident = none;
      forge_incidents = acknowledge_stored incident.id r.forge_incidents;
      state = if not r.safe_mode then idle else r.state;
    },
    some (acknowledge incident),
  )
]
