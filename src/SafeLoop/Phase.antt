-- ===== src/SafeLoop/Phase.antt =====
-- The phases of the loop and `transition`, in `crates/core/src/safe_loop.rs`.
pub mod Traces
use nidavellir.Shared.{List, [], ◌∷◌}

pub data SafeLoopState : Type 0 where
  idle probing applying dwell validated unstable safe_mode : SafeLoopState

pub data SafeLoopEvent : Type 0 where
  start_probe applied enter_dwell dwell_passed soft_fail hard_crash trip_safe_mode reset :
      SafeLoopEvent

-- The arms of the `match` in order; the last clause leaves the state as it is.
unfoldable pub transition : SafeLoopState → SafeLoopEvent → SafeLoopState
transition s trip_safe_mode = safe_mode
transition s reset = idle
transition s hard_crash = unstable
transition idle start_probe = probing
transition probing applied = applying
transition applying enter_dwell = dwell
transition dwell dwell_passed = validated
transition dwell soft_fail = unstable
transition validated start_probe = probing
transition unstable start_probe = probing
transition s e = s

-- A sequence of events, fed one after the other.
unfoldable pub run : SafeLoopState → List SafeLoopEvent → SafeLoopState
run s [] = s
run s (e ∷ es) = run (transition s e) es
