-- ===== src/Condemnation/Event.antt =====
-- One line of the ledger: `CondemnationEvent` of `crates/core/src/condemnation.rs`.
use nidavellir.Shared.{ℕ, ◌==◌, String, str_eq, Bool, true, ◌&&◌, Option, none, some}

pub data CondemnationSeverity : Type 0 where
  rigid quarantine : CondemnationSeverity

pub record CondemnationEvent : Type 0 where
  pub timestamp : String
  pub gpu_key : Option String
  pub severity : CondemnationSeverity
  pub kind : String
  pub target_mhz : ℕ
  pub vf_bin_mv : ℕ
  pub run_id : Option String
  pub qualification_contract_version : Option ℕ
  pub note : Option String
  pub rehabilitated : Bool

-- `!e.gpu_key.as_deref().is_some_and(|k| k != gpu_key)`: an entry without a key matches every GPU.
abbrev pub matches_gpu : Option String → String → Bool
matches_gpu none gpu = true
matches_gpu (some k) gpu = str_eq k gpu

-- Whether a later entry cancels a pair on a GPU.
abbrev pub cancels : String → ℕ → ℕ → CondemnationEvent → Bool
cancels gpu mhz mv r =
    r.rehabilitated && r.target_mhz == mhz && r.vf_bin_mv == mv && matches_gpu r.gpu_key gpu
