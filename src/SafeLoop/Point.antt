-- ===== src/SafeLoop/Point.antt =====
-- `TuningPoint` and `BlacklistRegion` of `crates/core/src/safe_loop.rs`. Axis values and radii are
-- i64; a difference that leaves that range wraps, as in a release build.
pub mod Region
use nidavellir.Shared.{
  ◌==◌, String, Bool, true, false, ◌&&◌, List, [], ◌∷◌, ◌++◌, if◌then◌else◌, unwrap_or,
}
use nidavellir.Shared.Int.{ℤ, pos, negsuc, ◌-ℤ◌, leb_ℤ, wrap_i64, abs_i64}
use nidavellir.Shared.Dict.{Dict, lookup, insert, keys}

-- Axis name to setting. `BTreeMap` keeps the entries in the order of their keys; no operation here
-- observes the order.
pub record TuningPoint : Type 0 where
  pub axes : Dict ℤ

unfoldable pub stock : TuningPoint
stock = record { axes = [] }

-- `into_iter().collect()`: a later entry replaces an earlier one of the same key.
collect : Dict ℤ → List (String × ℤ) → Dict ℤ
collect m [] = m
collect m ((k, v) ∷ r) = collect (insert k v m) r

unfoldable pub from_axes : List (String × ℤ) → TuningPoint
unfolding collect insert
from_axes entries = record { axes = collect [] entries }

abbrev is_zero : ℤ → Bool
is_zero (pos n) = n == 0
is_zero (negsuc n) = false

all_zero : Dict ℤ → Bool
all_zero [] = true
all_zero ((k, v) ∷ m) = is_zero v && all_zero m

unfoldable pub is_stock : TuningPoint → Bool
unfolding all_zero
is_stock p = all_zero p.axes

-- `self.axes.get(key).copied().unwrap_or(0)`
unfoldable pub axis : TuningPoint → String → ℤ
unfolding lookup
axis p k = unwrap_or (lookup k p.axes) (pos 0)

abbrev max_ℤ : ℤ → ℤ → ℤ
max_ℤ a b = if leb_ℤ a b then b else a

chebyshev_loop : TuningPoint → TuningPoint → List String → ℤ → ℤ
unfolding axis
chebyshev_loop a b [] best = best
chebyshev_loop a b (k ∷ ks) best =
    chebyshev_loop a b ks (max_ℤ best (abs_i64 (wrap_i64 (axis a k -ℤ axis b k))))

unfoldable pub chebyshev : TuningPoint → TuningPoint → ℤ
unfolding chebyshev_loop abs_i64 wrap_i64 ◌-ℤ◌
chebyshev a b = chebyshev_loop a b (keys a.axes ++ keys b.axes) (pos 0)

pub record BlacklistRegion : Type 0 where
  pub center : TuningPoint
  pub radius : ℤ

unfoldable pub around : TuningPoint → ℤ → BlacklistRegion
around c r = record { center = c; radius = r }

unfoldable pub contains : BlacklistRegion → TuningPoint → Bool
unfolding chebyshev
contains r p = leb_ℤ (chebyshev r.center p) r.radius
