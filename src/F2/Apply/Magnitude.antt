-- ===== src/F2/Apply/Magnitude.antt =====
-- Powers as bits of positive finite f32: `max_f32` takes the greater of two by `total_cmp`.
use nidavellir.Shared.{
  ℕ, ◌≤◌, ◌≡◌, refl, ◌⊎◌, inl, inr, leb, Bool, true, false, ◌&&◌, arith, Bool-cases,
}
use nidavellir.F2.Float.{is_finite, is_positive, is_nan, total_key, max_f32}
use nidavellir.F2.Apply.{is_power}

-- Bits of a number that is no NaN and whose sign is clear.
abbrev pub IsMagnitude : ℕ → Type 0
IsMagnitude bits = bits ≤ 2139095040

pub power-IsMagnitude : (bits : ℕ) → is_power bits ≡ true → IsMagnitude bits
power-IsMagnitude bits h = bound (is_finite bits) bits h
  where
    bound : (b : Bool) (bits : ℕ) → (b && is_positive bits) ≡ true → bits ≤ 2139095040
    bound b bits h = ground arith

magnitude-is_nan : (bits : ℕ) → IsMagnitude bits → is_nan bits ≡ false
magnitude-is_nan bits h = ground arith

pub magnitude-key : (x y : ℕ) → IsMagnitude x → IsMagnitude y → x ≤ y → total_key x ≤ total_key y
magnitude-key x y h k le = ground arith

-- One of the two, and none of them is greater.
abbrev pub IsMax : ℕ → ℕ → ℕ → Type 0
IsMax x y m = ((m ≡ x) ⊎ (m ≡ y)) × (total_key x ≤ total_key m) × (total_key y ≤ total_key m)

pub max_f32-IsMax : (x y : ℕ) → IsMagnitude x → IsMagnitude y → IsMax x y (max_f32 x y)
max_f32-IsMax x y h k = elim (Bool-cases (leb (total_key x) (total_key y))) [
  | inl up ↦
      rw (magnitude-is_nan x h, magnitude-is_nan y k, up)
        (inr refl, leb_le (total_key x) (total_key y) up, omega arith)
  | inr keep ↦
      rw (magnitude-is_nan x h, magnitude-is_nan y k, keep)
        (inl refl, omega arith, leb_gt (total_key x) (total_key y) keep)
]
  where
    leb_le : (a b : ℕ) → leb a b ≡ true → a ≤ b
    leb_le a b h = ground arith

    leb_gt : (a b : ℕ) → leb a b ≡ false → b ≤ a
    leb_gt a b h = ground arith
