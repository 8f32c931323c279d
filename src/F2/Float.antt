-- ===== src/F2/Float.antt =====
-- Floating-point numbers by their bits. What `crates/core/src/f2_observation.rs` asks of an f32 (is it
-- finite, is it above 0, `total_cmp`, `max`, a cast from u32) is computed on the bits; f64 arithmetic is
-- a parameter.
use nidavellir.Shared.{
  ℕ, zero, suc, ◌+◌, ◌-◌, ◌*◌, ◌/◌, ◌%◌, ◌^◌, ◌==◌, ltb, leb, Bool, not, ◌&&◌, ◌||◌, if◌then◌else◌,
}

-- The exponent is not all ones.
abbrev pub is_finite : ℕ → Bool
is_finite bits = not ((bits / 8388608) % 256 == 255)

-- `x > 0.0`: the sign is clear, the value is not 0 and no NaN.
abbrev pub is_positive : ℕ → Bool
is_positive bits = ltb 0 bits && leb bits 2139095040

abbrev pub is_nan : ℕ → Bool
is_nan bits = ltb 2139095040 (bits % 2147483648)

-- The place of a value in the order of `total_cmp`.
abbrev pub total_key : ℕ → ℕ
total_key bits = if ltb bits 2147483648 then 2147483648 + bits else 4294967295 - bits

-- `f32::max`
abbrev pub max_f32 : ℕ → ℕ → ℕ
max_f32 x y =
    if is_nan x then y else if is_nan y then x else if leb (total_key x) (total_key y) then y else x

-- The place of the highest bit, for a number of at most `fuel` bits above the lowest.
abbrev pub top_bit : ℕ → ℕ → ℕ
top_bit zero n = 0
top_bit (suc fuel) n = let rest = top_bit fuel (n / 2) in if ltb n 2 then 0 else suc rest

abbrev round_up : ℕ → ℕ → ℕ → ℕ
round_up q r half = if ltb half r || (r == half && q % 2 == 1) then q + 1 else q

-- The 24 leading bits, rounded to the nearest and at a tie to the even one.
abbrev mantissa : ℕ → ℕ → ℕ
mantissa n e =
    if leb e 23
    then n * 2 ^ (23 - e)
    else round_up (n / 2 ^ (e - 23)) (n % 2 ^ (e - 23)) (2 ^ (e - 24))

-- `n as f32`, for a u32.
abbrev pub u32_as_f32 : ℕ → ℕ
u32_as_f32 n =
    let e = top_bit 31 n in if n == 0 then 0 else (e + 127) * 8388608 + mantissa n e - 8388608

-- f64 arithmetic, on bits.
pub record F64 : Type 0 where
  pub of_int : ℕ → ℕ
  pub of_f32 : ℕ → ℕ
  pub add : ℕ → ℕ → ℕ
  pub sub : ℕ → ℕ → ℕ
  pub mul : ℕ → ℕ → ℕ
  pub div : ℕ → ℕ → ℕ
  pub powf : ℕ → ℕ → ℕ
  pub minimum : ℕ → ℕ → ℕ
  pub at_most : ℕ → ℕ → Bool
  pub literal_0_15 : ℕ
  pub literal_0_99 : ℕ
