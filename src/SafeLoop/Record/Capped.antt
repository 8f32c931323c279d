-- ===== src/SafeLoop/Record/Capped.antt =====
-- The bounded histories: `push_capped` of `crates/core/src/safe_loop.rs`.
use nidavellir.Shared.{
  ℕ, zero, suc, ◌+◌, ◌-◌, ◌≤◌, ◌<◌, ◌≡◌, refl, List, [], ◌∷◌, ◌++◌, some, arith, length, drop,
  last?, length-append, length-drop, last?-append,
}
use nidavellir.SafeLoop.Record.{push_capped}

module _ {ℓ} {A : Type ℓ} where
  -- A history never grows past its cap, and keeps all that fits.
  pub length-push_capped :
      (v : List A) (x : A) (cap : ℕ)
      → (length (push_capped v x cap) ≤ cap) × (length (push_capped v x cap) ≤ length v + 1)
  unfolding push_capped
  length-push_capped v x cap =
      let w = v ++ x ∷ [] in
      ground (arith, length-append v (x ∷ []), length-drop (length w - cap) w)

  last?-drop : (n : ℕ) (xs : List A) → n < length xs → last? (drop n xs) ≡ last? xs
  last?-drop zero xs h = refl
  last?-drop (suc n) [] h = elim h [ ]
  last?-drop (suc zero) (x ∷ []) h = absurd (omega arith)
  last?-drop (suc (suc n)) (x ∷ []) h = absurd (omega arith)
  last?-drop (suc n) (x ∷ y ∷ xs) h = last?-drop n (y ∷ xs) (omega arith)

  -- What was pushed last stands at the end.
  pub last?-push_capped :
      (v : List A) (x : A) (cap : ℕ) → 0 < cap → last? (push_capped v x cap) ≡ some x
  unfolding push_capped
  last?-push_capped v x cap h =
      let w = v ++ x ∷ [] in
      ground (arith, length-append v (x ∷ []), last?-drop (length w - cap) w, last?-append x v)
