-- ===== src/Word/Digits.antt =====
-- The native operators are recursions on binary digits with fuel; here is one step without fuel.
use Prim.Native.Nat.{digits, bit_and-bitwise, bit_or-bitwise}
use bright_s.Base.{
  ℕ, zero, suc, ◌+◌, ◌*◌, ◌/◌, ◌%◌, ◌≤◌, min, max, bit_and, bit_or, ◌≡◌, refl, arith,
}

module _ (left : ℕ → ℕ) (join : ℕ → ℕ → ℕ) where
  -- Any two fuels that cover the first operand agree.
  enough :
      (fuel more x y : ℕ)
      → x ≤ fuel
      → x ≤ more
      → digits left join fuel x y ≡ digits left join more x y
  enough zero zero x y h k = refl
  enough zero (suc more) zero y h k = refl
  enough zero (suc more) (suc x) y h k = absurd (omega arith)
  enough (suc fuel) zero zero y h k = refl
  enough (suc fuel) zero (suc x) y h k = absurd (omega arith)
  enough (suc fuel) (suc more) zero y h k = refl
  enough (suc fuel) (suc more) (suc x) y h k =
      rw (enough fuel more (suc x / 2) (y / 2) (omega arith) (omega arith)) refl

  one_digit :
      (x y : ℕ)
      → digits left join (suc x) (suc x) y
        ≡ digits left join (suc x / 2) (suc x / 2) (y / 2) * 2 + join (suc x % 2) (y % 2)
  one_digit x y =
      omega (arith, enough x (suc x / 2) (suc x / 2) (y / 2) (omega arith) (omega arith))

pub bit_and_step : (x y : ℕ) → bit_and x y ≡ bit_and (x / 2) (y / 2) * 2 + min (x % 2) (y % 2)
bit_and_step zero y = omega (arith, bit_and-bitwise 0 y, bit_and-bitwise 0 (y / 2))
bit_and_step (suc x) y = simp bit_and-bitwise (one_digit (λ r. 0) min x y)

pub bit_or_step : (x y : ℕ) → bit_or x y ≡ bit_or (x / 2) (y / 2) * 2 + max (x % 2) (y % 2)
bit_or_step zero y = omega (arith, bit_or-bitwise 0 y, bit_or-bitwise 0 (y / 2))
bit_or_step (suc x) y = simp bit_or-bitwise (one_digit (λ r. r) max x y)
