-- ===== src/Word/Defs.antt =====
-- The word operations of the sources.
use bright_s.Base.{ℕ, zero, suc, ◌-◌, ◌/◌, ◌%◌, ◌^◌, Bool, not, ◌==◌, bit_and, bit_or}

-- The i-th binary digit of a word.
unfoldable pub bit : ℕ → ℕ → Bool
bit x zero = x % 2 == 1
bit x (suc i) = bit (x / 2) i

-- `~x` in a word of w bits.
abbrev pub complement : ℕ → ℕ → ℕ
complement w x = 2 ^ w - 1 - x

-- `x & (1 << i)` as a condition.
abbrev pub has_bit : ℕ → ℕ → Bool
has_bit x i = not (bit_and x (2 ^ i) == 0)

-- `x |= 1 << i`.
abbrev pub set_bit : ℕ → ℕ → ℕ
set_bit x i = bit_or x (2 ^ i)

-- `x &= ~(1 << i)` in a word of w bits.
abbrev pub clear_bit : ℕ → ℕ → ℕ → ℕ
clear_bit w x i = bit_and x (complement w (2 ^ i))
