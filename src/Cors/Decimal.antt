-- ===== src/Cors/Decimal.antt =====
-- `itoa` of middleware/cors.go: its buffer is large enough, and what it writes is the number.
use mv_chat.Prelude.{All, ℕ, suc, zero, ◌+◌, ◌-◌, ◌*◌, ◌≡◌, ◌≤◌, [], ◌∷◌, Text, codes}

-- The number that the digits after those of `acc` give.
abbrev pub value : ℕ → Text → ℕ
value acc [] = acc
value acc (c ∷ rest) = value (acc * 10 + (c - b'0')) rest

abbrev pub IsDigit : ℕ → Type 0
IsDigit c = (b'0' ≤ c) × (c ≤ b'9')

-- Digits without zeros in front.
abbrev pub IsCanonical : Text → Type 0
IsCanonical [] = Unit
IsCanonical (c ∷ rest) = IsDigit c × (b'1' ≤ c) × All IsDigit rest

-- The decimal text of a number.
abbrev pub IsDecimal : ℕ → Text → Type 0
IsDecimal zero t = t ≡ codes "0"
IsDecimal (suc n) t = (value 0 t ≡ suc n) × IsCanonical t

abbrev pow10 : ℕ → ℕ
pow10 zero = 1
pow10 (suc k) = 10 * pow10 k
