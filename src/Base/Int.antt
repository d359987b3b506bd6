-- ===== src/Base/Int.antt =====
-- Signed integers, and the conversion of a long to a 32-bit int.
use dhttp.Base.{ℕ, ◌+◌, ◌-◌, ◌%◌, ◌^◌, Bool, true, false, ltb, leb, if◌then◌else◌, ◌==◌}

-- `negsuc n` is -(n + 1).
pub data ℤ : Type 0 where
  pos : ℕ → ℤ
  negsuc : ℕ → ℤ

abbrev pub negate : ℕ → ℤ
negate n = if n == 0 then pos 0 else negsuc (n - 1)

-- the bit pattern of the low 32 bits
unfoldable pub low_32 : ℤ → ℕ
low_32 (pos n) = n % 2 ^ 32
low_32 (negsuc n) = 2 ^ 32 - 1 - n % 2 ^ 32

-- the value that an `int` with these bits has
unfoldable pub to_int : ℤ → ℤ
unfolding low_32
to_int z = let b = low_32 z in if ltb b (2 ^ 31) then pos b else negsuc (2 ^ 32 - 1 - b)

-- an integer less a natural number
abbrev pub minus : ℤ → ℕ → ℤ
minus (pos a) n = if leb n a then pos (a - n) else negsuc (n - a - 1)
minus (negsuc a) n = negsuc (a + n)

abbrev pub is_negative : ℤ → Bool
is_negative (pos n) = false
is_negative (negsuc n) = true

-- the rounds of a loop that counts from 0 up to the number
abbrev pub rounds_to : ℤ → ℕ
rounds_to (pos n) = n
rounds_to (negsuc n) = 0
