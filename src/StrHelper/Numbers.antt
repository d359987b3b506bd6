-- ===== src/StrHelper/Numbers.antt =====
-- src/str_helper.c: what `str_to_num` makes of decimal text, and the flag of errno.
use dhttp.Base.{
  ℕ, ◌+◌, ◌-◌, ◌*◌, ◌^◌, ◌≤◌, ◌<◌, ◌≡◌, refl, arith, true, false, none, some, List, [], ◌∷◌, ltb,
  ◌==◌,
}
use dhttp.Base.Int.{pos, low_32, to_int}
use dhttp.StrHelper.{
  is_space, digit, read_digits, skip_space, signed, strtol, str_to_num, str_to_uint32,
}

-- nothing but decimal digits
abbrev pub IsDecimal : List ℕ → Type 0
IsDecimal [] = Unit {0}
IsDecimal (c ∷ s) = (b'0' ≤ c) × (c ≤ b'9') × IsDecimal s

-- the number that the digits stand for, after the number `acc`
abbrev pub decimal_value : ℕ → List ℕ → ℕ
decimal_value acc [] = acc
decimal_value acc (c ∷ s) = decimal_value (acc * 10 + (c - b'0')) s

digit_decimal : (c : ℕ) → b'0' ≤ c → c ≤ b'9' → digit c ≡ c - b'0'
unfolding digit
digit_decimal c h k = ground arith

read_digits-decimal :
    (s : List ℕ) (acc : ℕ)
    → IsDecimal s
    → read_digits 10 acc true s ≡ record { value = decimal_value acc s; any = true; rest = [] }
unfolding read_digits
read_digits-decimal [] acc h = refl
read_digits-decimal (c ∷ s) acc (lo, hi, h) =
    let small : ltb (c - b'0') 10 ≡ true = ground arith in
    rw (digit_decimal c lo hi, small) (read_digits-decimal s (acc * 10 + (c - b'0')) h)

to_int-small : (n : ℕ) → n < 2 ^ 31 → to_int (pos n) ≡ pos n
unfolding to_int low_32
to_int-small n h = ground arith

strtol-decimal :
    (c : ℕ) (s : List ℕ)
    → IsDecimal (c ∷ s)
    → decimal_value 0 (c ∷ s) < 2 ^ 63
    → strtol 10 (c ∷ s)
      ≡ record { value = pos (decimal_value 0 (c ∷ s)); erange = false; at_end = true }
unfolding strtol skip_space signed
strtol-decimal c s (lo, hi, h) small =
    let space : is_space c ≡ false = ground arith in
    let minus : (c == b'-') ≡ false = ground arith in
    let plus : (c == b'+') ≡ false = ground arith in
    let digit_of : ltb (c - b'0') 10 ≡ true = ground arith in
    let fits : ltb (decimal_value (0 * 10 + (c - b'0')) s) (2 ^ 63) ≡ true = ground arith in
    rw (
      space,
      minus,
      plus,
      digit_decimal c lo hi,
      digit_of,
      read_digits-decimal s (0 * 10 + (c - b'0')) h,
      fits,
    )

-- A text of decimal digits whose value fits an `int` is read as that value, unless errno was
-- ERANGE before.
pub str_to_num-decimal :
    (c : ℕ) (s : List ℕ)
    → IsDecimal (c ∷ s)
    → decimal_value 0 (c ∷ s) < 2 ^ 31
    → str_to_num false (c ∷ s) ≡ (false, some (pos (decimal_value 0 (c ∷ s))))
unfolding str_to_num
str_to_num-decimal c s h small = rw (strtol-decimal c s h (omega arith), to_int-small _ small)

-- Once errno is ERANGE every later conversion fails, whatever the text is, and the flag stays.
pub str_to_num_sticky :
    (str : List ℕ) → (str_to_num true str ≡ (true, none)) × (str_to_uint32 true str ≡ (true, none))
unfolding str_to_num str_to_uint32
str_to_num_sticky str = (refl, refl)
