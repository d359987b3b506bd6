-- ===== src/Resp/Digits.antt =====
-- src/resp.c and src/str_helper.c: a number that a response holds is read back by `str_to_num`.
use dhttp.Base.{
  ℕ, zero, suc, ◌+◌, ◌-◌, ◌*◌, ◌/◌, ◌%◌, ◌^◌, ◌≤◌, ◌<◌, ◌≡◌, refl, ap, ◌∙◌, arith, false,
  Bool-cases, inl, inr, some, List, [], ◌∷◌, ◌++◌, ltb,
}
use dhttp.Base.Int.{pos}
use dhttp.Resp.{digits}
use dhttp.StrHelper.Numbers.{IsDecimal, decimal_value, str_to_num-decimal}
use dhttp.StrHelper.{str_to_num}

decimal_value-append :
    (s : List ℕ) (acc c : ℕ)
    → decimal_value acc (s ++ c ∷ []) ≡ decimal_value acc s * 10 + (c - b'0')
decimal_value-append [] acc c = refl
decimal_value-append (d ∷ s) acc c = decimal_value-append s (acc * 10 + (d - b'0')) c

IsDecimal-append :
    (s : List ℕ) (c : ℕ) → IsDecimal s → b'0' ≤ c → c ≤ b'9' → IsDecimal (s ++ c ∷ [])
IsDecimal-append [] c h lo hi = (lo, hi, tt)
IsDecimal-append (d ∷ s) c (lo', hi', h) lo hi = (lo', hi', IsDecimal-append s c h lo hi)

digits-IsDecimal : (fuel n : ℕ) → IsDecimal (digits fuel n)
unfolding digits
digits-IsDecimal zero n = tt
digits-IsDecimal (suc fuel) n = elim (Bool-cases (ltb n 10)) [
  | inl small ↦ rw small (omega arith, ground arith, tt)
  | inr large ↦ rw large (
      IsDecimal-append (digits fuel (n / 10)) (b'0' + n % 10) (digits-IsDecimal fuel (n / 10))
        (omega arith) (omega arith))
]

-- `fuel` digits are enough below `10 ^ fuel`
decimal_value-digits : (fuel n : ℕ) → n < 10 ^ fuel → decimal_value 0 (digits fuel n) ≡ n
unfolding digits
decimal_value-digits zero n h = omega arith
decimal_value-digits (suc fuel) n h = elim (Bool-cases (ltb n 10)) [
  | inl small ↦ rw small (omega arith)
  | inr large ↦ rw large (
      decimal_value-append (digits fuel (n / 10)) 0 (b'0' + n % 10)
      ∙ omega (arith, decimal_value-digits fuel (n / 10) (omega arith)))
]

read_whole :
    (s : List ℕ) (n : ℕ)
    → 0 < n
    → IsDecimal s
    → decimal_value 0 s ≡ n
    → n < 2 ^ 31
    → str_to_num false s ≡ (false, some (pos n))
read_whole [] n p h e small = absurd (omega arith)
read_whole (c ∷ s) n p h e small =
    str_to_num-decimal c s h (omega arith) ∙ ap (λ m. (false, some (pos m))) e

-- A positive number of an int, written with "%d", is read back as itself unless errno was ERANGE.
pub str_to_num-digits :
    (n : ℕ) → 0 < n → n < 2 ^ 31 → str_to_num false (digits 10 n) ≡ (false, some (pos n))
str_to_num-digits n p small =
    read_whole (digits 10 n) n p (digits-IsDecimal 10 n) (decimal_value-digits 10 n (omega arith))
      small
