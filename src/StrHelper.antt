-- ===== src/StrHelper.antt =====
-- src/str_helper.c: numbers in text, and the search in a sorted list of words.
-- A C string is the list of its bytes before the terminating 0. The standard library's strtol and
-- strncmp are written out as far as the code uses them. `errno` is the flag "errno is ERANGE": the
-- functions read it, and nothing in the repository ever clears it.
pub mod Numbers
pub mod Search
use Prim.Native.Nat.{compare, Ordering}
use dhttp.Base.{
  ℕ, zero, suc, ◌+◌, ◌-◌, ◌*◌, ◌/◌, ◌%◌, ◌^◌, ◌<◌, Bool, true, false, not, ◌&&◌, ◌||◌, Option, none,
  some, List, [], ◌∷◌, length, get_or, ltb, leb, ◌==◌, if◌then◌else◌,
}
use dhttp.Base.Int.{ℤ, pos, negsuc, negate, low_32, to_int}

abbrev pub is_space : ℕ → Bool
is_space c = c == b' ' || leb 9 c && leb c 13

-- the value of a digit, or a number that is no digit in any base
unfoldable pub digit : ℕ → ℕ
digit c =
    if leb b'0' c && leb c b'9'
    then c - b'0'
    else if leb b'a' c && leb c b'z'
    then c - b'a' + 10
    else if leb b'A' c && leb c b'Z'
    then c - b'A' + 10
    else 36

-- the value read so far, whether a digit was read, and what follows the digits
pub record Digits : Type 0 where
  pub value : ℕ
  pub any : Bool
  pub rest : List ℕ

unfoldable pub read_digits : ℕ → ℕ → Bool → List ℕ → Digits
unfolding digit
read_digits base value any [] = record { value = value; any = any; rest = [] }
read_digits base value any (c ∷ s) =
    let more = read_digits base (value * base + digit c) true s in
    if ltb (digit c) base then more else record { value = value; any = any; rest = c ∷ s }

skip_space : List ℕ → List ℕ
skip_space [] = []
skip_space (c ∷ s) = let rest = skip_space s in if is_space c then rest else c ∷ s

-- the value of strtol, whether it sets errno to ERANGE, and whether endptr is at the end of `str`
pub record Strtol : Type 0 where
  pub value : ℤ
  pub erange : Bool
  pub at_end : Bool

is_nil : List ℕ → Bool
is_nil [] = true
is_nil (c ∷ s) = false

-- with no digit endptr is `str` itself
finish : Bool → List ℕ → Digits → Strtol
unfolding is_nil
finish negative str d =
    if not d.any
    then record { value = pos 0; erange = false; at_end = is_nil str }
    else if negative
    then (if ltb (2 ^ 63) d.value
        then record { value = negate (2 ^ 63); erange = true; at_end = is_nil d.rest }
        else record { value = negate d.value; erange = false; at_end = is_nil d.rest })
    else if ltb d.value (2 ^ 63)
    then record { value = pos d.value; erange = false; at_end = is_nil d.rest }
    else record { value = pos (2 ^ 63 - 1); erange = true; at_end = is_nil d.rest }

signed : ℕ → List ℕ → List ℕ → Strtol
unfolding read_digits finish
signed base str [] = finish false str (read_digits base 0 false [])
signed base str (c ∷ s) =
    if c == b'-'
    then finish true str (read_digits base 0 false s)
    else if c == b'+'
    then finish false str (read_digits base 0 false s)
    else finish false str (read_digits base 0 false (c ∷ s))

-- a `long` and a `long long` both have 64 bits
unfoldable pub strtol : ℕ → List ℕ → Strtol
unfolding skip_space signed
strtol base str = signed base str (skip_space str)

-- the flag afterwards, and `none` for -1 or the number for 0
unfoldable pub str_to_num : Bool → List ℕ → Bool × Option ℤ
unfolding is_nil
str_to_num errno str =
    let r = strtol 10 str in
    if errno || r.erange
    then (true, none)
    else (false, (if not (is_nil str) && r.at_end then some (to_int r.value) else none))

-- `ret > UINT32_MAX`
above_uint32 : ℤ → Bool
above_uint32 (pos n) = leb (2 ^ 32) n
above_uint32 (negsuc n) = false

-- the base is 15, as in the source
unfoldable pub str_to_uint32 : Bool → List ℕ → Bool × Option ℕ
unfolding is_nil above_uint32
str_to_uint32 errno str =
    let r = strtol 15 str in
    if errno || r.erange then (true, none) else (
      false,
      (if not (is_nil str) && r.at_end
          then (if above_uint32 r.value then none else some (low_32 r.value))
          else none),
    )

-- strncmp: at most `n` bytes, and a string that ends is before one that goes on
unfoldable pub strncmp : ℕ → List ℕ → List ℕ → Ordering
strncmp zero s t = Ordering.eq
strncmp (suc n) [] [] = Ordering.eq
strncmp (suc n) [] (y ∷ t) = Ordering.lt
strncmp (suc n) (x ∷ s) [] = Ordering.gt
strncmp (suc n) (x ∷ s) (y ∷ t) = elim (compare x y) [
  | Ordering.lt ↦ Ordering.lt
  | Ordering.eq ↦ strncmp n s t
  | Ordering.gt ↦ Ordering.gt
]

-- The loop of `str_match` on fuel. `above` is `hi + 1`, so that it is not negative; the outer
-- `none` says that the fuel ran out, and the inner one is -1.
unfoldable pub match_from : List (List ℕ) → List ℕ → ℕ → ℕ → ℕ → ℕ → Option (Option ℕ)
match_from dest src max_len zero low above = none
match_from dest src max_len (suc fuel) low above =
    let mid = (low + (above - 1)) / 2 in
    let right = match_from dest src max_len fuel (mid + 1) above in
    let left = match_from dest src max_len fuel low mid in
    if ltb low above
    then elim (strncmp max_len (get_or dest mid []) src) [
      | Ordering.lt ↦ right
      | Ordering.gt ↦ left
      | Ordering.eq ↦ some (some mid)
    ]
    else some none

-- each round at least halves what is left
unfoldable pub str_match : List (List ℕ) → ℕ → List ℕ → ℕ → Option (Option ℕ)
unfolding match_from strncmp
str_match dest num src max_len = match_from dest src max_len (num + 1) 0 num
