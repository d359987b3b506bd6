-- ===== src/Ht/Keys.antt =====
-- src/ht.c: the two pairs of functions that hash and compare keys.
use dhttp.Base.{
  ℕ, ◌+◌, ◌-◌, ◌%◌, ◌<◌, ◌≡◌, ◌↔◌, arith, Bool, true, false, ◌&&◌, List, [], ◌∷◌, ltb, ◌==◌, ==_iff,
  if◌then◌else◌,
}
use dhttp.Ht.{size_mod}

-- `(size_t)key % bucket_size`
unfoldable pub uint_to_idx : ℕ → ℕ → ℕ
uint_to_idx key bucket_size = key % bucket_size

-- `true` for the result 0
unfoldable pub cmp_int : ℕ → ℕ → Bool
cmp_int a b = a == b

-- `sum += *c`: a char is signed, and is extended to the width of size_t
char_value : ℕ → ℕ
char_value c = if ltb c 128 then c else c + size_mod - 256

sum_chars : ℕ → List ℕ → ℕ
unfolding char_value
sum_chars sum [] = sum
sum_chars sum (c ∷ s) = sum_chars ((sum + char_value c) % size_mod) s

-- a string is the list of its bytes before the terminating 0
unfoldable pub str_to_idx : List ℕ → ℕ → ℕ
unfolding sum_chars
str_to_idx key bucket_size = sum_chars 0 key % bucket_size

-- `true` for the result 0 of strcmp
unfoldable pub cmpstr : List ℕ → List ℕ → Bool
cmpstr [] [] = true
cmpstr (a ∷ s) (b ∷ t) = a == b && cmpstr s t
cmpstr _ _ = false

pub cmp_int_iff : (a b : ℕ) → (cmp_int a b ≡ true) ↔ (a ≡ b)
unfolding cmp_int
cmp_int_iff a b = ==_iff a b

pub cmpstr_iff : (a b : List ℕ) → (cmpstr a b ≡ true) ↔ (a ≡ b)
unfolding cmpstr
cmpstr_iff (x ∷ s) (y ∷ t) = ground (arith, cmpstr_iff s t)
cmpstr_iff _ _ = ground arith

pub uint_to_idx-lt : (key size : ℕ) → 0 < size → uint_to_idx key size < size
unfolding uint_to_idx
uint_to_idx-lt key size h = omega arith

pub str_to_idx-lt : (key : List ℕ) (size : ℕ) → 0 < size → str_to_idx key size < size
unfolding str_to_idx
str_to_idx-lt key size h = omega arith
