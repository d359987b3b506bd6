-- ===== src/Darr/Words.antt =====
-- How often a value stands among the first words of a block.
use dhttp.Base.{
  ℕ, zero, suc, ◌+◌, ◌≤◌, ◌<◌, ◌≡◌, refl, ap, arith, dec_lt, List, [], ◌∷◌, ◌++◌, length, get_or,
  set, take, ◌==◌, if◌then◌else◌,
}

abbrev pub hit : ℕ → ℕ → ℕ
hit x y = if x == y then 1 else 0

abbrev pub count : ℕ → List ℕ → ℕ
count x [] = 0
count x (y ∷ ys) = hit x y + count x ys

pub count-append : (x : ℕ) (ys zs : List ℕ) → count x (ys ++ zs) ≡ count x ys + count x zs
count-append x [] zs = omega arith
count-append x (y ∷ ys) zs = omega (arith, count-append x ys zs)

pub count-take-suc :
    (x : ℕ) (xs : List ℕ) (m : ℕ)
    → m < length xs
    → count x (take (suc m) xs) ≡ count x (take m xs) + hit x (get_or xs m 0)
count-take-suc x [] m h = absurd (omega arith)
count-take-suc x (y ∷ ys) zero h = omega arith
count-take-suc x (y ∷ ys) (suc m) h = omega (arith, count-take-suc x ys m)

pub count-take-set :
    (x : ℕ) (xs : List ℕ) (m i v : ℕ)
    → i < m
    → m ≤ length xs
    → count x (take m (set xs i v)) + hit x (get_or xs i 0) ≡ count x (take m xs) + hit x v
count-take-set x [] m i v h k = absurd (omega arith)
count-take-set x (y ∷ ys) zero i v h k = absurd (omega arith)
count-take-set x (y ∷ ys) (suc m) zero v h k = omega arith
count-take-set x (y ∷ ys) (suc m) (suc i) v h k = omega (arith, count-take-set x ys m i v)

pub take-set_above : (xs : List ℕ) (m i v : ℕ) → m ≤ i → take m (set xs i v) ≡ take m xs
take-set_above xs zero i v h = refl
take-set_above [] (suc m) i v h = refl
take-set_above (y ∷ ys) (suc m) zero v h = absurd (omega arith)
take-set_above (y ∷ ys) (suc m) (suc i) v h = ground (arith, take-set_above ys m i v)

-- The last of the first `m + 1` words is put over word `i`, and dropped at the end.
pub count-swap_remove :
    (x : ℕ) (xs : List ℕ) (m i : ℕ)
    → i ≤ m
    → m < length xs
    → count x (take m (set xs i (get_or xs m 0))) + hit x (get_or xs i 0)
      ≡ count x (take (suc m) xs)
count-swap_remove x xs m i h k = elim (dec_lt i m) [
  | yes below ↦
      omega (
        arith,
        count-take-set x xs m i (get_or xs m 0) below (omega arith),
        count-take-suc x xs m k,
      )
  | no above ↦
      let at_end : i ≡ m = omega arith in
      rw (take-set_above xs m i (get_or xs m 0) (omega arith))
        (omega (arith, count-take-suc x xs m k, ap (λ (j : ℕ). hit x (get_or xs j 0)) at_end))
]
