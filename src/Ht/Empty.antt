-- ===== src/Ht/Empty.antt =====
-- src/ht.h: the table of NULL chains with which every user of the macros begins.
use dhttp.Base.{
  ℕ, zero, suc, ◌<◌, ◌≡◌, refl, sym, ap, arith, List, [], length-replicate, get_or, replicate,
}
use dhttp.Ht.Chains.{stack_in}
use dhttp.Ht.Laws.{IsValid, total}
use dhttp.Ht.{Keyed, Ht}

total-replicate : (N : Type 0) (n : ℕ) → total (replicate {A = List N} n []) ≡ 0
total-replicate N zero = refl
total-replicate N (suc n) = omega (arith, total-replicate N n)

get_or-empty : {N : Type 0} (n i : ℕ) → get_or (replicate {A = List N} n []) i [] ≡ []
get_or-empty zero i = refl
get_or-empty (suc n) zero = refl
get_or-empty (suc n) (suc i) = get_or-empty n i

abbrev pub emptied : {N : Type 0} → ℕ → Ht N
emptied n = record { buckets = replicate n []; entr_cnt = 0 }

pub emptied-IsValid : {K N : Type 0} (keyed : Keyed K N) (n : ℕ) → 0 < n → IsValid keyed (emptied n)
emptied-IsValid {N = N} keyed n h = record {
  roomy = omega (arith, length-replicate {A = List N} n []);
  placed = λ i k ne. ap (stack_in keyed k) (get_or-empty n i);
  counted = sym (total-replicate N n);
  few = omega (arith, total-replicate N n);
}
