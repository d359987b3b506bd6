-- ===== src/RouteTable/Ids.antt =====
-- src/dijkstra.c: the loop of `construct_graph` that writes the ids.
use dhttp.Base.{
  ℕ, suc, ◌+◌, ◌≡◌, refl, ◌∙◌, arith, true, false, List, [], ◌∷◌, length, set, ltb, dec_lt, ok,
  ◌>>=◌,
}
use dhttp.Darr.{store}
use dhttp.RouteTable.{write_ids}

write_ids-behind :
    (x : ℕ) (l : List ℕ) (i j : ℕ) (xs : List ℕ)
    → j ≡ suc i
    → write_ids (x ∷ l) j xs ≡ (write_ids l i xs >>= λ r. ok (x ∷ r))
unfolding write_ids store
write_ids-behind x l i j [] e = refl
write_ids-behind x l i j (y ∷ xs) e = rw e (elim (dec_lt i (length l)) [
  | yes in_range ↦
      let a : ltb (suc i) (suc (length l)) ≡ true = ground arith in
      let b : ltb i (length l) ≡ true = ground arith in
      rw (a, store, b) (write_ids-behind x (set l i y) (i + 1) (suc i + 1) xs (omega arith))
  | no over ↦
      let a : ltb (suc i) (suc (length l)) ≡ false = ground arith in
      let b : ltb i (length l) ≡ false = ground arith in rw (a, store, b) refl
])

pub write_ids-all : (l xs : List ℕ) → length l ≡ length xs → write_ids l 0 xs ≡ ok xs
unfolding write_ids store
write_ids-all [] [] e = refl
write_ids-all (z ∷ l) [] e = absurd (omega arith)
write_ids-all [] (x ∷ xs) e = absurd (omega arith)
write_ids-all (z ∷ l) (x ∷ xs) e =
    let a : ltb 0 (suc (length l)) ≡ true = ground arith in
    rw a (write_ids-behind x l 0 1 xs refl ∙ rw (write_ids-all l xs (omega arith)) refl)
