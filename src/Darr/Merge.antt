-- ===== src/Darr/Merge.antt =====
-- src/darr.c: `merge_darr` appends one array to another.
use mathlib.Core.List.{append_assoc, append-nil}
use dhttp.Base.{
  ℕ, zero, suc, ◌+◌, ◌≤◌, ◌<◌, ◌≡◌, refl, ap, ◌∙◌, arith, Bool, List, [], ◌∷◌, ◌++◌, length, get_or,
  take, drop, Returns,
}
use dhttp.Darr.Laws.{load-get_or, elems-add_elem}
use dhttp.Darr.{Darr, elems, merge_from, merge_darr}

take-drop_next :
    (block : List ℕ) (r i : ℕ)
    → i < length block
    → take (suc r) (drop i block) ≡ get_or block i 0 ∷ take r (drop (i + 1) block)
take-drop_next [] r i h = absurd (omega arith)
take-drop_next (x ∷ xs) r zero h = ground arith
take-drop_next (x ∷ xs) r (suc i) h = ground (arith, take-drop_next xs r i)

-- `t` is `s` with `xs` added at the end
pub record IsLonger (s : Darr) (xs : List ℕ) (t : Darr) : Type 0 where
  pub elems_are : elems t ≡ elems s ++ xs
  pub same_max : t.max_elem ≡ s.max_elem
  pub same_words : length t.block ≡ length s.block
  pub more : t.curr_elem ≡ s.curr_elem + length xs

merge_from-IsLonger :
    (grants : ℕ → Bool) (block : List ℕ) (rounds i : ℕ) (dest : Darr)
    → i + rounds ≤ length block
    → dest.curr_elem + rounds ≤ dest.max_elem
    → dest.curr_elem + rounds ≤ length dest.block
    → Returns (merge_from grants block rounds i dest) (IsLonger dest (take rounds (drop i block)))
unfolding merge_from
merge_from-IsLonger grants block zero i dest hb hm hw = (
  dest,
  refl,
  record { elems_are = rw append-nil; same_max = refl; same_words = refl; more = omega arith },
)
merge_from-IsLonger grants block (suc rounds) i dest hb hm hw =
    let x = get_or block i 0 in
    let (r, run, (_, added, maxed, worded, counted)) =
      elems-add_elem (grants i) dest x (omega arith, omega arith) in
    let (t, rest, longer) =
      merge_from-IsLonger grants block rounds (i + 1) r.1 (omega arith) (omega arith)
        (omega arith) in
    (
      t,
      rw (load-get_or block i (omega arith), run) rest,
      rw (take-drop_next block rounds i (omega arith)) (record {
        elems_are =
            longer.elems_are
            ∙ ap (λ l. l ++ take rounds (drop (i + 1) block)) added
            ∙ append_assoc (elems dest) (x ∷ []) _;
        same_max = longer.same_max ∙ maxed;
        same_words = longer.same_words ∙ worded;
        more = omega (arith, longer.more);
      }),
    )

-- If both arrays lie inside their blocks and all fits, merging adds the elements of the second in
-- order, whatever realloc would answer.
pub merge_darr-IsLonger :
    (grants : ℕ → Bool) (dest src : Darr)
    → src.curr_elem ≤ length src.block
    → dest.curr_elem + src.curr_elem ≤ dest.max_elem
    → dest.curr_elem + src.curr_elem ≤ length dest.block
    → Returns (merge_darr grants dest src) (IsLonger dest (elems src))
unfolding merge_darr
merge_darr-IsLonger grants dest src hs hm hw =
    merge_from-IsLonger grants src.block src.curr_elem 0 dest (omega arith) hm hw
