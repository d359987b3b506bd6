-- ===== src/Darr/Laws.antt =====
-- src/darr.c: what each operation does to the elements, and where it leaves its block.
use dhttp.Base.{
  ℕ, zero, suc, ◌+◌, ◌-◌, ◌*◌, ◌/◌, ◌%◌, ◌≤◌, ◌<◌, ◌≡◌, ◌≢◌, refl, ap, ◌∙◌, dec_lt, arith, ◌⊎◌, inl,
  inr, Bool, true, false, Bool-cases, Option, none, some, List, [], ◌∷◌, ◌++◌, length, get_or, set,
  take, replicate, ltb, ◌==◌, if◌then◌else◌, ok, fault, out_of_bounds, Returns, length-set,
  length-append, length-take, length-replicate, get_elem?-get_or, take-set_end,
}
use dhttp.Darr.Words.{hit, count, count-swap_remove}
use dhttp.Ht.{size_mod}
use dhttp.Darr.{
  Darr, elems, realloc, store, load, new_darr, extend_darr, shrink_darr, elem_idx_from,
  get_elem_idx, append, add_elem, rm_elem_by_idx,
}

-- every element lies inside the block
abbrev pub IsReadable : Darr → Type 0
IsReadable d = d.curr_elem ≤ length d.block

-- one more element fits with no call of realloc
abbrev pub HasRoom : Darr → Type 0
HasRoom d = (d.curr_elem < d.max_elem) × (d.curr_elem < length d.block)

-- The arrays that the operations leave, from `new_darr` on: four words, or after the last element
-- was removed a block of two bytes, in which no word is left.
abbrev pub IsSound : Darr → Type 0
IsSound d =
    (d.max_elem ≡ 4) × (length d.block ≡ 4) × (d.curr_elem ≤ 4)
    ⊎ (d.max_elem ≡ 2) × (length d.block ≡ 0) × (d.curr_elem ≡ 0)

pub length-realloc : (block : List ℕ) (bytes : ℕ) → length (realloc block bytes) ≡ bytes / 4
unfolding realloc
length-realloc block bytes = omega (
  arith,
  length-append (take (bytes / 4) block) (replicate (bytes / 4 - length block) 0),
  length-take (bytes / 4) block,
  length-replicate {A = ℕ} (bytes / 4 - length block) 0,
)

pub load-get_or : (block : List ℕ) (i : ℕ) → i < length block → load block i ≡ ok (get_or block i 0)
unfolding load
load-get_or block i h = rw (get_elem?-get_or block i 0 h)

pub new_darr-IsSound : (d : Darr) → new_darr true ≡ some d → IsSound d × HasRoom d × (elems d ≡ [])
unfolding new_darr
new_darr-IsSound d h = (ground arith, ground arith, ground arith)

-- the first of the words from `i` on, `rounds` many, that is `elem`
abbrev pub IsFirst : List ℕ → ℕ → ℕ → ℕ → Option ℕ → Type 0
IsFirst block elem i j none = (k : ℕ) → i ≤ k → k < j → get_or block k 0 ≢ elem
IsFirst block elem i j (some m) =
    (i ≤ m)
    × (m < j)
    × (get_or block m 0 ≡ elem)
    × ((k : ℕ) → i ≤ k → k < m → get_or block k 0 ≢ elem)

IsFirst-step :
    (block : List ℕ) (elem i j : ℕ) (o : Option ℕ)
    → get_or block i 0 ≢ elem
    → IsFirst block elem (i + 1) j o
    → IsFirst block elem i j o
IsFirst-step block elem i j none ne h = λ k lo hi e. grind (arith, h)
IsFirst-step block elem i j (some m) ne (lo, hi, e, before) =
    (omega arith, hi, e, λ k lo' hi' e'. grind (arith, before))

elem_idx_from-IsFirst :
    (block : List ℕ) (elem rounds i j : ℕ)
    → i + rounds ≡ j
    → j ≤ length block
    → Returns (elem_idx_from block elem rounds i) (IsFirst block elem i j)
unfolding elem_idx_from
elem_idx_from-IsFirst block elem zero i j e h = (none, refl, λ k lo hi. absurd (omega arith))
elem_idx_from-IsFirst block elem (suc rounds) i j e h =
    rw (load-get_or block i (omega arith)) (elim (Bool-cases (get_or block i 0 == elem)) [
      | inl found ↦ (
        some i,
        rw found,
        (omega arith, omega arith, ground arith, λ k lo hi. absurd (omega arith)),
      )
      | inr other ↦
          let (o, run, first) = elem_idx_from-IsFirst block elem rounds (i + 1) j (omega arith) h in
          (o, rw other run, IsFirst-step block elem i j o (ground arith) first)
    ])

-- On an array whose elements lie inside its block the lookup returns the index of the first
-- occurrence of the element, and (size_t)-1 exactly when no element is equal to it.
pub get_elem_idx-IsFirst :
    (d : Darr) (elem : ℕ)
    → IsReadable d
    → Returns (get_elem_idx d elem) (IsFirst d.block elem 0 d.curr_elem)
unfolding get_elem_idx
get_elem_idx-IsFirst d elem h =
    elem_idx_from-IsFirst d.block elem d.curr_elem 0 d.curr_elem (omega arith) h

-- With room left the element is added behind the others, whatever realloc would answer.
pub elems-add_elem :
    (granted : Bool) (d : Darr) (elem : ℕ)
    → HasRoom d
    → Returns (add_elem granted d elem) λ r.
      (r.0 ≡ true)
      × (elems r.1 ≡ elems d ++ elem ∷ [])
      × (r.1.max_elem ≡ d.max_elem)
      × (length r.1.block ≡ length d.block)
      × (r.1.curr_elem ≡ d.curr_elem + 1)
unfolding add_elem append store
elems-add_elem granted d elem h =
    let block = set d.block d.curr_elem elem in
    (
      (true, record d { block = block; curr_elem = d.curr_elem + 1 }),
      ground arith,
      (
        refl,
        take-set_end d.block d.curr_elem elem h.1,
        refl,
        length-set d.block d.curr_elem elem,
        refl,
      ),
    )

-- A full array cannot grow. Where its block has at most one word for each of its `max_elem` places,
-- and twice their number is no overflow of size_t: if realloc succeeds, `max_elem` doubles but the
-- block then has half a word for each place there was, and the new element is written past its end.
-- If realloc fails, the array stays as it is and -1 is returned.
pub add_elem_full :
    (d : Darr) (elem : ℕ)
    → d.curr_elem ≡ d.max_elem
    → length d.block ≤ d.max_elem
    → d.max_elem * 2 < size_mod
    → (add_elem true d elem ≡ fault out_of_bounds)
      × (length (extend_darr true d).1.block ≡ d.max_elem / 2)
      × ((extend_darr true d).1.max_elem ≡ d.max_elem * 2)
      × (add_elem false d elem ≡ ok (false, d))
unfolding add_elem append store extend_darr
add_elem_full d elem full size fits =
    let doubled : d.max_elem * 2 % size_mod ≡ d.max_elem * 2 = omega arith in
    let size' = length-realloc d.block (d.max_elem * 2) in
    rw doubled (ground (arith, size'), omega (arith, size'), refl, ground arith)

-- the array after the element at `i` was replaced by the last one
swapped : Darr → ℕ → Darr
swapped d i = record d {
  block = set d.block i (get_or d.block (d.curr_elem - 1) 0);
  curr_elem = d.curr_elem - 1;
}

-- the shrinking at the end of the removal
trimmed : Bool → Darr → ℕ → Darr
trimmed granted d i =
    if ltb (d.curr_elem - 1) (d.max_elem / 4)
    then shrink_darr granted (swapped d i)
    else swapped d i

rm_elem_by_idx-trimmed :
    (granted : Bool) (d : Darr) (i : ℕ)
    → i < d.curr_elem
    → IsReadable d
    → rm_elem_by_idx granted d i ≡ ok (true, trimmed granted d i)
unfolding rm_elem_by_idx trimmed swapped
rm_elem_by_idx-trimmed granted d i lt h = ground (arith, load-get_or d.block (d.curr_elem - 1))

elems-trimmed :
    (granted : Bool) (d : Darr) (i : ℕ)
    → d.max_elem ≡ 4
    → elems (trimmed granted d i) ≡ elems (swapped d i)
unfolding trimmed swapped shrink_darr
elems-trimmed granted d i four = elim (dec_lt (d.curr_elem - 1) (d.max_elem / 4)) [
  | yes few ↦ let none_left : d.curr_elem - 1 ≡ 0 = omega arith in rw none_left (ground arith)
  | no many ↦ ground arith
]

IsSound-trimmed :
    (granted : Bool) (d : Darr) (i : ℕ)
    → d.max_elem ≡ 4
    → length d.block ≡ 4
    → d.curr_elem ≤ 4
    → IsSound (trimmed granted d i)
unfolding trimmed swapped shrink_darr
IsSound-trimmed granted d i four words curr =
    let block = set d.block i (get_or d.block (d.curr_elem - 1) 0) in
    ground (
      arith,
      length-set d.block i (get_or d.block (d.curr_elem - 1) 0),
      length-realloc block (d.max_elem / 2),
    )

-- What removal by index does to an array that the operations can leave: an index out of range
-- changes nothing; else the element at the index goes, each other one stays as often as it was
-- there, and the array may be left in its other sound form.
pub rm_elem_by_idx-IsSound :
    (granted : Bool) (d : Darr) (i : ℕ)
    → IsSound d
    → Returns (rm_elem_by_idx granted d i) λ r.
      IsSound r.1
      × ((d.curr_elem ≤ i) × (r ≡ (false, d))
          ⊎ (i < d.curr_elem)
            × (r.0 ≡ true)
            × ((x : ℕ) → count x (elems r.1) + hit x (get_or d.block i 0) ≡ count x (elems d)))
unfolding rm_elem_by_idx
rm_elem_by_idx-IsSound granted d i (inr (two, empty, zero_left)) =
    ((false, d), ground arith, (inr (two, empty, zero_left), inl (omega arith, refl)))
rm_elem_by_idx-IsSound granted d i (inl (four, words, curr)) = elim (dec_lt i d.curr_elem) [
  | no past ↦ ((false, d), ground arith, (inl (four, words, curr), inl (omega arith, refl)))
  | yes lt ↦ (
    (true, trimmed granted d i),
    rm_elem_by_idx-trimmed granted d i lt (omega arith),
    (
      IsSound-trimmed granted d i four words curr,
      inr (
        lt,
        refl,
        λ x.
            let last : suc (d.curr_elem - 1) ≡ d.curr_elem = omega arith in
            rw (elems-trimmed granted d i four) (
              unfold swapped in
              count-swap_remove x d.block (d.curr_elem - 1) i (omega arith) (omega arith)
              ∙ ap (λ m. count x (take m d.block)) last),
      ),
    ),
  )
]
