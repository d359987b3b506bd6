-- ===== src/Darr.antt =====
-- src/darr.c: the growing array of 32-bit node ids.
-- `block` is the memory behind `arr`, in whole 32-bit words: an access past its end is a fault.
-- A call that may allocate takes the answer of malloc or realloc, `true` for success.
pub mod Words
pub mod Laws
pub mod Merge
use dhttp.Base.{
  ℕ, zero, suc, ◌+◌, ◌-◌, ◌*◌, ◌/◌, ◌%◌, ◌≤◌, ◌<◌, ◌≡◌, ◌⊎◌, Bool, true, false, Option, none, some,
  List, [], ◌∷◌, ◌++◌, length, get_elem?, set, take, replicate, ltb, leb, ◌==◌, if◌then◌else◌, Run,
  ok, fault, or_fault, out_of_bounds, ◌>>=◌,
}
use dhttp.Ht.{size_mod}

pub record Darr : Type 0 where
  pub max_elem : ℕ
  pub curr_elem : ℕ
  pub block : List ℕ

-- the elements that the array holds
abbrev pub elems : Darr → List ℕ
elems d = take d.curr_elem d.block

abbrev pub init_elem_num : ℕ
init_elem_num = 4

-- sizeof(uint32_t)
abbrev pub word : ℕ
word = 4

-- `realloc(block, bytes)`: the contents stay as far as they fit. The words that are new have no
-- value that a program may read; the model puts 0.
pub realloc : List ℕ → ℕ → List ℕ
realloc block bytes = take (bytes / word) block ++ replicate (bytes / word - length block) 0

-- `arr[i] = v`
unfoldable pub store : List ℕ → ℕ → ℕ → Run (List ℕ)
store block i v = if ltb i (length block) then ok (set block i v) else fault out_of_bounds

-- `arr[i]`
unfoldable pub load : List ℕ → ℕ → Run ℕ
load block i = or_fault out_of_bounds (get_elem? block i)

-- `none` is NULL
unfoldable pub new_darr : Bool → Option Darr
new_darr granted =
    if granted
    then some (record {
      max_elem = init_elem_num;
      curr_elem = 0;
      block = replicate (word * init_elem_num / word) 0;
    })
    else none

-- Both calls of realloc pass the number of elements where a number of bytes is due.
unfoldable pub extend_darr : Bool → Darr → Bool × Darr
unfolding realloc
extend_darr granted d =
    let new_max = d.max_elem * 2 % size_mod in
    if granted
    then (true, record d { max_elem = new_max; block = realloc d.block new_max })
    else (false, d)

unfoldable pub shrink_darr : Bool → Darr → Darr
unfolding realloc
shrink_darr granted d =
    let new_max = d.max_elem / 2 in
    if granted then record d { max_elem = new_max; block = realloc d.block new_max } else d

-- the loop over `rounds` elements from `i` on
unfoldable pub elem_idx_from : List ℕ → ℕ → ℕ → ℕ → Run (Option ℕ)
elem_idx_from block elem zero i = ok none
elem_idx_from block elem (suc rounds) i =
    let rest = elem_idx_from block elem rounds (i + 1) in
    load block i >>= λ x. if x == elem then ok (some i) else rest

-- `none` is (size_t)-1
unfoldable pub get_elem_idx : Darr → ℕ → Run (Option ℕ)
get_elem_idx d elem = elem_idx_from d.block elem d.curr_elem 0

append : Darr → ℕ → Run (Bool × Darr)
append d elem = do
  block ← store d.block d.curr_elem elem
  ok (true, record d { block = block; curr_elem = d.curr_elem + 1 })

-- the result is `true` for 0 and `false` for -1
unfoldable pub add_elem : Bool → Darr → ℕ → Run (Bool × Darr)
unfolding append store extend_darr
add_elem granted d elem =
    if d.curr_elem == d.max_elem
    then (let (done, bigger) = extend_darr granted d in
        if done then append bigger elem else ok (false, bigger))
    else append d elem

-- The result of `add_elem` is not looked at; `grants` gives the answers of realloc. The two arrays
-- are taken to be distinct, as in the one call.
unfoldable pub merge_from : (ℕ → Bool) → List ℕ → ℕ → ℕ → Darr → Run Darr
unfolding load
merge_from grants block zero i dest = ok dest
merge_from grants block (suc rounds) i dest = do
  x ← load block i
  r ← add_elem (grants i) dest x
  merge_from grants block rounds (i + 1) r.1

unfoldable pub merge_darr : (ℕ → Bool) → Darr → Darr → Run Darr
merge_darr grants dest src = merge_from grants src.block src.curr_elem 0 dest

unfoldable pub rm_elem_by_idx : Bool → Darr → ℕ → Run (Bool × Darr)
unfolding load store shrink_darr
rm_elem_by_idx granted d elem_idx = if leb d.curr_elem elem_idx then ok (false, d) else do
  last ← load d.block (d.curr_elem - 1)
  block ← store d.block elem_idx last
  let smaller = record d { block = block; curr_elem = d.curr_elem - 1 }
  ok (true, if ltb smaller.curr_elem (d.max_elem / 4) then shrink_darr granted smaller else smaller)
