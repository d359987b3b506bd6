-- ===== src/Pft/Unclaimed.antt =====
-- src/pft.c, `pft_get_obj_list`: a name whose node has no array.
use dhttp.Base.{
  ℕ, ◌+◌, ◌≤◌, ◌<◌, ◌≡◌, refl, arith, Bool, false, Bool-cases, inl, inr, Option, none, some, List,
  [], ◌∷◌, length, length-take, ◌==◌, fault, null_pointer, Returns,
}
use dhttp.Darr.Merge.{merge_darr-IsLonger}
use dhttp.Darr.{Darr}
use dhttp.Pft.{Pft, Found, fields, find_peer, pass, walk, finish_lookup, pft_get_obj_list}

-- how many ids a node's array has
abbrev pub ids_in : Option Darr → ℕ
ids_in none = 0
ids_in (some d) = d.curr_elem

-- an array, where there is one, lies inside its block
abbrev pub IsInside : Option Darr → Type 0
IsInside none = Unit {0}
IsInside (some d) = d.curr_elem ≤ length d.block

-- The tree has every field of the path, the last node has no array, and the arrays of the nodes
-- above it have `n` ids together.
pub data IsUnclaimed : List (List ℕ) → Pft → ℕ → Type 0 where
  bare :
      {f : List ℕ} {t child : Pft} → find_peer f t ≡ some (none, child) → IsUnclaimed (f ∷ []) t 0
  below :
      {f g : List ℕ} {fs : List (List ℕ)} {t child : Pft} {d : Option Darr} {n : ℕ}
      → find_peer f t ≡ some (d, child)
      → IsInside d
      → IsUnclaimed (g ∷ fs) child n
      → IsUnclaimed (f ∷ g ∷ fs) t (ids_in d + n)

-- what the loop is left with: the last node's missing array, and `n` more prefixes
record IsPassed (s : Found) (n : ℕ) (s' : Found) : Type 0 where
  no_array : s'.target ≡ some none
  count : s'.al_pre.curr_elem ≡ s.al_pre.curr_elem + n

-- one node adds its ids to the prefixes
pass-adds :
    (grants : ℕ → Bool) (d : Option Darr) (s : Found)
    → IsInside d
    → s.al_pre.curr_elem + ids_in d ≤ s.al_pre.max_elem
    → s.al_pre.curr_elem + ids_in d ≤ length s.al_pre.block
    → Returns (pass grants d s) λ t.
      (t.al_pre.curr_elem ≡ s.al_pre.curr_elem + ids_in d)
      × (t.al_pre.max_elem ≡ s.al_pre.max_elem)
      × (length t.al_pre.block ≡ length s.al_pre.block)
unfolding pass
pass-adds grants none s inside room words =
    (record s { target = some none }, refl, (omega arith, refl, refl))
pass-adds grants (some d) s inside room words = elim (Bool-cases (d.curr_elem == 0)) [
  | inl empty ↦ (record s { target = some (some d) }, rw empty refl, (ground arith, refl, refl))
  | inr filled ↦
      let (al, run, longer) = merge_darr-IsLonger grants s.al_pre d inside room words in
      (
        record { target = some (some d); al_pre = al; last_pre = some d },
        rw (filled, run) refl,
        (
          omega (arith, longer.more, length-take d.curr_elem d.block),
          longer.same_max,
          longer.same_words,
        ),
      )
]

walk-IsPassed :
    (grants : ℕ → Bool) {fs : List (List ℕ)} {t : Pft} {n : ℕ} (s : Found)
    → IsUnclaimed fs t n
    → s.al_pre.curr_elem + n ≤ s.al_pre.max_elem
    → s.al_pre.curr_elem + n ≤ length s.al_pre.block
    → Returns (walk grants fs t s) (IsPassed s n)
unfolding walk
walk-IsPassed grants s (bare at_f) room words = (
  record s { target = some none },
  unfold pass in rw (walk, at_f) refl,
  record { no_array = refl; count = omega arith },
)
walk-IsPassed grants s (below {d = d} {n = n} at_f inside rest) room words =
    let (s1, one, (count, max, size)) = pass-adds grants d s inside (omega arith) (omega arith) in
    let (s', run, passed) = walk-IsPassed grants s1 rest (omega arith) (omega arith) in
    (
      s',
      rw (walk, at_f, one) run,
      record { no_array = passed.no_array; count = omega (arith, passed.count, count) },
    )

-- A lookup of a name that the tree has, at whatever depth, whose last node has no array, while the
-- nodes above it have ids: where all those ids fit into the array of prefixes, it follows the null
-- pointer to read the number of elements.
pub pft_get_obj_list_null :
    (grants : ℕ → Bool) (obj : List ℕ) (tree : Pft) (al_pre : Darr) (n : ℕ)
    → IsUnclaimed (fields obj) tree n
    → 0 < n
    → n ≤ al_pre.max_elem
    → n ≤ length al_pre.block
    → pft_get_obj_list grants obj tree al_pre ≡ fault null_pointer
unfolding pft_get_obj_list finish_lookup
pft_get_obj_list_null grants obj tree al_pre n unclaimed some_ids room words =
    let start : Found = record {
      target = none;
      al_pre = record al_pre { curr_elem = 0 };
      last_pre = none;
    } in
    let (s, run, passed) = walk-IsPassed grants start unclaimed (omega arith) (omega arith) in
    let more : (s.al_pre.curr_elem == 0) ≡ false = ground (arith, passed.count) in
    rw (run, finish_lookup, passed.no_array, more) refl
