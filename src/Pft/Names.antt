-- ===== src/Pft/Names.antt =====
-- src/pft.c: the tree as the ids that stand at each name, and what `pft_add_obj` adds there.
use dhttp.Base.{
  ℕ, zero, suc, ◌+◌, ◌≤◌, ◌<◌, ◌≡◌, ◌≢◌, ◌⊎◌, inl, inr, refl, ap, ◌∙◌, arith, Bool, true, false,
  dec_lt, Option, none, some, List, [], ◌∷◌, length, get_or, replicate, take, ltb, if◌then◌else◌,
  ok, Returns,
}
use dhttp.Config.{obj_name_len}
use dhttp.Darr.Laws.{IsReadable, HasRoom, IsSound, IsFirst, get_elem_idx-IsFirst, elems-add_elem}
use dhttp.Darr.Words.{hit, count, count-append, count-take-suc}
use dhttp.Darr.{Darr, elems, new_darr, get_elem_idx}
use dhttp.Pft.Lookup.{darr_at, IsPut, add_under-IsPut}
use dhttp.Pft.{Pft, get_next_field, cut, fields_from, fields, store_nid, add_under, pft_add_obj}

abbrev pub ids_in : Option Darr → List ℕ
ids_in none = []
ids_in (some d) = elems d

-- the ids at the end of a path
abbrev pub ids_at : List (List ℕ) → Pft → List ℕ
ids_at path tree = ids_in (darr_at path (none, tree))

-- the id is there once more, unless it was there
abbrev pub Adds : ℕ → List ℕ → List ℕ → Type 0
Adds nid ids ids' =
    (x : ℕ)
    → count x ids' ≡ (if ltb 0 (count nid ids) then count x ids else hit x nid + count x ids)

-- an array that can be looked through and that has room, or the id
abbrev pub CanTake : ℕ → Option Darr → Type 0
CanTake nid none = Unit {0}
CanTake nid (some d) = IsReadable d × (HasRoom d ⊎ (1 ≤ count nid (elems d)))

-- where there is an array, the operations can have left it
abbrev pub AllSound : Option Darr → Type 0
AllSound none = Unit {0}
AllSound (some d) = IsSound d

pub count-take_none :
    (x : ℕ) (xs : List ℕ) (n : ℕ)
    → n ≤ length xs
    → ((k : ℕ) → k < n → get_or xs k 0 ≢ x)
    → count x (take n xs) ≡ 0
count-take_none x xs zero l apart = refl
count-take_none x xs (suc n) l apart =
    let d = apart n (omega arith) in
    let t : hit x (get_or xs n 0) ≡ 0 = ground arith in
    omega (
      arith,
      count-take-suc x xs n (omega arith),
      count-take_none x xs n (omega arith) (λ k m. apart k (omega arith)),
    )

pub count-take_some :
    (x : ℕ) (xs : List ℕ) (n m : ℕ)
    → n ≤ length xs
    → m < n
    → get_or xs m 0 ≡ x
    → 1 ≤ count x (take n xs)
count-take_some x xs zero m l under e = absurd (omega arith)
count-take_some x xs (suc n) m l under e = elim (dec_lt m n) [
  | yes below ↦
      omega
        (arith, count-take-suc x xs n (omega arith), count-take_some x xs n m (omega arith) below e)
  | no last ↦
      let at : get_or xs n 0 ≡ x = ap (λ (i : ℕ). get_or xs i 0) (omega arith) ∙ e in
      let t : hit x (get_or xs n 0) ≡ 1 = ground arith in
      omega (arith, count-take-suc x xs n (omega arith))
]

grown-IsSound :
    (d d' : Darr)
    → IsSound d
    → HasRoom d
    → d'.max_elem ≡ d.max_elem
    → length d'.block ≡ length d.block
    → d'.curr_elem ≡ d.curr_elem + 1
    → IsSound d'
grown-IsSound d d' (inl (four, words, few)) room max size curr =
    inl (max ∙ four, size ∙ words, omega arith)
grown-IsSound d d' (inr (two, empty, zero_left)) room max size curr = absurd (omega arith)

-- a name that is not empty has a field
pub fields-some :
    (obj : List ℕ) → 0 < length obj → (f : List ℕ) × (fs : List (List ℕ)) × (fields obj ≡ f ∷ fs)
unfolding fields fields_from get_next_field
fields-some [] l = absurd (omega arith)
fields-some (c ∷ s) l = ((cut (c ∷ s)).0, fields_from (length s) (cut (c ∷ s)).1, refl)

module _ (grants : ℕ → Bool) (granted : (k : ℕ) → grants k ≡ true) (nid : ℕ) where
  store_some-Adds :
      (d : Darr)
      → CanTake nid (some d)
      → (d' : Darr) × (store_nid grants nid (some d) ≡ ok (true, some d'))
        × Adds nid (elems d) (elems d')
        × (IsSound d → IsSound d')
  unfolding store_nid
  store_some-Adds d (readable, able) =
      let (i, looked, first) = get_elem_idx-IsFirst d nid readable in by_index i looked first able
    where
      by_index :
          (i : Option ℕ)
          → get_elem_idx d nid ≡ ok i
          → IsFirst d.block nid 0 d.curr_elem i
          → HasRoom d ⊎ (1 ≤ count nid (elems d))
          → (d' : Darr) × (store_nid grants nid (some d) ≡ ok (true, some d'))
            × Adds nid (elems d) (elems d')
            × (IsSound d → IsSound d')
      by_index (some i) looked (_, under, at, _) able =
          let is = count-take_some nid d.block d.curr_elem i readable under at in
          let t : ltb 0 (count nid (elems d)) ≡ true = ground arith in
          (d, rw looked refl, λ x. rw t refl, λ s. s)
      by_index none looked apart (inr is) =
          let zero_times =
            count-take_none nid d.block d.curr_elem readable (λ k l. apart k (omega arith) l) in
          absurd (omega arith)
      by_index none looked apart (inl room) =
          let zero_times =
            count-take_none nid d.block d.curr_elem readable (λ k l. apart k (omega arith) l) in
          let t : ltb 0 (count nid (elems d)) ≡ false = ground arith in
          let (r, added, (done, more, max, words, curr)) = elems-add_elem (grants 1) d nid room in
          (
            r.1,
            rw (looked, added) (ap (λ b. ok (b, some r.1)) done),
            λ x. rw (t, more) (omega (arith, count-append x (elems d) (nid ∷ []))),
            λ s. grown-IsSound d r.1 s room max words curr,
          )

  store_nid-Adds :
      (o : Option Darr)
      → CanTake nid o
      → (d : Darr) × (store_nid grants nid o ≡ ok (true, some d))
        × Adds nid (ids_in o) (elems d)
        × (AllSound o → IsSound d)
  unfolding store_nid new_darr
  store_nid-Adds (some d) able = store_some-Adds d able
  store_nid-Adds none able =
      let d : Darr = record { max_elem = 4; curr_elem = 0; block = replicate 4 0 } in
      let made : new_darr (grants 0) ≡ some d = rw (granted 0) refl in
      let (d', stored, adds, sound) =
        store_some-Adds d (omega arith, inl (omega arith, omega arith)) in
      (d', rw (store_nid, made) stored, adds, λ _. sound (inl (refl, refl, omega arith)))

  -- what changes at one name
  abbrev pub IsAddedAt : List (List ℕ) → Pft → Pft → Type 0
  IsAddedAt path tree tree' =
      Adds nid (ids_at path tree) (ids_at path tree')
      × ((other : List (List ℕ)) → other ≢ path → ids_at other tree' ≡ ids_at other tree)

  IsPut-IsAddedAt :
      (f : List ℕ) (fs : List (List ℕ)) (tree : Pft) (d : Darr) (x : Option Darr × Pft)
      → Adds nid (ids_at (f ∷ fs) tree) (elems d)
      → IsPut (f ∷ fs) (none, tree) (some d) x
      → IsAddedAt (f ∷ fs) tree x.1
  IsPut-IsAddedAt f fs tree d x adds (is, others) =
      (λ y. ap (count y) (ap ids_in is) ∙ adds y, kept)
    where
      kept : (gs : List (List ℕ)) → gs ≢ (f ∷ fs) → ids_at gs x.1 ≡ ids_at gs tree
      kept [] ne = refl
      kept (g ∷ gs) ne = ap ids_in (others (g ∷ gs) ne)

  -- If memory is granted and the array at the name can take an id, `pft_add_obj` of a name of 1 to 9
  -- bytes succeeds: the id stands at the name, once more only if it was not there, and the ids at all
  -- other names are as they were. The array stays sound.
  pub pft_add_obj-IsAddedAt :
      (obj : List ℕ) (tree : Pft)
      → 0 < length obj
      → length obj ≤ obj_name_len
      → CanTake nid (darr_at (fields obj) (none, tree))
      → Returns (pft_add_obj grants obj nid tree) λ r.
        (r.0 ≡ true)
        × IsAddedAt (fields obj) tree r.1
        × ((d : Darr) × (darr_at (fields obj) (none, r.1) ≡ some d)
            × (AllSound (darr_at (fields obj) (none, tree)) → IsSound d))
  unfolding pft_add_obj
  pft_add_obj-IsAddedAt obj tree some_byte short able =
      let (f, fs, e) = fields-some obj some_byte in
      let fits : ltb obj_name_len (length obj) ≡ false = ground arith in
      let (d, stored, adds, sound) = store_nid-Adds (darr_at (fields obj) (none, tree)) able in
      let (r, run, (done, put)) =
        add_under-IsPut grants nid (fields obj) (none, tree) true (some d) (λ k. granted (2 + k))
          stored in
      let run' : add_under grants nid (f ∷ fs) (none, tree) ≡ ok r = rw e at run in
      let changed = IsPut-IsAddedAt f fs tree d r.1 (rw e at adds) (rw e at put) in
      (
        (r.0, r.1.1),
        rw (pft_add_obj, fits, e, run') refl,
        (done, rw e changed, (d, rw e (rw e at put.0), sound)),
      )
