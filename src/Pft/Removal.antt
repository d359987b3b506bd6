-- ===== src/Pft/Removal.antt =====
-- src/pft.c: what `pft_rm_obj` takes out of the tree, and that it undoes `pft_add_obj`.
use dhttp.Base.{
  ℕ, ◌+◌, ◌≤◌, ◌<◌, ◌≡◌, ◌≢◌, inl, inr, refl, sym, ap, ◌∙◌, arith, Bool, true, false, Option-cases,
  Option, none, some, List, [], ◌∷◌, length, get_or, ltb, if◌then◌else◌, ok, Returns,
}
use dhttp.Config.{obj_name_len}
use dhttp.Darr.Laws.{IsReadable, IsSound, IsFirst, get_elem_idx-IsFirst, rm_elem_by_idx-IsSound}
use dhttp.Darr.Words.{hit, count}
use dhttp.Darr.{Darr, elems, get_elem_idx}
use dhttp.Pft.Lookup.{
  darr_at, darr_at-found, darr_at_missing, IsPut, below-IsPut, find_peer-put_peer, find_peer_other,
}
use dhttp.Pft.Names.{
  ids_at, ids_in, Adds, AllSound, CanTake, count-take_none, count-take_some, fields-some,
  pft_add_obj-IsAddedAt,
}
use dhttp.Pft.{Pft, fields, find_peer, put_peer, drop_nid, rm_under, pft_add_obj, pft_rm_obj}

-- the id is there once less, if it was there
abbrev pub Removes : ℕ → List ℕ → List ℕ → Type 0
Removes nid ids ids' =
    (x : ℕ)
    → count x ids ≡ (if ltb 0 (count nid ids) then hit x nid + count x ids' else count x ids')

IsSound-IsReadable : (d : Darr) → IsSound d → IsReadable d
IsSound-IsReadable d (inl (_, words, few)) = omega arith
IsSound-IsReadable d (inr (_, empty, zero_left)) = omega arith

once_less :
    (d d' : Darr) (nid x i : ℕ)
    → i < d.curr_elem
    → get_or d.block i 0 ≡ nid
    → ((y : ℕ) → count y (elems d') + hit y (get_or d.block i 0) ≡ count y (elems d))
    → count x (elems d) ≡ hit x nid + count x (elems d')
once_less d d' nid x i under at counts =
    let e : hit x (get_or d.block i 0) ≡ hit x nid = ap (hit x) at in omega (arith, counts x)

module _ (granted : Bool) (nid : ℕ) where
  drop_nid-Removes :
      (d : Darr)
      → IsSound d
      → (d' : Darr) × (drop_nid granted nid (some d) ≡ ok (some d'))
        × IsSound d'
        × Removes nid (elems d) (elems d')
  unfolding drop_nid
  drop_nid-Removes d sound =
      let readable = IsSound-IsReadable d sound in
      let (i, looked, first) = get_elem_idx-IsFirst d nid readable in
      by_index i looked first readable
    where
      by_index :
          (i : Option ℕ)
          → get_elem_idx d nid ≡ ok i
          → IsFirst d.block nid 0 d.curr_elem i
          → IsReadable d
          → (d' : Darr) × (drop_nid granted nid (some d) ≡ ok (some d'))
            × IsSound d'
            × Removes nid (elems d) (elems d')
      by_index none looked apart readable =
          let zero_times =
            count-take_none nid d.block d.curr_elem readable (λ k l. apart k (omega arith) l) in
          let t : ltb 0 (count nid (elems d)) ≡ false = ground arith in
          (d, rw looked refl, sound, λ x. rw t refl)
      by_index (some i) looked (_, under, at, _) readable =
          let is = count-take_some nid d.block d.curr_elem i readable under at in
          let t : ltb 0 (count nid (elems d)) ≡ true = ground arith in
          let (r, removed, (kept, how)) = rm_elem_by_idx-IsSound granted d i sound in
          (
            r.1,
            rw (looked, removed) refl,
            kept,
            λ x. rw t (
                once_less d r.1 nid x i under at
                  (elim how [ inl past ↦ absurd (omega (arith, past.0)) | inr h ↦ h.2 ])),
          )

  -- The array at the path is replaced, all others stay.
  rm_under-IsPut :
      (fs : List (List ℕ)) (x : Option Darr × Pft) (d : Darr) (o : Option Darr)
      → darr_at fs x ≡ some d
      → drop_nid granted nid (some d) ≡ ok o
      → Returns (rm_under granted nid fs x) (IsPut fs x o)
  unfolding rm_under
  rm_under-IsPut [] (darr, child) d o is run = ((o, child), rw is (rw run refl), (refl, other))
    where
      other : (gs : List (List ℕ)) → gs ≢ [] → darr_at gs (o, child) ≡ darr_at gs (darr, child)
      other [] ne = absurd (ne refl)
      other (g ∷ gs) ne = refl
  rm_under-IsPut (f ∷ fs) (darr, child) d o is run = elim (Option-cases (find_peer f child)) [
    | inl new ↦ let gone : none ≡ some d = sym (darr_at_missing f fs (darr, child) new) ∙ is in cc
    | inr (old, found) ↦
        let (r, ran, put) =
          rm_under-IsPut fs old d o (sym (darr_at-found f fs (darr, child) old found) ∙ is) run in
        (
          (darr, put_peer f r child),
          rw (rm_under, found, ran) refl,
          below-IsPut f fs darr o child (put_peer f r child) old r
              (find_peer-put_peer f r old child found) (λ h ne. find_peer_other f h r child ne)
              (λ gs. darr_at-found f gs (darr, child) old found) put,
        )
  ]

  abbrev pub IsRemovedAt : List (List ℕ) → Pft → Pft → Type 0
  IsRemovedAt path tree tree' =
      Removes nid (ids_at path tree) (ids_at path tree')
      × ((other : List (List ℕ)) → other ≢ path → ids_at other tree' ≡ ids_at other tree)

  IsPut-IsRemovedAt :
      (f : List ℕ) (fs : List (List ℕ)) (tree : Pft) (d : Darr) (x : Option Darr × Pft)
      → Removes nid (ids_at (f ∷ fs) tree) (elems d)
      → IsPut (f ∷ fs) (none, tree) (some d) x
      → IsRemovedAt (f ∷ fs) tree x.1
  IsPut-IsRemovedAt f fs tree d x removes (is, others) = (rw (ap ids_in is) removes, kept)
    where
      kept : (gs : List (List ℕ)) → gs ≢ (f ∷ fs) → ids_at gs x.1 ≡ ids_at gs tree
      kept [] ne = refl
      kept (g ∷ gs) ne = ap ids_in (others (g ∷ gs) ne)

  -- `pft_rm_obj` of a name that has an array, as the operations leave one, takes the id out of it,
  -- if it is there, and leaves the ids at all other names alone, whatever realloc answers.
  pub pft_rm_obj-IsRemovedAt :
      (obj : List ℕ) (tree : Pft) (d : Darr)
      → 0 < length obj
      → darr_at (fields obj) (none, tree) ≡ some d
      → IsSound d
      → Returns (pft_rm_obj granted obj nid tree) (IsRemovedAt (fields obj) tree)
  unfolding pft_rm_obj
  pft_rm_obj-IsRemovedAt obj tree d some_byte is sound =
      let (f, fs, e) = fields-some obj some_byte in
      let (d', dropped, kept, removes) = drop_nid-Removes d sound in
      let at : darr_at (f ∷ fs) (none, tree) ≡ some d = rw e at is in
      let (x, run, put) = rm_under-IsPut (f ∷ fs) (none, tree) d (some d') at dropped in
      let changed = IsPut-IsRemovedAt f fs tree d' x (rw (ap ids_in at) removes) put in
      (x.1, rw (pft_rm_obj, e, run) refl, rw e changed)

undone :
    (nid : ℕ) (ids ids' ids'' : List ℕ)
    → count nid ids ≡ 0
    → Adds nid ids ids'
    → Removes nid ids' ids''
    → (x : ℕ) → count x ids'' ≡ count x ids
undone nid ids ids' ids'' new adds removes x =
    let t : ltb 0 (count nid ids) ≡ false = ground arith in
    let grown : (y : ℕ) → count y ids' ≡ hit y nid + count y ids = λ y. rw t at (adds y) in
    let one : hit nid nid ≡ 1 = ground arith in
    let t' : ltb 0 (count nid ids') ≡ true = ground (arith, grown nid) in
    let less : count x ids' ≡ hit x nid + count x ids'' = rw t' at (removes x) in
    omega (arith, grown x)

-- Removing undoes adding: an id that was not at the name is added to a sound array that has room, and
-- after its removal the same ids stand at the name, as often as before, and at every other name.
pub pft_rm_obj-pft_add_obj :
    (grants : ℕ → Bool) (granted : Bool) (nid : ℕ) (obj : List ℕ) (tree : Pft)
    → ((k : ℕ) → grants k ≡ true)
    → 0 < length obj
    → length obj ≤ obj_name_len
    → CanTake nid (darr_at (fields obj) (none, tree))
    → AllSound (darr_at (fields obj) (none, tree))
    → count nid (ids_at (fields obj) tree) ≡ 0
    → Returns (pft_add_obj grants obj nid tree) λ r. Returns (pft_rm_obj granted obj nid r.1) λ t.
      ((x : ℕ) → count x (ids_at (fields obj) t) ≡ count x (ids_at (fields obj) tree))
      × ((other : List (List ℕ)) → other ≢ fields obj → ids_at other t ≡ ids_at other tree)
pft_rm_obj-pft_add_obj grants granted nid obj tree all some_byte short able sound new =
    let (r, added, (done, (adds, others), (d, at, kept))) =
      pft_add_obj-IsAddedAt grants all nid obj tree some_byte short able in
    let (t, removed, (removes, others')) =
      pft_rm_obj-IsRemovedAt granted nid obj r.1 d some_byte at (kept sound) in
    (
      r,
      added,
      (
        t,
        removed,
        (
          undone nid (ids_at (fields obj) tree) (ids_at (fields obj) r.1) (ids_at (fields obj) t)
              new adds removes,
          λ path ne. others' path ne ∙ others path ne,
        ),
      ),
    )
