-- ===== src/Tests/Names.antt =====
-- src/pft.c: an id that is added and taken out again.
use dhttp.Base.{ℕ, ◌≡◌, ◌≢◌, refl, arith, true, inl, none, some, List, [], ◌∷◌, Returns}
use dhttp.Darr.Laws.{IsSound}
use dhttp.Darr.Words.{count}
use dhttp.Darr.{Darr}
use dhttp.Ht.Keys.{cmpstr}
use dhttp.Pft.Lookup.{darr_at}
use dhttp.Pft.Names.{ids_at, AllSound, IsAddedAt, pft_add_obj-IsAddedAt}
use dhttp.Pft.Removal.{pft_rm_obj-pft_add_obj}
use dhttp.Pft.{Pft, null, node, get_next_field, fields, find_peer, pft_add_obj, pft_rm_obj}

abbrev of_seven : Darr
of_seven = record { max_elem = 4; curr_elem = 1; block = 7 ∷ 0 ∷ 0 ∷ 0 ∷ [] }

-- node 7 has "/a"
abbrev tree : Pft
tree = node (b'/' ∷ []) none null (node (b'a' ∷ []) (some of_seven) null null)

abbrev name : List ℕ
name = b'/' ∷ b'a' ∷ []

of_seven-IsSound : IsSound of_seven
of_seven-IsSound = inl (refl, refl, omega arith)

pft_add_obj-IsAddedAt_example : Returns (pft_add_obj (λ k. true) name 9 tree) λ r.
    (r.0 ≡ true)
    × IsAddedAt (λ k. true) (λ k. refl) 9 (fields name) tree r.1
    × ((d : Darr) × (darr_at (fields name) (none, r.1) ≡ some d)
        × (AllSound (darr_at (fields name) (none, tree)) → IsSound d))
unfolding fields find_peer cmpstr get_next_field
pft_add_obj-IsAddedAt_example =
    pft_add_obj-IsAddedAt (λ k. true) (λ k. refl) 9 name tree (omega arith) (omega arith)
      (omega arith, inl (omega arith, omega arith))

pft_rm_obj-pft_add_obj_example : Returns (pft_add_obj (λ k. true) name 9 tree) λ r.
    Returns (pft_rm_obj true name 9 r.1) λ t.
      ((x : ℕ) → count x (ids_at (fields name) t) ≡ count x (ids_at (fields name) tree))
      × ((other : List (List ℕ)) → other ≢ fields name → ids_at other t ≡ ids_at other tree)
unfolding fields find_peer cmpstr get_next_field
pft_rm_obj-pft_add_obj_example =
    pft_rm_obj-pft_add_obj (λ k. true) true 9 name tree (λ k. refl) (omega arith) (omega arith)
      (omega arith, inl (omega arith, omega arith)) of_seven-IsSound refl
