-- ===== src/Pft.antt =====
-- src/pft.c and src/pft.h: the prefix tree of the objects' names, by which a lookup finds the nodes
-- that have an object. A level is a list of peers, so the tree is binary: `null`, or a node with its
-- next peer and its first child. `grants` answers the calls of malloc and realloc, in no order that
-- a result depends on but through success and failure.
pub mod Fields
pub mod Lookup
pub mod Unclaimed
pub mod Names
pub mod Removal
use dhttp.Base.{
  ℕ, zero, suc, ◌+◌, ◌-◌, Bool, true, false, Option, none, some, List, [], ◌∷◌, length, ltb, ◌==◌,
  if◌then◌else◌, Run, ok, fault, assertion_failed, null_pointer, out_of_bounds, ◌>>=◌,
}
use dhttp.Config.{obj_name_len}
use dhttp.Darr.{Darr, new_darr, get_elem_idx, add_elem, merge_darr, rm_elem_by_idx}
use dhttp.Ht.Keys.{cmpstr}
use dhttp.Lsa.{Lsa}

pub data Pft : Type 0 where
  null : Pft
  node : List ℕ → Option Darr → Pft → Pft → Pft

-- the bytes up to the first '/' with it, and the rest
unfoldable pub cut : List ℕ → List ℕ × List ℕ
cut [] = ([], [])
cut (c ∷ s) = let (field, rest) = cut s in if c == b'/' then (c ∷ [], s) else (c ∷ field, rest)

-- `get_next_field` on what is left of the string; `none` is -1
unfoldable pub get_next_field : List ℕ → Option (List ℕ × List ℕ)
unfolding cut
get_next_field [] = none
get_next_field (c ∷ s) = some (cut (c ∷ s))

-- all fields, on fuel: each has a byte or more
unfoldable pub fields_from : ℕ → List ℕ → List (List ℕ)
fields_from zero s = []
fields_from (suc fuel) s = elim (get_next_field s) [
  | none ↦ []
  | some r ↦ r.0 ∷ fields_from fuel r.1
]

unfoldable pub fields : List ℕ → List (List ℕ)
unfolding fields_from
fields s = fields_from (length s) s

-- the peer with the prefix: its array and its children
unfoldable pub find_peer : List ℕ → Pft → Option (Option Darr × Pft)
find_peer f null = none
find_peer f (node prefix darr peer child) =
    let rest = find_peer f peer in if cmpstr f prefix then some (darr, child) else rest

-- the level with the array and the children of that peer replaced
unfoldable pub put_peer : List ℕ → Option Darr × Pft → Pft → Pft
put_peer f new null = null
put_peer f new (node prefix darr peer child) =
    let rest = put_peer f new peer in
    if cmpstr f prefix then node prefix new.0 peer new.1 else node prefix darr rest child

-- the id goes into the array, which is made if there is none, unless it is there
unfoldable pub store_nid : (ℕ → Bool) → ℕ → Option Darr → Run (Bool × Option Darr)
store_nid grants nid darr = elim darr [
  | none ↦ elim (new_darr (grants 0)) [ none ↦ ok (false, none) | some d ↦ add_once d ]
  | some d ↦ add_once d
]
  where
    add_once : Darr → Run (Bool × Option Darr)
    add_once d = get_elem_idx d nid >>= elim [
      | some i ↦ ok (true, some d)
      | none ↦ add_elem (grants 1) d nid >>= λ r. ok (r.0, some r.1)
    ]

-- the loop of `pft_add_obj` below a node with the given array and children
unfoldable pub add_under :
    (ℕ → Bool) → ℕ → List (List ℕ) → Option Darr × Pft → Run (Bool × (Option Darr × Pft))
unfolding store_nid
add_under grants nid [] (darr, child) = store_nid grants nid darr >>= λ r. ok (r.0, (r.1, child))
add_under grants nid (f ∷ fs) (darr, child) =
    let fresh = add_under grants nid fs (none, null) in
    elim (find_peer f child) [
      | some found ↦ add_under grants nid fs found >>= λ r. ok (r.0, (darr, put_peer f r.1 child))
      | none ↦ elim (grants (2 + length fs)) [
        | false ↦ ok (false, (darr, child))
        | true ↦ fresh >>= λ r. ok (r.0, (darr, node f r.1.0 child r.1.1))
      ]
    ]

unfoldable pub pft_add_obj : (ℕ → Bool) → List ℕ → ℕ → Pft → Run (Bool × Pft)
pft_add_obj grants obj nid tree =
    if ltb obj_name_len (length obj) then fault assertion_failed else elim (fields obj) [
      | [] ↦ fault assertion_failed
      | ◌∷◌ f fs ↦ add_under grants nid (f ∷ fs) (none, tree) >>= λ r. ok (r.0, r.1.1)
    ]

-- what the loop of `pft_get_obj_list` has found: the array of the last node, if there was one
pub record Found : Type 0 where
  pub target : Option (Option Darr)
  pub al_pre : Darr
  pub last_pre : Option Darr

-- an array that is there and not empty counts as a prefix that was claimed
unfoldable pub pass : (ℕ → Bool) → Option Darr → Found → Run Found
pass grants none s = ok (record s { target = some none })
pass grants (some d) s =
    if d.curr_elem == 0
    then ok (record s { target = some (some d) })
    else (merge_darr grants s.al_pre d >>= λ al.
        ok (record { target = some (some d); al_pre = al; last_pre = some d }))

unfoldable pub walk : (ℕ → Bool) → List (List ℕ) → Pft → Found → Run Found
unfolding pass
walk grants [] tree s = ok s
walk grants (f ∷ fs) tree s = elim (find_peer f tree) [
  | none ↦ ok s
  | some r ↦ pass grants r.0 s >>= λ t. walk grants fs r.1 t
]

-- the end of `pft_get_obj_list`: the last array's ids are taken off the prefixes again
unfoldable pub finish_lookup : Found → Run (Option (Option Darr × Found))
finish_lookup s = elim s.target [
  | none ↦ ok none
  | some darr ↦ if s.al_pre.curr_elem == 0 then ok (some (darr, s)) else elim darr [
    | none ↦ fault null_pointer
    | some d ↦ ok (
        some (
          some d,
          record s { al_pre = record (s.al_pre) { curr_elem = s.al_pre.curr_elem - d.curr_elem } },
        ))
  ]
]

-- The array of the object's node with the prefixes, or `none` if no field of it was found. The
-- static array `al_pre` is an argument, and begins with no element.
unfoldable pub pft_get_obj_list :
    (ℕ → Bool) → List ℕ → Pft → Darr → Run (Option (Option Darr × Found))
unfolding walk finish_lookup
pft_get_obj_list grants obj tree al_pre =
    walk grants (fields obj) tree
      (record { target = none; al_pre = record al_pre { curr_elem = 0 }; last_pre = none })
    >>= finish_lookup

-- the removal of an id from an array that must be there
unfoldable pub drop_nid : Bool → ℕ → Option Darr → Run (Option Darr)
drop_nid granted nid none = fault null_pointer
drop_nid granted nid (some d) =
    get_elem_idx d nid
    >>= elim [ none ↦ ok (some d) | some i ↦ rm_elem_by_idx granted d i >>= λ r. ok (some r.1) ]

unfoldable pub rm_under : Bool → ℕ → List (List ℕ) → Option Darr × Pft → Run (Option Darr × Pft)
unfolding drop_nid
rm_under granted nid [] (darr, child) = drop_nid granted nid darr >>= λ d. ok (d, child)
rm_under granted nid (f ∷ fs) (darr, child) = elim (find_peer f child) [
  | none ↦ ok (darr, child)
  | some found ↦ rm_under granted nid fs found >>= λ r. ok (darr, put_peer f r child)
]

unfoldable pub pft_rm_obj : Bool → List ℕ → ℕ → Pft → Run Pft
unfolding rm_under
pft_rm_obj granted obj nid tree = elim (fields obj) [
  | [] ↦ ok tree
  | ◌∷◌ f fs ↦ rm_under granted nid (f ∷ fs) (none, tree) >>= λ r. ok r.1
]

-- the loops over the objects of an announcement; the results of `pft_add_obj` are not looked at
unfoldable pub add_objs : (ℕ → Bool) → ℕ → List (List ℕ) → Pft → Run Pft
add_objs grants nid [] tree = ok tree
add_objs grants nid (o ∷ os) tree =
    pft_add_obj grants o nid tree >>= λ r. add_objs grants nid os r.1

unfoldable pub rm_objs : Bool → ℕ → List (List ℕ) → Pft → Run Pft
rm_objs granted nid [] tree = ok tree
rm_objs granted nid (o ∷ os) tree = pft_rm_obj granted o nid tree >>= λ t. rm_objs granted nid os t

unfoldable pub pft_add_obj_frm_lsa : (ℕ → Bool) → Lsa → Pft → Run Pft
pft_add_obj_frm_lsa grants l tree = add_objs grants l.head.snder_id l.objs tree

unfoldable pub pft_rm_obj_frm_lsa : Bool → Lsa → Pft → Run Pft
pft_rm_obj_frm_lsa granted l tree = rm_objs granted l.head.snder_id l.objs tree
