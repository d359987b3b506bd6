-- ===== src/Pft/Lookup.antt =====
-- src/pft.c: the tree as a map from names to arrays of node ids.
use dhttp.Base.{
  ℕ, ◌+◌, ◌≡◌, ◌≢◌, refl, sym, ap, ◌∙◌, Bool, true, false, Bool-cases, Option-cases, inl, inr,
  Option, none, some, List, [], ◌∷◌, length, if◌then◌else◌, ok, Returns,
}
use dhttp.Darr.{Darr}
use dhttp.Ht.Keys.{cmpstr, cmpstr_iff}
use dhttp.Pft.{Pft, null, node, find_peer, put_peer, store_nid, add_under}

-- The array at the end of a path, below a node with the given array and children: NULL where the path
-- leads to no node.
abbrev pub darr_at : List (List ℕ) → Option Darr × Pft → Option Darr
darr_at [] x = x.0
darr_at (f ∷ fs) x = elim (find_peer f x.1) [ none ↦ none | some r ↦ darr_at fs r ]

pub darr_at-found :
    (f : List ℕ) (fs : List (List ℕ)) (x r : Option Darr × Pft)
    → find_peer f x.1 ≡ some r
    → darr_at (f ∷ fs) x ≡ darr_at fs r
darr_at-found f fs x r e = rw (darr_at, e) refl

pub darr_at_missing :
    (f : List ℕ) (fs : List (List ℕ)) (x : Option Darr × Pft)
    → find_peer f x.1 ≡ none
    → darr_at (f ∷ fs) x ≡ none
darr_at_missing f fs x e = rw (darr_at, e) refl

pub find_peer-put_peer :
    (f : List ℕ) (new old : Option Darr × Pft) (t : Pft)
    → find_peer f t ≡ some old
    → find_peer f (put_peer f new t) ≡ some new
unfolding find_peer put_peer
find_peer-put_peer f new old null e = cc
find_peer-put_peer f new old (node p d peer child) e = elim (Bool-cases (cmpstr f p)) [
  | inl same ↦ rw (same, same) refl
  | inr other ↦ rw (other, other) (find_peer-put_peer f new old peer (rw other at e))
]

pub find_peer_other :
    (f g : List ℕ) (new : Option Darr × Pft) (t : Pft)
    → cmpstr g f ≡ false
    → find_peer g (put_peer f new t) ≡ find_peer g t
unfolding find_peer put_peer
find_peer_other f g new null ne = refl
find_peer_other f g new (node p d peer child) ne = elim (Bool-cases (cmpstr f p)) [
  | inl same ↦
      let is : f ≡ p = (cmpstr_iff f p).0 same in
      let ne' : cmpstr g p ≡ false = ap (cmpstr g) (sym is) ∙ ne in rw (same, ne') refl
  | inr other ↦
      rw other
        (ap (λ q. if cmpstr g p then some (d, child) else q) (find_peer_other f g new peer ne))
]

darr_at_null : (fs : List (List ℕ)) → darr_at fs (none, null) ≡ none
unfolding find_peer
darr_at_null [] = refl
darr_at_null (f ∷ fs) = refl

-- what an insertion at `fs` leaves
abbrev pub IsPut : List (List ℕ) → Option Darr × Pft → Option Darr → Option Darr × Pft → Type 0
IsPut fs x d x' =
    (darr_at fs x' ≡ d) × ((gs : List (List ℕ)) → gs ≢ fs → darr_at gs x' ≡ darr_at gs x)

pub below-IsPut :
    (f : List ℕ) (fs : List (List ℕ)) (darr d : Option Darr) (child child' : Pft)
    (old new : Option Darr × Pft)
    → find_peer f child' ≡ some new
    → ((g : List ℕ) → cmpstr g f ≡ false → find_peer g child' ≡ find_peer g child)
    → ((gs : List (List ℕ)) → darr_at (f ∷ gs) (darr, child) ≡ darr_at gs old)
    → IsPut fs old d new
    → IsPut (f ∷ fs) (darr, child) d (darr, child')
below-IsPut f fs darr d child child' old new here others was (is, rest) =
    (darr_at-found f fs (darr, child') new here ∙ is, each)
  where
    each :
        (gs : List (List ℕ)) → gs ≢ (f ∷ fs) → darr_at gs (darr, child') ≡ darr_at gs (darr, child)
    each [] ne = refl
    each (g ∷ gs) ne = elim (Bool-cases (cmpstr g f)) [
      | inr other ↦ rw (darr_at, others g other) refl
      | inl same ↦
          let is_f : g ≡ f = (cmpstr_iff g f).0 same in
          let ne' : gs ≢ fs = λ e. ne (ap (λ h. h ∷ gs) is_f ∙ ap (λ t. f ∷ t) e) in
          ap (λ h. darr_at (h ∷ gs) (darr, child')) is_f
          ∙ darr_at-found f gs (darr, child') new here
          ∙ rest gs ne'
          ∙ sym (was gs)
          ∙ ap (λ h. darr_at (h ∷ gs) (darr, child)) (sym is_f)
    ]

-- If every node can be made, `pft_add_obj` below a node ends, and does at the object's path what
-- storing the id does to the array there; the arrays of all other paths are as they were.
pub add_under-IsPut :
    (grants : ℕ → Bool) (nid : ℕ) (fs : List (List ℕ)) (x : Option Darr × Pft) (b : Bool)
    (d : Option Darr)
    → ((k : ℕ) → grants (2 + k) ≡ true)
    → store_nid grants nid (darr_at fs x) ≡ ok (b, d)
    → Returns (add_under grants nid fs x) λ r. (r.0 ≡ b) × IsPut fs x d r.1
unfolding add_under find_peer
add_under-IsPut grants nid [] (darr, child) b d g e =
    ((b, (d, child)), rw e refl, (refl, (refl, other)))
  where
    other : (gs : List (List ℕ)) → gs ≢ [] → darr_at gs (d, child) ≡ darr_at gs (darr, child)
    other [] ne = absurd (ne refl)
    other (h ∷ gs) ne = refl
add_under-IsPut grants nid (f ∷ fs) (darr, child) b d g e =
    elim (Option-cases (find_peer f child)) [
      | inr (old, found) ↦
          let (r, run, (same, put)) =
            add_under-IsPut grants nid fs old b d g
              (ap (store_nid grants nid) (sym (darr_at-found f fs (darr, child) old found)) ∙ e) in
          (
            (r.0, (darr, put_peer f r.1 child)),
            rw (add_under, found, run) refl,
            (
              same,
              below-IsPut f fs darr d child (put_peer f r.1 child) old r.1
                  (find_peer-put_peer f r.1 old child found)
                  (λ h ne. find_peer_other f h r.1 child ne)
                  (λ gs. darr_at-found f gs (darr, child) old found) put,
            ),
          )
      | inl new ↦
          let was = λ (gs : List (List ℕ)).
            darr_at_missing f gs (darr, child) new ∙ sym (darr_at_null gs) in
          let (r, run, (same, put)) =
            add_under-IsPut grants nid fs (none, null) b d g
              (ap (store_nid grants nid) (sym (was fs)) ∙ e) in
          let child' = node f r.1.0 child r.1.1 in
          (
            (r.0, (darr, child')),
            rw (add_under, new, g (length fs), run) refl,
            (
              same,
              below-IsPut f fs darr d child child' (none, null) r.1
                  (rw ((cmpstr_iff f f).1 refl) refl) (λ h ne. rw ne refl) was put,
            ),
          )
    ]
