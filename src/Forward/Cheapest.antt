-- ===== src/Forward/Cheapest.antt =====
-- src/forward.c: the choice among the nodes that have the object.
use dhttp.Base.{
  ℕ, zero, suc, ◌+◌, ◌≤◌, ◌<◌, ◌≡◌, ◌⊎◌, refl, ap, ◌∙◌, arith, Bool-cases, Option-cases, inl, inr,
  Option, none, some, List, length, get_or, ltb, if◌then◌else◌, dec_lt, ok, Returns, ◌>>=◌,
}
use dhttp.Darr.Laws.{IsReadable, load-get_or, get_elem_idx-IsFirst}
use dhttp.Darr.{Darr, get_elem_idx}
use dhttp.Forward.{Best, cheaper, exact_from}
use dhttp.RouteTable.Find.{Found, find_route_entry-Found}
use dhttp.RouteTable.Sorted.{IsSorted, In}
use dhttp.RouteTable.{TableEntry}

-- the choice that an entry stands for
abbrev pub of_entry : TableEntry → Best
of_entry e = record { min_cost = e.cost; next_hop = e.next_hop }

-- what one round makes of the choice `b`
pub record Improves (table : List TableEntry) (nid : ℕ) (b r : Best) : Type 0 where
  pub lower : r.min_cost ≤ b.min_cost
  pub least : (e : TableEntry) → In e table → e.dest ≡ nid → r.min_cost ≤ e.cost
  pub chosen : (r ≡ b) ⊎ ((e : TableEntry) × In e table × (e.dest ≡ nid) × (r ≡ of_entry e))

cheaper-Improves :
    (table : List TableEntry) (nid : ℕ) (b : Best)
    → IsSorted table
    → Returns (cheaper table nid b) (Improves table nid b)
unfolding cheaper
cheaper-Improves table nid b sorted =
    let (o, run, found) = find_route_entry-Found table nid sorted in rw run (decide o found)
  where
    decide :
        (o : Option TableEntry)
        → Found table nid o
        → Returns
            (ok o >>= elim [
              | none ↦ ok b
              | some e ↦ if ltb e.cost b.min_cost then ok (of_entry e) else ok b
            ])
            (Improves table nid b)
    decide none found = (
      b,
      refl,
      record { lower = omega arith; least = λ e at is. absurd (found e at is); chosen = inl refl },
    )
    decide (some e) (is, at, only) = elim (Bool-cases (ltb e.cost b.min_cost)) [
      | inl less ↦ (
        of_entry e,
        rw less refl,
        record {
          lower = ground arith;
          least = λ e' at' is'. rw (only e' at' is') (omega arith);
          chosen = inr (e, at, is, refl);
        },
      )
      | inr more ↦ (
        b,
        rw more refl,
        record {
          lower = omega arith;
          least = λ e' at' is'. rw (only e' at' is') (ground arith);
          chosen = inl refl;
        },
      )
    ]

-- The choice `r` after the nodes `i` to `j - 1` of the array, those in `all_pre` left out.
pub record IsCheapest (table : List TableEntry) (all_pre : Darr) (arr : List ℕ) (i j : ℕ)
    (b r : Best) : Type 0 where
  pub lower : r.min_cost ≤ b.min_cost
  pub least :
      (k : ℕ)
      → i ≤ k
      → k < j
      → get_elem_idx all_pre (get_or arr k 0) ≡ ok none
      → (e : TableEntry) → In e table
      → e.dest ≡ get_or arr k 0
      → r.min_cost ≤ e.cost
  pub chosen :
      (r ≡ b)
      ⊎ ((k : ℕ) × (e : TableEntry) × (i ≤ k)
          × (k < j)
          × In e table
          × (e.dest ≡ get_or arr k 0)
          × (get_elem_idx all_pre (get_or arr k 0) ≡ ok none)
          × (r ≡ of_entry e))

module _ (table : List TableEntry) (all_pre : Darr) (arr : List ℕ) (i j : ℕ) (lt : i < j) where
  -- the node at `i` claims a prefix
  skip-IsCheapest :
      (k : ℕ) (b r : Best)
      → get_elem_idx all_pre (get_or arr i 0) ≡ ok (some k)
      → IsCheapest table all_pre arr (i + 1) j b r
      → IsCheapest table all_pre arr i j b r
  skip-IsCheapest k b r skipped h = record {
    lower = h.lower;
    least = λ m lo hi out e at is. elim (dec_lt i m) [
      | yes more ↦ h.least m (omega arith) hi out e at is
      | no here ↦ let same : i ≡ m = omega arith in cc
    ];
    chosen = later h.chosen;
  }
    where
      later :
          (r ≡ b)
            ⊎ ((m : ℕ) × (e : TableEntry) × (i + 1 ≤ m)
                × (m < j)
                × In e table
                × (e.dest ≡ get_or arr m 0)
                × (get_elem_idx all_pre (get_or arr m 0) ≡ ok none)
                × (r ≡ of_entry e))
          → (r ≡ b)
            ⊎ ((m : ℕ) × (e : TableEntry) × (i ≤ m)
                × (m < j)
                × In e table
                × (e.dest ≡ get_or arr m 0)
                × (get_elem_idx all_pre (get_or arr m 0) ≡ ok none)
                × (r ≡ of_entry e))
      later (inl e) = inl e
      later (inr (m, e, lo, hi, at, is, free, eq)) = inr (m, e, omega arith, hi, at, is, free, eq)

  take-IsCheapest :
      (b b' r : Best)
      → get_elem_idx all_pre (get_or arr i 0) ≡ ok none
      → Improves table (get_or arr i 0) b b'
      → IsCheapest table all_pre arr (i + 1) j b' r
      → IsCheapest table all_pre arr i j b r
  take-IsCheapest b b' r out one h = record {
    lower = omega (arith, h.lower, one.lower);
    least = λ m lo hi out' e at is. elim (dec_lt i m) [
      | yes more ↦ h.least m (omega arith) hi out' e at is
      | no here ↦
          let same : m ≡ i = omega arith in
          omega (arith, h.lower, one.least e at (is ∙ ap (λ q. get_or arr q 0) same))
    ];
    chosen = later h.chosen one.chosen;
  }
    where
      later :
          (r ≡ b')
            ⊎ ((m : ℕ) × (e : TableEntry) × (i + 1 ≤ m)
                × (m < j)
                × In e table
                × (e.dest ≡ get_or arr m 0)
                × (get_elem_idx all_pre (get_or arr m 0) ≡ ok none)
                × (r ≡ of_entry e))
          → (b' ≡ b)
            ⊎ ((e : TableEntry) × In e table × (e.dest ≡ get_or arr i 0) × (b' ≡ of_entry e))
          → (r ≡ b)
            ⊎ ((m : ℕ) × (e : TableEntry) × (i ≤ m)
                × (m < j)
                × In e table
                × (e.dest ≡ get_or arr m 0)
                × (get_elem_idx all_pre (get_or arr m 0) ≡ ok none)
                × (r ≡ of_entry e))
      later (inl e) (inl e') = inl (e ∙ e')
      later (inl e) (inr (x, at, is, e')) = inr (i, x, omega arith, lt, at, is, out, e ∙ e')
      later (inr (m, e, lo, hi, at, is, free, eq)) c = inr (m, e, omega arith, hi, at, is, free, eq)

-- On a table in ascending order and readable arrays the first loop returns. Its choice costs no
-- more than the route to any of the nodes that have the object and claim no prefix of it, and is
-- the route of one of those nodes, or what the loop began with.
pub exact_from-IsCheapest :
    (table : List TableEntry) (all_pre : Darr) (arr : List ℕ) (rounds i j : ℕ) (b : Best)
    → IsSorted table
    → IsReadable all_pre
    → i + rounds ≡ j
    → j ≤ length arr
    → Returns (exact_from table all_pre arr rounds i b) (IsCheapest table all_pre arr i j b)
unfolding exact_from
exact_from-IsCheapest table all_pre arr zero i j b sorted readable e h = (
  b,
  refl,
  record { lower = omega arith; least = λ k lo hi. absurd (omega arith); chosen = inl refl },
)
exact_from-IsCheapest table all_pre arr (suc rounds) i j b sorted readable e h =
    let x = get_or arr i 0 in
    let here = load-get_or arr i (omega arith) in
    let (o, ran, first) = get_elem_idx-IsFirst all_pre x readable in
    elim (Option-cases o) [
      | inr (k, is) ↦
          let skipped = ran ∙ ap ok is in
          let (r, run, rest) =
            exact_from-IsCheapest table all_pre arr rounds (i + 1) j b sorted readable (omega arith)
              h in
          (
            r,
            rw (here, skipped, run) refl,
            skip-IsCheapest table all_pre arr i j (omega arith) k b r skipped rest,
          )
      | inl is ↦
          let out = ran ∙ ap ok is in
          let (b', chose, one) = cheaper-Improves table x b sorted in
          let (r, run, rest) =
            exact_from-IsCheapest table all_pre arr rounds (i + 1) j b' sorted readable
              (omega arith) h in
          (
            r,
            rw (here, out, chose, run) refl,
            take-IsCheapest table all_pre arr i j (omega arith) b b' r out one rest,
          )
    ]
