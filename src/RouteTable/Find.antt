-- ===== src/RouteTable/Find.antt =====
-- src/dijkstra.c: the binary search of `find_route_entry`.
use dhttp.Base.{
  ℕ, zero, suc, ◌+◌, ◌-◌, ◌/◌, ◌≤◌, ◌<◌, ◌≡◌, ◌≢◌, refl, sym, ap, ◌∙◌, arith, true, false,
  Bool-cases, inl, inr, Option, none, some, List, [], ◌∷◌, length, get_or, get_elem?-get_or, ltb,
  dec_lt, Returns,
}
use dhttp.RouteTable.Sorted.{Above, IsSorted, In, first, later}
use dhttp.RouteTable.{TableEntry, find_from, find_route_entry}

abbrev blank : TableEntry
blank = record { dest = 0; next_hop = 0; cost = 0 }

abbrev entry_at : List TableEntry → ℕ → TableEntry
entry_at table i = get_or table i blank

entry_at-Above :
    (x : ℕ) (l : List TableEntry) (i : ℕ) → Above x l → i < length l → x < (entry_at l i).dest
entry_at-Above x [] i a h = absurd (omega arith)
entry_at-Above x (e ∷ l) zero a h = a.0
entry_at-Above x (e ∷ l) (suc i) a h = entry_at-Above x l i a.1 (omega arith)

entry_at-lt :
    (l : List TableEntry) (i j : ℕ)
    → IsSorted l
    → i < j
    → j < length l
    → (entry_at l i).dest < (entry_at l j).dest
entry_at-lt [] i j s h k = absurd (omega arith)
entry_at-lt (e ∷ l) i zero s h k = absurd (omega arith)
entry_at-lt (e ∷ l) zero (suc j) s h k = entry_at-Above e.dest l j s.0 (omega arith)
entry_at-lt (e ∷ l) (suc i) (suc j) s h k = entry_at-lt l i j s.1 (omega arith) (omega arith)

entry_at-In : (l : List TableEntry) (i : ℕ) → i < length l → In (entry_at l i) l
entry_at-In [] i h = absurd (omega arith)
entry_at-In (e ∷ l) zero h = first
entry_at-In (e ∷ l) (suc i) h = later (entry_at-In l i (omega arith))

In-entry_at :
    (e : TableEntry) (l : List TableEntry) → In e l → (i : ℕ) × (i < length l) × (entry_at l i ≡ e)
In-entry_at e [] h = elim h [ ]
In-entry_at e (x ∷ l) first = (0, omega arith, refl)
In-entry_at e (x ∷ l) (later h) = let (i, lt, is) = In-entry_at e l h in (suc i, omega arith, is)

-- the entry of the table with that destination, or NULL if there is none
abbrev pub Found : List TableEntry → ℕ → Option TableEntry → Type 0
Found table target none = (e : TableEntry) → In e table → e.dest ≢ target
Found table target (some e) =
    (e.dest ≡ target) × In e table × ((e' : TableEntry) → In e' table → e'.dest ≡ target → e' ≡ e)

module _ (table : List TableEntry) (target : ℕ) (sorted : IsSorted table) where
  only :
      (i : ℕ)
      → i < length table
      → (entry_at table i).dest ≡ target
      → (e' : TableEntry) → In e' table
      → e'.dest ≡ target
      → e' ≡ entry_at table i
  only i h e e' p q =
      let (j, lt, is) = In-entry_at e' table p in
      let at_j : (entry_at table j).dest ≡ target = ap (λ (x : TableEntry). x.dest) is ∙ q in
      let not_below : (i < j) → (entry_at table i).dest < (entry_at table j).dest =
        λ k. entry_at-lt table i j sorted k lt in
      let not_above : (j < i) → (entry_at table j).dest < (entry_at table i).dest =
        λ k. entry_at-lt table j i sorted k h in
      let same : j ≡ i = grind arith in sym is ∙ ap (entry_at table) same

  none_left :
      (low : ℕ)
      → ((i : ℕ) → i < low → (entry_at table i).dest < target)
      → ((i : ℕ) → low ≤ i → i < length table → target < (entry_at table i).dest)
      → Found table target none
  none_left low lo hi e p q =
      let (j, lt, is) = In-entry_at e table p in
      let at_j : (entry_at table j).dest ≡ target = ap (λ (x : TableEntry). x.dest) is ∙ q in
      elim (dec_lt j low) [
        | yes below ↦ let l = lo j below in omega arith
        | no above ↦ let l = hi j (omega arith) lt in omega arith
      ]

  find_from-Found :
      (fuel low above : ℕ)
      → above - low < fuel
      → above ≤ length table
      → ((i : ℕ) → i < low → (entry_at table i).dest < target)
      → ((i : ℕ) → above ≤ i → i < length table → target < (entry_at table i).dest)
      → Returns (find_from table target fuel low above) (Found table target)
  unfolding find_from
  find_from-Found zero low above f h lo hi = absurd (omega arith)
  find_from-Found (suc fuel) low above f h lo hi = elim (dec_lt low above) [
    | no done ↦
        let stop : ltb low above ≡ false = ground arith in
        (none, rw stop refl, none_left low lo (λ i l. hi i (omega arith)))
    | yes more ↦
        let go : ltb low above ≡ true = ground arith in
        let middle = low + (above - 1 - low) / 2 in
        let inside : middle < above = omega arith in
        let read = get_elem?-get_or table middle blank (omega arith) in
        elim (Bool-cases (ltb target (entry_at table middle).dest)) [
          | inl left ↦
              let lt : target < (entry_at table middle).dest = ground arith in
              let (r, run, found) =
                find_from-Found fuel low middle (omega arith) (omega arith) lo (λ i l m.
                  elim (dec_lt middle i) [
                    | yes k ↦ let o = entry_at-lt table middle i sorted k m in omega arith
                    | no k ↦ let same : middle ≡ i = omega arith in rw⁻¹ same lt
                  ]) in
              (r, rw (go, read, left) run, found)
          | inr not_left ↦ elim (Bool-cases (ltb (entry_at table middle).dest target)) [
            | inl right ↦
                let gt : (entry_at table middle).dest < target = ground arith in
                let (r, run, found) =
                  find_from-Found fuel (middle + 1) above (omega arith) h
                    (λ i l. elim (dec_lt i middle) [
                      | yes k ↦
                          let o = entry_at-lt table i middle sorted k (omega arith) in omega arith
                      | no k ↦ let same : middle ≡ i = omega arith in rw⁻¹ same gt
                    ])
                    hi in
                (r, rw (go, read, not_left, right) run, found)
            | inr not_right ↦
                let is_it : (entry_at table middle).dest ≡ target = ground arith in
                (
                  some (entry_at table middle),
                  rw (go, read, not_left, not_right) refl,
                  (is_it, entry_at-In table middle (omega arith), only middle (omega arith) is_it),
                )
          ]
        ]
  ]

-- On a table in strictly ascending order the search ends with no access out of bounds, and it
-- returns the one entry with that destination, or NULL exactly if there is none.
pub find_route_entry-Found :
    (table : List TableEntry) (target : ℕ)
    → IsSorted table
    → Returns (find_route_entry table target) (Found table target)
unfolding find_route_entry
find_route_entry-Found table target sorted =
    find_from-Found table target sorted (length table + 1) 0 (length table) (omega arith)
      (omega arith) (λ i l. absurd (omega arith)) (λ i l m. absurd (omega arith))
