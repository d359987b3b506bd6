-- ===== src/RouteTable/Sorted.antt =====
-- src/dijkstra.c: the order in which `fill_route_table` leaves the entries.
use dhttp.Base.{
  ℕ, ◌<◌, ◌≡◌, ◌≢◌, ◌⊎◌, refl, sym, subst, arith, Bool-cases, inl, inr, List, [], ◌∷◌, ltb,
}
use dhttp.RouteTable.{TableEntry, insert_entry, sort_entries}

-- every destination is above `x`, or is another than `x`
abbrev pub Above : ℕ → List TableEntry → Type 0
Above x [] = Unit {0}
Above x (e ∷ l) = (x < e.dest) × Above x l

abbrev pub Fresh : ℕ → List TableEntry → Type 0
Fresh x [] = Unit {0}
Fresh x (e ∷ l) = (e.dest ≢ x) × Fresh x l

-- strictly ascending destinations
abbrev pub IsSorted : List TableEntry → Type 0
IsSorted [] = Unit {0}
IsSorted (e ∷ l) = Above e.dest l × IsSorted l

-- no destination twice
abbrev pub AreDistinct : List TableEntry → Type 0
AreDistinct [] = Unit {0}
AreDistinct (e ∷ l) = Fresh e.dest l × AreDistinct l

pub data In (e : TableEntry) : List TableEntry → Type 0 where
  first : {l : List TableEntry} → In e (e ∷ l)
  later : {x : TableEntry} {l : List TableEntry} → In e l → In e (x ∷ l)

Above-trans : (x y : ℕ) (l : List TableEntry) → x < y → Above y l → Above x l
Above-trans x y [] h a = tt
Above-trans x y (e ∷ l) h (k, a) = (omega arith, Above-trans x y l h a)

Above-insert_entry :
    (x : ℕ) (e : TableEntry) (l : List TableEntry)
    → x < e.dest
    → Above x l
    → Above x (insert_entry e l)
unfolding insert_entry
Above-insert_entry x e [] h a = (h, tt)
Above-insert_entry x e (y ∷ l) h (k, a) = elim (Bool-cases (ltb e.dest y.dest)) [
  | inl before ↦ rw before (h, (k, a))
  | inr behind ↦ rw behind (k, Above-insert_entry x e l h a)
]

IsSorted-insert_entry :
    (e : TableEntry) (l : List TableEntry)
    → Fresh e.dest l
    → IsSorted l
    → IsSorted (insert_entry e l)
unfolding insert_entry
IsSorted-insert_entry e [] f s = (tt, tt)
IsSorted-insert_entry e (y ∷ l) (ne, f) (a, s) = elim (Bool-cases (ltb e.dest y.dest)) [
  | inl before ↦
      let lt : e.dest < y.dest = ground arith in
      rw before ((lt, Above-trans e.dest y.dest l lt a), (a, s))
  | inr behind ↦
      let gt : y.dest < e.dest = ground arith in
      rw behind (Above-insert_entry y.dest e l gt a, IsSorted-insert_entry e l f s)
]

Fresh-insert_entry :
    (x : ℕ) (e : TableEntry) (l : List TableEntry)
    → e.dest ≢ x
    → Fresh x l
    → Fresh x (insert_entry e l)
unfolding insert_entry
Fresh-insert_entry x e [] h f = (h, tt)
Fresh-insert_entry x e (y ∷ l) h (k, f) = elim (Bool-cases (ltb e.dest y.dest)) [
  | inl before ↦ rw before (h, (k, f))
  | inr behind ↦ rw behind (k, Fresh-insert_entry x e l h f)
]

Fresh-sort_entries : (x : ℕ) (l : List TableEntry) → Fresh x l → Fresh x (sort_entries l)
unfolding sort_entries
Fresh-sort_entries x [] f = tt
Fresh-sort_entries x (e ∷ l) (h, f) =
    Fresh-insert_entry x e (sort_entries l) h (Fresh-sort_entries x l f)

pub sort_entries-IsSorted : (l : List TableEntry) → AreDistinct l → IsSorted (sort_entries l)
unfolding sort_entries
sort_entries-IsSorted [] d = tt
sort_entries-IsSorted (e ∷ l) (f, d) =
    IsSorted-insert_entry e (sort_entries l) (Fresh-sort_entries e.dest l f)
      (sort_entries-IsSorted l d)

In-insert_entry : (e : TableEntry) (l : List TableEntry) → In e (insert_entry e l)
unfolding insert_entry
In-insert_entry e [] = first
In-insert_entry e (y ∷ l) = elim (Bool-cases (ltb e.dest y.dest)) [
  | inl before ↦ rw before first
  | inr behind ↦ rw behind (later (In-insert_entry e l))
]

In-insert_entry_other : (e x : TableEntry) (l : List TableEntry) → In x l → In x (insert_entry e l)
unfolding insert_entry
In-insert_entry_other e x [] i = elim i [ ]
In-insert_entry_other e x (y ∷ l) first = elim (Bool-cases (ltb e.dest x.dest)) [
  | inl before ↦ rw before (later first)
  | inr behind ↦ rw behind first
]
In-insert_entry_other e x (y ∷ l) (later i) = elim (Bool-cases (ltb e.dest y.dest)) [
  | inl before ↦ rw before (later (later i))
  | inr behind ↦ rw behind (later (In-insert_entry_other e x l i))
]

pub In-sort_entries : (x : TableEntry) (l : List TableEntry) → In x l → In x (sort_entries l)
unfolding sort_entries
In-sort_entries x [] i = elim i [ ]
In-sort_entries x (e ∷ l) first = In-insert_entry x (sort_entries l)
In-sort_entries x (e ∷ l) (later i) =
    In-insert_entry_other e x (sort_entries l) (In-sort_entries x l i)

In-head : (x y : TableEntry) (l : List TableEntry) → In x (y ∷ l) → (x ≡ y) ⊎ In x l
In-head x y l first = inl refl
In-head x y l (later i) = inr i

In-insert_entry_back :
    (e x : TableEntry) (l : List TableEntry) → In x (insert_entry e l) → (x ≡ e) ⊎ In x l
unfolding insert_entry
In-insert_entry_back e x [] i = In-head x e [] i
In-insert_entry_back e x (y ∷ l) i = elim (Bool-cases (ltb e.dest y.dest)) [
  | inl before ↦ In-head x e (y ∷ l) (rw before at i)
  | inr behind ↦ elim (In-head x y (insert_entry e l) (rw behind at i)) [
    | inl same ↦ inr (subst (λ z. In x (z ∷ l)) same first)
    | inr j ↦ elim (In-insert_entry_back e x l j) [ inl is ↦ inl is | inr k ↦ inr (later k) ]
  ]
]

-- sorting makes no entries
pub In-sort_entries_back : (x : TableEntry) (l : List TableEntry) → In x (sort_entries l) → In x l
unfolding sort_entries
In-sort_entries_back x [] i = i
In-sort_entries_back x (e ∷ l) i = elim (In-insert_entry_back e x (sort_entries l) i) [
  | inl same ↦ subst (λ y. In y (e ∷ l)) (sym same) first
  | inr j ↦ later (In-sort_entries_back x l j)
]
