-- ===== src/RouteTable/Routes.antt =====
-- src/dijkstra.c: what `fill_route_table` and `find_route_entry` make of the search.
use dhttp.Base.{
  ℕ, zero, suc, ◌+◌, ◌*◌, ◌≤◌, ◌<◌, ◌≡◌, ◌≢◌, refl, sym, subst, ap, ◌∙◌, arith, inl, inr, Option,
  none, some, List, [], ◌∷◌, length, get_or, dec_lt, ok, Returns,
}
use dhttp.Darr.Laws.{load-get_or}
use dhttp.Darr.{load}
use dhttp.Dijkstra.Correct.{Inv-dijkstra}
use dhttp.Dijkstra.NextHop.{IsNextHop, get_next_hop_ends}
use dhttp.Dijkstra.Round.{Inv}
use dhttp.Dijkstra.{Search, dist, graphsize, infinity, dijkstra}
use dhttp.RouteTable.Find.{Found, find_route_entry-Found}
use dhttp.RouteTable.Sorted.{
  Fresh, IsSorted, AreDistinct, In, first, later, sort_entries-IsSorted, In-sort_entries,
  In-sort_entries_back,
}
use dhttp.RouteTable.{
  TableEntry, no_id, hop_id, entries_from, sort_entries, fill_route_table, find_route_entry,
}

-- no node id stands twice in the first `n` places
abbrev pub NoRepeat : List ℕ → ℕ → Type 0
NoRepeat ids n = (i j : ℕ) → i < j → j < n → get_or ids i 0 ≢ get_or ids j 0

abbrev pub id_of : List ℕ → Option ℕ → ℕ
id_of ids none = no_id
id_of ids (some h) = get_or ids h 0

-- the entry for node `i`: its id, the distance of the search and the id of the next hop
pub record IsRoute (graph : List ℕ) (n : ℕ) (ids : List ℕ) (s : Search) (i : ℕ) (e : TableEntry)
    : Type 0 where
  pub dest : e.dest ≡ get_or ids i 0
  pub cost : e.cost ≡ dist s i
  pub hop : Option ℕ
  pub next_hop : e.next_hop ≡ id_of ids hop
  pub is_hop : IsNextHop graph n 0 s i hop

-- the entries for the nodes from `i` on
pub record AreEntries (graph : List ℕ) (n : ℕ) (ids : List ℕ) (s : Search) (i : ℕ)
    (es : List TableEntry) : Type 0 where
  pub fresh : (k : ℕ) → k < i → Fresh (get_or ids k 0) es
  pub distinct : AreDistinct es
  pub only : (e : TableEntry) → In e es → (j : ℕ) × (j < n) × (e.dest ≡ get_or ids j 0)
  pub has : (j : ℕ) → i ≤ j → j < n → (e : TableEntry) × In e es × IsRoute graph n ids s j e

module _ (graph : List ℕ) (n : ℕ) (some_node : 0 < n) (ids : List ℕ) (size : length ids ≡ n)
    (once : NoRepeat ids n) (s : Search) (h : Inv graph n 0 n s) where
  hop-lt : (i : ℕ) (u : ℕ) → IsNextHop graph n 0 s i (some u) → u < n
  hop-lt i u (inl (_, e)) = omega arith
  hop-lt i u (inr (_, via)) = via.in_range

  hop_id-id_of :
      (i : ℕ)
      → i < n
      → (o : Option ℕ) × (hop_id ids s i ≡ ok (id_of ids o)) × IsNextHop graph n 0 s i o
  unfolding hop_id
  hop_id-id_of i l =
      let (o, run, hop) =
        get_next_hop_ends graph n 0 s h (suc infinity) i l (omega (arith, h.bounded i l)) in
      (o, rw run (read o hop), hop)
    where
      read :
          (o : Option ℕ)
          → IsNextHop graph n 0 s i o
          → (elim o [ none ↦ ok no_id | some k ↦ load ids k ]) ≡ ok (id_of ids o)
      read none hop = refl
      read (some u) hop = load-get_or ids u (omega (arith, hop-lt i u hop))

  only_these :
      (i : ℕ)
      → i < n
      → (x : TableEntry) (es : List TableEntry) → x.dest ≡ get_or ids i 0
      → ((e : TableEntry) → In e es → (j : ℕ) × (j < n) × (e.dest ≡ get_or ids j 0))
      → (e : TableEntry) → In e (x ∷ es)
      → (j : ℕ) × (j < n) × (e.dest ≡ get_or ids j 0)
  only_these i l x es is others e first = (i, l, is)
  only_these i l x es is others e (later at) = others e at

  entries_from-AreEntries :
      (rounds i : ℕ)
      → i + rounds ≡ n
      → Returns (entries_from ids s rounds i) (AreEntries graph n ids s i)
  unfolding entries_from
  entries_from-AreEntries zero i e = (
    [],
    refl,
    record {
      fresh = λ k l. tt;
      distinct = tt;
      only = λ x at. elim at [ ];
      has = λ j l m. absurd (omega arith);
    },
  )
  entries_from-AreEntries (suc rounds) i e =
      let (o, run, hop) = hop_id-id_of i (omega arith) in
      let (es, rest, later_ones) = entries_from-AreEntries rounds (i + 1) (omega arith) in
      let x : TableEntry = record {
        dest = get_or ids i 0;
        next_hop = id_of ids o;
        cost = dist s i;
      } in
      let route : IsRoute graph n ids s i x = record {
        dest = refl;
        cost = refl;
        hop = o;
        next_hop = refl;
        is_hop = hop;
      } in
      (
        x ∷ es,
        rw (load-get_or ids i (omega arith), run, load-get_or s.d i (omega (arith, h.size_d)), rest)
            refl,
        record {
          fresh = λ k l. (λ q. once k i l (omega arith) (sym q), later_ones.fresh k (omega arith));
          distinct = (later_ones.fresh i (omega arith), later_ones.distinct);
          only = only_these i (omega arith) x es refl later_ones.only;
          has = λ j l m. elim (dec_lt i j) [
            | yes more ↦ let (y, at, is) = later_ones.has j (omega arith) m in (y, later at, is)
            | no here ↦
                let same : i ≡ j = omega arith in
                (x, first, subst (λ q. IsRoute graph n ids s q x) same route)
          ];
        },
      )

  pub fill_route_table-IsRoute : Returns (fill_route_table n ids s) λ table.
      IsSorted table
      × ((i : ℕ)
          → i < n
          → Returns
              (find_route_entry table (get_or ids i 0))
              λ r. (e : TableEntry) × (r ≡ some e) × IsRoute graph n ids s i e)
      × ((x : ℕ) → ((i : ℕ) → i < n → get_or ids i 0 ≢ x) → find_route_entry table x ≡ ok none)
  unfolding fill_route_table
  fill_route_table-IsRoute =
      let (es, run, all) = entries_from-AreEntries n 0 (omega arith) in
      let sorted = sort_entries-IsSorted es all.distinct in
      (
        sort_entries es,
        rw run refl,
        (
          sorted,
          λ i l.
              let (e, at, is) = all.has i (omega arith) l in
              let (r, ran, found) =
                find_route_entry-Found (sort_entries es) (get_or ids i 0) sorted in
              (r, ran, the_entry i e r is (In-sort_entries e es at) found),
          λ x absent.
              let (r, ran, found) = find_route_entry-Found (sort_entries es) x sorted in
              ran ∙ ap ok (no_entry x r es all.only absent found),
        ),
      )
    where
      the_entry :
          (i : ℕ) (e : TableEntry) {l : List TableEntry} (r : Option TableEntry)
          → IsRoute graph n ids s i e
          → In e l
          → Found l (get_or ids i 0) r
          → (e' : TableEntry) × (r ≡ some e') × IsRoute graph n ids s i e'
      the_entry i e none is at found = absurd (found e at is.dest)
      the_entry i e (some e') is at (dest, at', only) = (e, ap some (sym (only e at is.dest)), is)

      no_entry :
          (x : ℕ) (r : Option TableEntry) (es : List TableEntry)
          → ((e : TableEntry) → In e es → (j : ℕ) × (j < n) × (e.dest ≡ get_or ids j 0))
          → ((i : ℕ) → i < n → get_or ids i 0 ≢ x)
          → Found (sort_entries es) x r
          → r ≡ none
      no_entry x none es only absent found = refl
      no_entry x (some e) es only absent (dest, at, _) =
          let (j, l, is) = only e (In-sort_entries_back e es at) in
          absurd (absent j l (sym is ∙ dest))

-- For at most GRAPHSIZE nodes with distinct ids, the node itself first: the search and
-- `fill_route_table` return, the table is in ascending order, and `find_route_entry` of any node's
-- id returns the node's own entry, with the distance that the search found and the id of the
-- neighbour with which a cheapest walk to the node begins, or NEXT_HOP_NO at distance INFINITY; of
-- another id it returns NULL.
pub fill_route_table-dijkstra :
    (graph : List ℕ) (n : ℕ) (ids : List ℕ)
    → 0 < n
    → n * n ≤ length graph
    → n ≤ graphsize
    → length ids ≡ n
    → NoRepeat ids n
    → Returns (dijkstra graph n 0) λ s. Returns (fill_route_table n ids s) λ table.
      IsSorted table
      × ((i : ℕ)
          → i < n
          → Returns
              (find_route_entry table (get_or ids i 0))
              λ r. (e : TableEntry) × (r ≡ some e) × IsRoute graph n ids s i e)
      × ((x : ℕ) → ((i : ℕ) → i < n → get_or ids i 0 ≢ x) → find_route_entry table x ≡ ok none)
fill_route_table-dijkstra graph n ids some_node room small size once =
    let (s, run, h) = Inv-dijkstra graph n 0 some_node room small in
    (s, run, fill_route_table-IsRoute graph n some_node ids size once s h)
