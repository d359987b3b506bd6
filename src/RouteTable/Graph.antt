-- ===== src/RouteTable/Graph.antt =====
-- src/dijkstra.c: the links that `own_links` and `add_links`, the loops of `construct_graph`, write.
use dhttp.Base.{
  ℕ, suc, ◌+◌, ◌*◌, ◌<◌, ◌≡◌, ◌≢◌, refl, ap, ◌∙◌, arith, true, false, ◌&&◌, Bool, Option, none,
  some, List, [], ◌∷◌, length, get_or, ◌==◌, if◌then◌else◌, dec_lt, ℕ_discrete, Run, ok, Returns,
  ◌>>=◌,
}
use dhttp.Darr.Laws.{load-get_or}
use dhttp.Darr.{load}
use dhttp.Dijkstra.{weight}
use dhttp.RouteTable.Cells.{Place, unknown, known, get_index_by_nodeid-Place, put_link-weight}
use dhttp.RouteTable.Links.{add_links_stuck}
use dhttp.RouteTable.Routes.{NoRepeat}
use dhttp.RouteTable.{get_index_by_nodeid, nodeid_already_in, put_link, own_links, add_links}

-- the links of an announcement before the first to an unknown node
abbrev pub known_links : List ℕ → List ℕ → List ℕ
known_links ids [] = []
known_links ids (x ∷ links) =
    let rest = known_links ids links in if nodeid_already_in ids x then x ∷ rest else []

either :
    (r c a : Bool) (w : ℕ)
    → (if r && a then 1 else (if r && c then 1 else w))
      ≡ (if r && (if c then true else a) then 1 else w)
either false c a w = refl
either true true true w = refl
either true true false w = refl
either true false a w = refl

module _ (n : ℕ) (ids : List ℕ) (size : length ids ≡ n) (once : NoRepeat ids n) where
  -- `g` is `graph` with the links of row `row` to the ids of `xs`
  abbrev pub Gets : ℕ → List ℕ → List ℕ → List ℕ → Type 0
  Gets row xs graph g =
      (length g ≡ n * n)
      × ((u v : ℕ)
          → v < n
          → weight g n u v
            ≡ (if row == u && nodeid_already_in xs (get_or ids v 0) then 1 else weight graph n u v))

  pub same_place : (col v : ℕ) → col < n → v < n → (col == v) ≡ (get_or ids col 0 == get_or ids v 0)
  same_place col v lc lv = elim (ℕ_discrete col v) [
    | yes same ↦
        let e : get_or ids col 0 ≡ get_or ids v 0 = ap (λ (j : ℕ). get_or ids j 0) same in
        ground arith
    | no other ↦ elim (dec_lt col v) [
      | yes under ↦ let d = once col v under lv in ground (arith)
      | no over ↦ let d = once v col (omega arith) lc in ground (arith)
    ]
  ]

  pub Gets-none : (row : ℕ) (graph : List ℕ) → length graph ≡ n * n → Gets row [] graph graph
  unfolding nodeid_already_in
  Gets-none row graph e = (e, λ u v l. ground arith)

  Gets-skip :
      (row x : ℕ) (xs graph g : List ℕ)
      → ((v : ℕ) → v < length ids → get_or ids v 0 ≢ x)
      → Gets row xs graph g
      → Gets row (x ∷ xs) graph g
  unfolding nodeid_already_in
  Gets-skip row x xs graph g apart (e, w) = (
    e,
    λ u v l.
        let d = apart v (omega arith) in
        let f : (x == get_or ids v 0) ≡ false = ground arith in rw f (w u v l),
  )

  Gets-cons :
      (row x col : ℕ) (xs graph g g' : List ℕ)
      → col < n
      → get_or ids col 0 ≡ x
      → ((u v : ℕ)
          → v < n
          → weight g n u v ≡ (if row == u && col == v then 1 else weight graph n u v))
      → Gets row xs g g'
      → Gets row (x ∷ xs) graph g'
  unfolding nodeid_already_in
  Gets-cons row x col xs graph g g' lc at one (e, w) = (
    e,
    λ u v l.
        let same : (col == v) ≡ (x == get_or ids v 0) =
          same_place col v lc l ∙ ap (λ y. y == get_or ids v 0) at in
        w u v l
        ∙ rw (one u v l, same)
            (either (row == u) (x == get_or ids v 0) (nodeid_already_in xs (get_or ids v 0)) _),
  )

  Gets-put :
      (row x col : ℕ) (xs graph : List ℕ)
      → row < n
      → col < length ids
      → get_or ids col 0 ≡ x
      → length graph ≡ n * n
      → (next : List ℕ → Run (List ℕ))
      → ((g : List ℕ) → length g ≡ n * n → Returns (next g) (Gets row xs g))
      → Returns (put_link n row (some col) graph >>= next) (Gets row (x ∷ xs) graph)
  Gets-put row x col xs graph lr lc at e next go =
      let (g, put, (e', w)) = put_link-weight n graph row col e lr (omega arith) in
      let (g', ran, gets) = go g e' in
      (g', rw put ran, Gets-cons row x col xs graph g g' (omega arith) at w gets)

  pub own_links-Gets :
      (nbrs graph : List ℕ)
      → 0 < n
      → length graph ≡ n * n
      → Returns (own_links ids n nbrs graph) (Gets 0 nbrs graph)
  unfolding own_links
  own_links-Gets [] graph some_node e = (graph, refl, Gets-none 0 graph e)
  own_links-Gets (x ∷ nbrs) graph some_node e =
      by_place (get_index_by_nodeid ids x) (get_index_by_nodeid-Place ids x)
        (λ g. own_links-Gets nbrs g some_node)
    where
      by_place :
          (o : Option ℕ)
          → Place ids x o
          → ((g : List ℕ) → length g ≡ n * n → Returns (own_links ids n nbrs g) (Gets 0 nbrs g))
          → Returns
              (elim o [
                | none ↦ own_links ids n nbrs graph
                | some col ↦ put_link n 0 (some col) graph >>= λ g. own_links ids n nbrs g
              ])
              (Gets 0 (x ∷ nbrs) graph)
      by_place none (unknown out apart) again =
          let (g, ran, gets) = again graph e in (g, ran, Gets-skip 0 x nbrs graph g apart gets)
      by_place (some col) (known inside l at) again =
          Gets-put 0 x col nbrs graph some_node l at e _ again

  -- `rest` is what `links` holds from `k` on
  pub add_links-Gets :
      (row k : ℕ) (links rest graph : List ℕ)
      → row < n
      → length links ≡ k + length rest
      → ((i : ℕ) → i < length rest → get_or links (k + i) 0 ≡ get_or rest i 0)
      → length graph ≡ n * n
      → Returns
          (add_links ids n row links (length rest) k graph)
          (Gets row (known_links ids rest) graph)
  unfolding add_links
  add_links-Gets row k links [] graph lr ends at e = (graph, refl, Gets-none row graph e)
  add_links-Gets row k links (x ∷ rest) graph lr ends at e =
      let first : get_or links k 0 ≡ x =
        ap (λ (j : ℕ). get_or links j 0) (omega arith) ∙ at 0 (omega arith) in
      let read : load links k ≡ ok x = load-get_or links k (omega arith) ∙ ap ok first in
      by_place (get_index_by_nodeid ids x) refl (get_index_by_nodeid-Place ids x) first read (λ g.
        add_links-Gets row (k + 1) links rest g lr (omega arith)
          (λ i l. ap (λ (j : ℕ). get_or links j 0) (omega arith) ∙ at (suc i) (omega arith)))
    where
      by_place :
          (o : Option ℕ)
          → get_index_by_nodeid ids x ≡ o
          → Place ids x o
          → get_or links k 0 ≡ x
          → load links k ≡ ok x
          → ((g : List ℕ)
              → length g ≡ n * n
              → Returns
                  (add_links ids n row links (length rest) (k + 1) g)
                  (Gets row (known_links ids rest) g))
          → Returns
              (add_links ids n row links (suc (length rest)) k graph)
              (Gets row (known_links ids (x ∷ rest)) graph)
      by_place none index (unknown out apart) first read again = (
        graph,
        add_links_stuck ids n row links (suc (length rest)) k x graph (omega arith) first out,
        rw out (Gets-none row graph e),
      )
      by_place (some col) index (known inside l at) first read again =
          let (g, ran, gets) = Gets-put row x col (known_links ids rest) graph lr l at e _ again in
          (g, rw (read, ◌>>=◌, inside, index) ran, rw inside gets)
