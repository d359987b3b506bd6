-- ===== src/RouteTable/Rows.antt =====
-- src/dijkstra.c: the rows of the matrix that `add_rows`, the last loop of `construct_graph`, writes.
use dhttp.Base.{
  ℕ, zero, suc, ◌+◌, ◌*◌, ◌<◌, ◌≡◌, refl, sym, ap, subst, ◌∙◌, arith, true, false, ◌&&◌, Bool, none,
  some, List, [], length, get_or, leb, ◌==◌, if◌then◌else◌, ℕ_discrete, Run, Returns, ◌>>=◌,
}
use dhttp.Base.Int.{pos, rounds_to}
use dhttp.Darr.Laws.{load-get_or}
use dhttp.Dijkstra.{weight}
use dhttp.Ht.{Ht, ht_find}
use dhttp.Lsa.{Lsa, lsa_ht}
use dhttp.RouteTable.Graph.{known_links, Gets, Gets-none, add_links-Gets}
use dhttp.RouteTable.Routes.{NoRepeat}
use dhttp.RouteTable.{nodeid_already_in, add_links, add_rows}

-- the links of a stored announcement that are used
abbrev pub said : List ℕ → Lsa → List ℕ
said ids p = if p.is_valid then known_links ids p.links else []

abbrev pub says : List ℕ → Ht Lsa → ℕ → ℕ → Bool
says ids lsas from to = elim (ht_find lsa_ht from lsas) [
  | none ↦ false
  | some p ↦ nodeid_already_in (said ids p) to
]

-- every node but the first has an announcement, with as many links as its header says
abbrev pub AreStored : ℕ → List ℕ → Ht Lsa → Type 0
AreStored n ids lsas =
    (i : ℕ)
    → 0 < i
    → i < n
    → (p : Lsa) × (ht_find lsa_ht (get_or ids i 0) lsas ≡ some p)
      × (p.head.num_lnk_entr ≡ pos (length p.links))

next_row :
    (row u : ℕ) (s a : Bool) (w : ℕ)
    → (row ≡ u → s ≡ a)
    → (if leb (row + 1) u && s then 1 else (if row == u && a then 1 else w))
      ≡ (if leb row u && s then 1 else w)
next_row row u s a w e = elim (ℕ_discrete row u) [
  | yes same ↦
      let t1 : leb (row + 1) u ≡ false = ground arith in
      let t2 : (row == u) ≡ true = ground arith in
      let t3 : leb row u ≡ true = ground arith in rw (t1, t2, t3, e same) refl
  | no other ↦
      let t1 : leb (row + 1) u ≡ leb row u = ground arith in
      let t2 : (row == u) ≡ false = ground arith in rw (t1, t2) refl
]

module _ (n : ℕ) (ids : List ℕ) (size : length ids ≡ n) (once : NoRepeat ids n) (lsas : Ht Lsa)
    (stored : AreStored n ids lsas) where
  -- the rows from `row` on get the links that are announced
  abbrev pub Rows : ℕ → List ℕ → List ℕ → Type 0
  Rows row graph g =
      (length g ≡ n * n)
      × ((u v : ℕ)
          → u < n
          → v < n
          → weight g n u v ≡ (
              if leb row u && says ids lsas (get_or ids u 0) (get_or ids v 0)
              then 1
              else weight graph n u v))

  Rows-Gets :
      (row : ℕ) (p : Lsa) (graph g g' : List ℕ)
      → ht_find lsa_ht (get_or ids row 0) lsas ≡ some p
      → Gets n ids size once row (said ids p) graph g
      → Rows (row + 1) g g'
      → Rows row graph g'
  Rows-Gets row p graph g g' is_p (_, w) (e, w') = (
    e,
    λ u v lu lv.
        w' u v lu lv
        ∙ rw (w u v lv) (
            next_row row u (says ids lsas (get_or ids u 0) (get_or ids v 0))
              (nodeid_already_in (said ids p) (get_or ids v 0)) (weight graph n u v)
              (λ same.
                let at_u : ht_find lsa_ht (get_or ids u 0) lsas ≡ some p =
                  ap (λ (j : ℕ). ht_find lsa_ht (get_or ids j 0) lsas) (sym same) ∙ is_p in
                rw (says, at_u) refl)),
  )

  -- one announcement, whether it is valid or not
  row_links :
      (row : ℕ) (p : Lsa) (graph : List ℕ) (next : List ℕ → Run (List ℕ))
      → row < n
      → ht_find lsa_ht (get_or ids row 0) lsas ≡ some p
      → p.head.num_lnk_entr ≡ pos (length p.links)
      → length graph ≡ n * n
      → ((g : List ℕ) → length g ≡ n * n → Returns (next g) (Rows (row + 1) g))
      → Returns
          (elim p.is_valid [
            | true ↦ add_links ids n row p.links (rounds_to p.head.num_lnk_entr) 0 graph >>= next
            | false ↦ next graph
          ])
          (Rows row graph)
  row_links row p graph next lr is_p count e go = by_valid p.is_valid refl
    where
      added :
          Returns
            (add_links ids n row p.links (rounds_to p.head.num_lnk_entr) 0 graph)
            (Gets n ids size once row (known_links ids p.links) graph)
      added =
          subst
            (λ k.
              Returns (add_links ids n row p.links k 0 graph)
                (Gets n ids size once row (known_links ids p.links) graph))
            (ap rounds_to (sym count))
            (add_links-Gets n ids size once row 0 p.links p.links graph lr (omega arith)
              (λ i l. ap (λ (j : ℕ). get_or p.links j 0) (omega arith)) e)

      by_valid :
          (b : Bool)
          → p.is_valid ≡ b
          → Returns
              (elim b [
                | true ↦
                    add_links ids n row p.links (rounds_to p.head.num_lnk_entr) 0 graph >>= next
                | false ↦ next graph
              ])
              (Rows row graph)
      by_valid true valid =
          let (g, ran, gets) = added in
          let (g', went, rows) = go g gets.0 in
          (g', rw ran went, Rows-Gets row p graph g g' is_p (rw valid gets) rows)
      by_valid false valid =
          let (g', went, rows) = go graph e in
          (
            g',
            went,
            Rows-Gets row p graph graph g' is_p (rw valid (Gets-none n ids size once row graph e))
                rows,
          )

  pub add_rows-Rows :
      (rounds row : ℕ) (graph : List ℕ)
      → 0 < row
      → row + rounds ≡ n
      → length graph ≡ n * n
      → Returns (add_rows lsas ids n rounds row graph) (Rows row graph)
  unfolding add_rows
  add_rows-Rows zero row graph lr ends e =
      (graph, refl, (e, λ u v lu lv. let t : leb row u ≡ false = ground arith in rw t refl))
  add_rows-Rows (suc rounds) row graph lr ends e =
      let (p, is_p, count) = stored row lr (omega arith) in
      let (g, ran, rows) =
        row_links row p graph (add_rows lsas ids n rounds (row + 1)) (omega arith) is_p count e
          (λ g. add_rows-Rows rounds (row + 1) g (omega arith) (omega arith)) in
      (g, rw (load-get_or ids row (omega arith), ◌>>=◌, is_p, ◌>>=◌) ran, rows)
