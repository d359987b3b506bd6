-- ===== src/RouteTable/Matrix.antt =====
-- src/dijkstra.c: the ids and the matrix that `construct_graph` makes of the announcements.
use dhttp.Base.{
  ℕ, zero, suc, ◌+◌, ◌*◌, ◌-◌, ◌<◌, ◌≡◌, ◌≢◌, refl, sym, ap, ◌∙◌, arith, true, false, ◌&&◌, Bool,
  List, ◌∷◌, length, get_or, get_or-replicate, length-replicate, replicate, leb, ◌==◌,
  if◌then◌else◌, Returns,
}
use dhttp.Dijkstra.{weight}
use dhttp.Ht.{Ht}
use dhttp.Lsa.{Lsa}
use dhttp.Dijkstra.Checked.{cell-lt}
use dhttp.RouteTable.Graph.{own_links-Gets}
use dhttp.RouteTable.Routes.{NoRepeat}
use dhttp.RouteTable.{nodeid_already_in, no_id, senders, node_ids, construct_graph}
use dhttp.RouteTable.Ids.{write_ids-all}
use dhttp.RouteTable.Rows.{says, AreStored, add_rows-Rows}

-- the links of a node: the node's own are to its neighbours, the others' stand in announcements
abbrev pub announces : ℕ → List ℕ → List ℕ → Ht Lsa → ℕ → ℕ → Bool
announces g_nid nbrs ids lsas from to =
    if g_nid == from then nodeid_already_in nbrs to else says ids lsas from to

-- the ids in the order of their indices
abbrev pub ids_of : ℕ → Ht Lsa → List ℕ
ids_of g_nid lsas = g_nid ∷ senders g_nid lsas.buckets

abbrev pub id_at : ℕ → Ht Lsa → ℕ → ℕ
id_at g_nid lsas i = get_or (ids_of g_nid lsas) i 0

abbrev pub IsGraph : ℕ → List ℕ → Ht Lsa → List ℕ × List ℕ → Type 0
IsGraph g_nid nbrs lsas r =
    let n = lsas.entr_cnt in
    let ids = ids_of g_nid lsas in
    (r.0 ≡ ids)
    × (length r.1 ≡ n * n)
    × ((u v : ℕ)
        → u < n
        → v < n
        → weight r.1 n u v ≡ (
            if announces g_nid nbrs ids lsas (id_at g_nid lsas u) (id_at g_nid lsas v)
            then 1
            else 0))

which_row :
    (u from g_nid : ℕ) (s b : Bool)
    → (u ≡ 0 → g_nid ≡ from)
    → (0 < u → g_nid ≢ from)
    → ◌≡◌ {A = ℕ}
        (if leb 1 u && s then 1 else (if 0 == u && b then 1 else 0))
        (if (if g_nid == from then b else s) then 1 else 0)
which_row zero from g_nid s b own other =
    let e = own refl in let t : (g_nid == from) ≡ true = ground arith in rw t refl
which_row (suc u) from g_nid s b own other =
    let e = other (omega arith) in
    let t : (g_nid == from) ≡ false = ground arith in
    let t1 : leb 1 (suc u) ≡ true = ground arith in
    let t2 : (0 == suc u) ≡ false = ground arith in rw (t, t1, t2) refl

-- A link of the matrix is exactly a link of an announcement that is valid, before the first one to
-- an unknown node, or one of the node's own links to its neighbours.
pub construct_graph-IsGraph :
    (g_nid : ℕ) (nbrs : List ℕ) (lsas : Ht Lsa)
    → length (ids_of g_nid lsas) ≡ lsas.entr_cnt
    → NoRepeat (ids_of g_nid lsas) lsas.entr_cnt
    → AreStored lsas.entr_cnt (ids_of g_nid lsas) lsas
    → Returns (construct_graph lsas.entr_cnt g_nid nbrs lsas) (IsGraph g_nid nbrs lsas)
unfolding construct_graph node_ids
construct_graph-IsGraph g_nid nbrs lsas size once stored =
    let n = lsas.entr_cnt in
    let ids = ids_of g_nid lsas in
    let (g, own, gets) =
      own_links-Gets n ids size once nbrs (replicate (n * n) 0) (omega (arith, size))
        (length-replicate (n * n) 0) in
    let (g', ran, rows) =
      add_rows-Rows n ids size once lsas stored (n - 1) 1 g (omega arith) (omega (arith, size))
        gets.0 in
    (
      (ids, g'),
      rw (write_ids-all (replicate n no_id) ids (length-replicate n no_id ∙ sym size), own, ran)
          refl,
      (refl, rows.0, λ u v lu lv. cell u v lu lv g g' gets.1 rows.1),
    )
  where
    cell :
        (u v : ℕ)
        → u < lsas.entr_cnt
        → v < lsas.entr_cnt
        → (g g' : List ℕ)
        → ((i j : ℕ)
            → j < lsas.entr_cnt
            → weight g lsas.entr_cnt i j ≡ (
                if 0 == i && nodeid_already_in nbrs (id_at g_nid lsas j)
                then 1
                else weight (replicate (lsas.entr_cnt * lsas.entr_cnt) 0) lsas.entr_cnt i j))
        → ((i j : ℕ)
            → i < lsas.entr_cnt
            → j < lsas.entr_cnt
            → weight g' lsas.entr_cnt i j ≡ (
                if leb 1 i
                  && says (ids_of g_nid lsas) lsas (id_at g_nid lsas i) (id_at g_nid lsas j)
                then 1
                else weight g lsas.entr_cnt i j))
        → weight g' lsas.entr_cnt u v ≡ (
            if announces g_nid nbrs
              (ids_of g_nid lsas)
              lsas
              (id_at g_nid lsas u)
              (id_at g_nid lsas v)
            then 1
            else 0)
    cell u v lu lv g g' own rows =
        rows u v lu lv
        ∙ rw
            (
              own u v lv,
              get_or-replicate {A = ℕ} (lsas.entr_cnt * lsas.entr_cnt) (u * lsas.entr_cnt + v) 0 0
                  (cell-lt lsas.entr_cnt u v lu lv),
            )
            (which_row u (id_at g_nid lsas u) g_nid _ _ (λ e. ap (id_at g_nid lsas) (sym e))
              (λ l. once 0 u l lu))
