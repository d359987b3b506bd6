-- ===== src/RouteTable/Cells.antt =====
-- src/dijkstra.c: `get_index_by_nodeid`, and what the write of one link does to the matrix.
use dhttp.Base.{
  ℕ, zero, suc, ◌+◌, ◌*◌, ◌<◌, ◌≡◌, ◌≢◌, refl, ap, ◌∙◌, arith, true, false, ◌&&◌, Option, none,
  some, List, [], ◌∷◌, length, get_or, set, length-set, get_or-set, ◌==◌, if◌then◌else◌, dec_lt,
  ℕ_discrete, Returns,
}
use dhttp.Darr.{store}
use dhttp.Dijkstra.Checked.{row_below, cell-lt}
use dhttp.Dijkstra.{weight}
use dhttp.RouteTable.{get_index_by_nodeid, nodeid_already_in, put_link}

-- where an id stands among those of the nodes
pub data Place (ids : List ℕ) (x : ℕ) : Option ℕ → Type 0 where
  unknown :
      nodeid_already_in ids x ≡ false
      → ((v : ℕ) → v < length ids → get_or ids v 0 ≢ x)
      → Place ids x none
  known :
      {col : ℕ}
      → nodeid_already_in ids x ≡ true
      → col < length ids
      → get_or ids col 0 ≡ x
      → Place ids x (some col)

pub get_index_by_nodeid-Place : (ids : List ℕ) (x : ℕ) → Place ids x (get_index_by_nodeid ids x)
unfolding get_index_by_nodeid nodeid_already_in
get_index_by_nodeid-Place [] x = unknown refl (λ v l. absurd (omega arith))
get_index_by_nodeid-Place (y ∷ ids) x = elim (ℕ_discrete y x) [
  | yes same ↦ let t : (y == x) ≡ true = ground arith in rw t (known (rw t refl) (omega arith) same)
  | no other ↦
      let t : (y == x) ≡ false = ground arith in
      rw t (behind other t (get_index_by_nodeid-Place ids x))
]
  where
    behind :
        {o : Option ℕ}
        → y ≢ x
        → (y == x) ≡ false
        → Place ids x o
        → Place (y ∷ ids) x (elim o [ none ↦ none | some i ↦ some (suc i) ])
    behind other t (unknown out apart) = unknown (rw t out) (λ v l. differs v l)
      where
        differs : (v : ℕ) → v < suc (length ids) → get_or (y ∷ ids) v 0 ≢ x
        differs zero l = other
        differs (suc v) l = apart v (omega arith)
    behind other t (known inside l at) = known (rw t inside) (omega arith) at

module _ (n : ℕ) where
  cell-eq :
      (row col u v : ℕ) → col < n → v < n → (row * n + col == u * n + v) ≡ (row == u && col == v)
  cell-eq row col u v lc lv = elim (ℕ_discrete row u) [
    | yes same ↦ let e : row * n ≡ u * n = ap (λ (i : ℕ). i * n) same in ground (arith)
    | no other ↦ elim (dec_lt row u) [
      | yes under ↦ ground (arith, row_below n row u under)
      | no over ↦ ground (arith, row_below n u row (omega arith))
    ]
  ]

  -- the write of one link changes its own cell
  pub put_link-weight :
      (graph : List ℕ) (row col : ℕ)
      → length graph ≡ n * n
      → row < n
      → col < n
      → Returns (put_link n row (some col) graph) λ g.
        (length g ≡ n * n)
        × ((u v : ℕ)
            → v < n
            → weight g n u v ≡ (if row == u && col == v then 1 else weight graph n u v))
  unfolding put_link store
  put_link-weight graph row col size lr lc =
      let within = cell-lt n row col lr lc in
      (
        set graph (row * n + col) 1,
        ground arith,
        (
          length-set graph (row * n + col) 1 ∙ size,
          λ u v lv.
              get_or-set graph (row * n + col) (u * n + v) 1 0 (omega arith)
              ∙ rw (cell-eq row col u v lc lv) refl,
        ),
      )
