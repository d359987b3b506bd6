-- ===== src/Dijkstra/Walks.antt =====
-- The walks of a graph: what the search is measured against.
use dhttp.Base.{ℕ, ◌+◌, ◌<◌, ◌≡◌, List}
use dhttp.Dijkstra.{weight}

-- A walk from `src` of the given cost; a link is an entry of the matrix that is not 0.
pub data Walk (graph : List ℕ) (n src : ℕ) : ℕ → ℕ → Type 0 where
  here : {v c : ℕ} → v ≡ src → c ≡ 0 → Walk graph n src v c
  step :
      {u v c e : ℕ}
      → Walk graph n src u c
      → v < n
      → 0 < weight graph n u v
      → e ≡ c + weight graph n u v
      → Walk graph n src v e
