-- ===== src/Dijkstra/Plain.antt =====
-- src/dijkstra.c: what the loops of `dijkstra` compute where every access is inside its array.
use dhttp.Base.{
  ℕ, ◌+◌, Bool, true, false, not, ◌&&◌, Option, none, some, List, set, replicate, ltb, ◌==◌,
  if◌then◌else◌, for_loop,
}
use dhttp.Dijkstra.{Search, dist, is_visited, weight, infinity}

abbrev pub initial : ℕ → ℕ → Search
initial source n = record {
  d = set (replicate n infinity) source 0;
  prev = replicate n none;
  visited = replicate n false;
}

-- `mini == -1 || d[i] < d[mini]`
unfoldable pub closer : Search → ℕ → Option ℕ → Bool
closer s i none = true
closer s i (some m) = ltb (dist s i) (dist s m)

-- the unvisited node with the least distance among the first `k`
unfoldable pub nearest : ℕ → Search → Option ℕ
unfolding closer
nearest k s =
    for_loop k (λ i mini. if not (is_visited s i) && closer s i mini then some i else mini) none

module _ (graph : List ℕ) (n : ℕ) where
  unfoldable pub relaxed_at : ℕ → ℕ → Search → Search
  relaxed_at mini i s =
      let w = weight graph n mini i in
      if w == 0
      then s
      else if ltb (dist s mini + w) (dist s i)
      then record s { d = set s.d i (dist s mini + w); prev = set s.prev i (some mini) }
      else s

  -- after the first `k` columns
  unfoldable pub relaxed : ℕ → ℕ → Search → Search
  relaxed mini k s = for_loop k (relaxed_at mini) s
