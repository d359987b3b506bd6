-- ===== src/Tests/ShortestPaths.antt =====
-- src/dijkstra.c on a network of four nodes.
use dhttp.Base.{ℕ, ◌<◌, List, [], ◌∷◌, Option, none, some, true, ◌≡◌, refl, arith, ok, Returns}
use dhttp.Dijkstra.Correct.{IsShortest, dijkstra-IsShortest}
use dhttp.Dijkstra.NextHop.{IsNextHop, get_next_hop-IsNextHop}
use dhttp.Dijkstra.{Search, dist, dijkstra, get_next_hop}

-- 0 → 1, 1 → 2, 2 → 0; nothing leads to 3
abbrev network : List ℕ
network = 0 ∷ 1 ∷ 0 ∷ 0 ∷ 0 ∷ 0 ∷ 1 ∷ 0 ∷ 1 ∷ 0 ∷ 0 ∷ 0 ∷ 1 ∷ 0 ∷ 0 ∷ 0 ∷ []

abbrev found : Search
found = record {
  d = 0 ∷ 1 ∷ 2 ∷ 4194304 ∷ [];
  prev = none ∷ some 0 ∷ some 1 ∷ none ∷ [];
  visited = true ∷ true ∷ true ∷ true ∷ [];
}

dijkstra-network : dijkstra network 4 0 ≡ ok found
unfolding dijkstra
dijkstra-network = refl

get_next_hop-network :
    (get_next_hop 9 0 2 found.prev ≡ ok (some 1)) × (get_next_hop 9 0 3 found.prev ≡ ok none)
unfolding get_next_hop
get_next_hop-network = (refl, refl)

dijkstra-IsShortest_example :
    Returns (dijkstra network 4 0) λ s. (v : ℕ) → v < 4 → IsShortest network 4 0 s v
dijkstra-IsShortest_example =
    dijkstra-IsShortest network 4 0 (omega arith) (omega arith) (omega arith)

get_next_hop-IsNextHop_example : Returns (dijkstra network 4 0) λ s.
    (v fuel : ℕ)
    → v < 4
    → dist s v < fuel
    → (o : Option ℕ) × (get_next_hop fuel 0 v s.prev ≡ ok o) × IsNextHop network 4 0 s v o
get_next_hop-IsNextHop_example =
    get_next_hop-IsNextHop network 4 0 (omega arith) (omega arith) (omega arith)
