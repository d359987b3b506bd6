-- ===== src/RouteTable/Links.antt =====
-- src/dijkstra.c: what `construct_graph` makes of the links of an announcement.
use dhttp.Base.{ℕ, zero, suc, ◌<◌, ◌≡◌, refl, false, List, length, get_or, ok, ◌>>=◌}
use dhttp.Darr.Laws.{load-get_or}
use dhttp.RouteTable.{add_links, nodeid_already_in}

-- An announcement's links after one to an unknown node are not added to the graph: the pointer
-- stays at that link for all rounds that are left.
pub add_links_stuck :
    (ids : List ℕ) (num_node row : ℕ) (links : List ℕ) (rounds k nid : ℕ) (graph : List ℕ)
    → k < length links
    → get_or links k 0 ≡ nid
    → nodeid_already_in ids nid ≡ false
    → add_links ids num_node row links rounds k graph ≡ ok graph
unfolding add_links
add_links_stuck ids num_node row links zero k nid graph h e unknown = refl
add_links_stuck ids num_node row links (suc rounds) k nid graph h e unknown =
    rw (add_links, load-get_or links k h, e, ◌>>=◌, unknown)
      (add_links_stuck ids num_node row links rounds k nid graph h e unknown)
