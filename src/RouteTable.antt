-- ===== src/RouteTable.antt =====
-- src/dijkstra.c, from the announcements to the routing table: `construct_graph`,
-- `fill_route_table`, `update_route_info` and `find_route_entry`.
-- `g_node_id` and `g_graph` are arguments and results; malloc is taken to succeed, since its result
-- is not tested. NEXT_HOP_NO, stored in a uint32_t, is 2 ^ 32 - 1.
pub mod Sorted
pub mod Find
pub mod Links
pub mod Routes
pub mod Cells
pub mod Graph
mod Ids
mod Rows
mod Senders
pub mod Matrix
pub mod Topology
pub mod Network
use dhttp.Base.{
  ℕ, zero, suc, ◌+◌, ◌-◌, ◌*◌, ◌/◌, ◌^◌, Bool, true, false, not, Option, none, some, List, [], ◌∷◌,
  ◌++◌, length, get_elem?, get_or, set, replicate, ltb, ◌==◌, if◌then◌else◌, Run, ok, fault,
  or_fault, out_of_bounds, null_pointer, out_of_fuel, ◌>>=◌,
}
use dhttp.Base.Int.{rounds_to}
use dhttp.Config.{NodeInfo}
use dhttp.Darr.{store, load}
use dhttp.Dijkstra.{Search, dijkstra, get_next_hop, infinity}
use dhttp.Ht.{Ht, ht_find}
use dhttp.Lsa.{Lsa, lsa_ht}

pub record TableEntry : Type 0 where
  pub dest : ℕ
  pub next_hop : ℕ
  pub cost : ℕ

abbrev pub no_id : ℕ
no_id = 2 ^ 32 - 1

abbrev pub link_cost : ℕ
link_cost = 1

-- the first index of the node in `g_node_id`; `none` is -1
unfoldable pub get_index_by_nodeid : List ℕ → ℕ → Option ℕ
get_index_by_nodeid [] node_id = none
get_index_by_nodeid (x ∷ ids) node_id =
    let rest = get_index_by_nodeid ids node_id in
    if x == node_id then some 0 else elim rest [ none ↦ none | some i ↦ some (suc i) ]

unfoldable pub nodeid_already_in : List ℕ → ℕ → Bool
nodeid_already_in [] node_id = false
nodeid_already_in (x ∷ ids) node_id =
    let rest = nodeid_already_in ids node_id in if x == node_id then true else rest

-- the neighbours of one bucket that are up
abbrev pub valid_in : List NodeInfo → List ℕ
valid_in [] = []
valid_in (n ∷ c) = let rest = valid_in c in if n.is_valid then n.nid ∷ rest else rest

abbrev pub nbr_ids : List (List NodeInfo) → List ℕ
nbr_ids [] = []
nbr_ids (c ∷ cs) = valid_in c ++ nbr_ids cs

-- `nbrs_id` has a place for each entry of the table
unfoldable pub get_nbr_nid : Ht NodeInfo → Run (List ℕ)
get_nbr_nid nodes =
    let ids = nbr_ids nodes.buckets in
    if ltb nodes.entr_cnt (length ids) then fault out_of_bounds else ok ids

-- the senders of one bucket and of all, without the node itself
abbrev pub senders_in : ℕ → List Lsa → List ℕ
senders_in g_nid [] = []
senders_in g_nid (l ∷ c) =
    let rest = senders_in g_nid c in
    if g_nid == l.head.snder_id then rest else l.head.snder_id ∷ rest

abbrev pub senders : ℕ → List (List Lsa) → List ℕ
senders g_nid [] = []
senders g_nid (c ∷ cs) = senders_in g_nid c ++ senders g_nid cs

-- `*tmp_node_id = …; tmp_node_id++` for each id
pub write_ids : List ℕ → ℕ → List ℕ → Run (List ℕ)
write_ids node_id i [] = ok node_id
write_ids node_id i (x ∷ xs) = store node_id i x >>= λ node_id'. write_ids node_id' (i + 1) xs

-- `g_node_id`: the node itself, then the others; the places left have all bits set
unfoldable pub node_ids : ℕ → ℕ → Ht Lsa → Run (List ℕ)
unfolding write_ids
node_ids num_node g_nid lsas =
    write_ids (replicate num_node no_id) 0 (g_nid ∷ senders g_nid lsas.buckets)

-- one link of a row, by the index of the neighbour
pub put_link : ℕ → ℕ → Option ℕ → List ℕ → Run (List ℕ)
put_link num_node row none graph = fault out_of_bounds
put_link num_node row (some col) graph = store graph (row * num_node + col) link_cost

-- row 0: the links to the neighbours that are known
unfoldable pub own_links : List ℕ → ℕ → List ℕ → List ℕ → Run (List ℕ)
unfolding put_link
own_links ids num_node [] graph = ok graph
own_links ids num_node (x ∷ nbrs) graph = elim (get_index_by_nodeid ids x) [
  | none ↦ own_links ids num_node nbrs graph
  | some col ↦ put_link num_node 0 (some col) graph >>= λ g. own_links ids num_node nbrs g
]

-- The loop over the links of one announcement; `k` is the link that `nbr_id` points to. It moves
-- on only past a link to a known node, as in the source.
unfoldable pub add_links : List ℕ → ℕ → ℕ → List ℕ → ℕ → ℕ → List ℕ → Run (List ℕ)
unfolding put_link
add_links ids num_node row links zero k graph = ok graph
add_links ids num_node row links (suc rounds) k graph = load links k >>= λ nid.
    elim (nodeid_already_in ids nid) [
      | true ↦ put_link num_node row (get_index_by_nodeid ids nid) graph >>= λ g.
          add_links ids num_node row links rounds (k + 1) g
      | false ↦ add_links ids num_node row links rounds k graph
    ]

-- rows `row` to `row + rounds - 1`; the announcement is used without a test for NULL
unfoldable pub add_rows : Ht Lsa → List ℕ → ℕ → ℕ → ℕ → List ℕ → Run (List ℕ)
add_rows lsas ids num_node zero row graph = ok graph
add_rows lsas ids num_node (suc rounds) row graph = load ids row >>= λ id.
    or_fault null_pointer (ht_find lsa_ht id lsas) >>= λ p. elim p.is_valid [
      | true ↦ add_links ids num_node row p.links (rounds_to p.head.num_lnk_entr) 0 graph >>= λ g.
          add_rows lsas ids num_node rounds (row + 1) g
      | false ↦ add_rows lsas ids num_node rounds (row + 1) graph
    ]

-- `g_node_id` and `g_graph`
unfoldable pub construct_graph : ℕ → ℕ → List ℕ → Ht Lsa → Run (List ℕ × List ℕ)
construct_graph num_node g_nid nbrs lsas = node_ids num_node g_nid lsas >>= λ ids.
    own_links ids num_node nbrs (replicate (num_node * num_node) 0) >>= λ g.
    add_rows lsas ids num_node (num_node - 1) 1 g >>= λ graph. ok (ids, graph)

-- the id of the next hop, of the walk back from node `i`
unfoldable pub hop_id : List ℕ → Search → ℕ → Run ℕ
hop_id ids s i =
    get_next_hop (suc infinity) 0 i s.prev >>= elim [ none ↦ ok no_id | some h ↦ load ids h ]

-- the loop of `fill_route_table` over the nodes from `i` on
unfoldable pub entries_from : List ℕ → Search → ℕ → ℕ → Run (List TableEntry)
unfolding hop_id
entries_from ids s zero i = ok []
entries_from ids s (suc rounds) i = load ids i >>= λ dest. hop_id ids s i >>= λ hop.
    load s.d i >>= λ cost. entries_from ids s rounds (i + 1) >>= λ rest.
    ok (record { dest = dest; next_hop = hop; cost = cost } ∷ rest)

-- qsort by `cmp_dest_nid`
unfoldable pub insert_entry : TableEntry → List TableEntry → List TableEntry
insert_entry e [] = e ∷ []
insert_entry e (x ∷ l) =
    let rest = insert_entry e l in if ltb e.dest x.dest then e ∷ x ∷ l else x ∷ rest

unfoldable pub sort_entries : List TableEntry → List TableEntry
unfolding insert_entry
sort_entries [] = []
sort_entries (e ∷ l) = insert_entry e (sort_entries l)

unfoldable pub fill_route_table : ℕ → List ℕ → Search → Run (List TableEntry)
fill_route_table num_node ids s = entries_from ids s num_node 0 >>= λ es. ok (sort_entries es)

-- the search from the node itself, and the table
unfoldable pub update_route_table : ℕ → List ℕ → List ℕ → Run (List TableEntry)
update_route_table num_node ids graph =
    dijkstra graph num_node 0 >>= λ s. fill_route_table num_node ids s

-- the routing table from the neighbours and the announcements
unfoldable pub update_route_info : ℕ → Ht NodeInfo → Ht Lsa → Run (List TableEntry)
update_route_info g_nid nodes lsas =
    let num_node = lsas.entr_cnt in
    get_nbr_nid nodes >>= λ nbrs.
    construct_graph num_node g_nid nbrs lsas >>= λ g. update_route_table num_node g.0 g.1

-- The binary search. `above` is `high + 1`, so that `high` may be -1.
unfoldable pub find_from : List TableEntry → ℕ → ℕ → ℕ → ℕ → Run (Option TableEntry)
find_from table target zero low above = fault out_of_fuel
find_from table target (suc fuel) low above =
    let middle = low + (above - 1 - low) / 2 in
    let below = find_from table target fuel low middle in
    let over = find_from table target fuel (middle + 1) above in
    if ltb low above
    then (or_fault out_of_bounds (get_elem? table middle) >>= λ e.
        if ltb target e.dest then below else if ltb e.dest target then over else ok (some e))
    else ok none

-- one round more than entries is enough
unfoldable pub find_route_entry : List TableEntry → ℕ → Run (Option TableEntry)
unfolding find_from
find_route_entry table target = find_from table target (length table + 1) 0 (length table)
