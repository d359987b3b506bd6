-- ===== src/RouteTable/Topology.antt =====
-- src/dijkstra.c, `update_route_info`: the routing table against the network that is announced.
use dhttp.Base.{
  ℕ, zero, suc, ◌+◌, ◌*◌, ◌≤◌, ◌<◌, ◌≡◌, ◌≢◌, ◌⊎◌, inl, inr, refl, sym, ap, subst, ◌∙◌, arith, true,
  false, Bool, Bool-cases, dec_lt, ℕ_discrete, Option, none, some, List, [], ◌∷◌, length, get_or,
  ok, ◌==◌, if◌then◌else◌, Returns,
}
use dhttp.Dijkstra.Correct.{IsShortest, Inv-dijkstra, Inv-IsShortest}
use dhttp.Dijkstra.NextHop.{IsNextHop}
use dhttp.Dijkstra.Walks.{Walk, here, step}
use dhttp.Dijkstra.{Search, weight, dist, graphsize, infinity}
use dhttp.RouteTable.Cells.{Place, unknown, known, get_index_by_nodeid-Place}
use dhttp.RouteTable.Routes.{NoRepeat, IsRoute, id_of, fill_route_table-IsRoute}
use dhttp.RouteTable.Sorted.{IsSorted}
use dhttp.RouteTable.{TableEntry, no_id, nodeid_already_in, update_route_table, find_route_entry}

-- a way from node to node, over links between known nodes; it costs its number of links
pub data Route (links : ℕ → ℕ → Bool) (ids : List ℕ) (from : ℕ) : ℕ → ℕ → Type 0 where
  start : {x c : ℕ} → x ≡ from → c ≡ 0 → Route links ids from x c
  link :
      {x y c d : ℕ}
      → Route links ids from x c
      → nodeid_already_in ids y ≡ true
      → links x y ≡ true
      → d ≡ c + 1
      → Route links ids from y d

-- a least route to `x` goes over the next hop
abbrev pub Next : (ℕ → ℕ → Bool) → List ℕ → ℕ → ℕ → TableEntry → Type 0
Next links ids g_nid x e =
    (x ≡ g_nid) × (e.next_hop ≡ g_nid)
    ⊎ (x ≢ g_nid)
      × ((links g_nid e.next_hop ≡ true)
          × ((rest : ℕ) × Route links ids e.next_hop x rest × (rest + 1 ≡ e.cost)))
    ⊎ (e.cost ≡ infinity) × (e.next_hop ≡ no_id)

-- the entry for `x` has the cost of a least route, or INFINITY, and begins one
pub record IsBest (links : ℕ → ℕ → Bool) (ids : List ℕ) (g_nid x : ℕ) (e : TableEntry)
    : Type 0 where
  pub dest : e.dest ≡ x
  pub bounded : e.cost ≤ infinity
  pub reached : e.cost < infinity → Route links ids g_nid x e.cost
  pub least : (c : ℕ) → Route links ids g_nid x c → e.cost ≤ c
  pub next : Next links ids g_nid x e

already_in-get_or :
    (ids : List ℕ) (v : ℕ) → v < length ids → nodeid_already_in ids (get_or ids v 0) ≡ true
unfolding nodeid_already_in
already_in-get_or [] v l = absurd (omega arith)
already_in-get_or (x ∷ ids) zero l = let t : (x == x) ≡ true = ground arith in rw t refl
already_in-get_or (x ∷ ids) (suc v) l = elim (Bool-cases (x == get_or ids v 0)) [
  | inl e ↦ rw e refl
  | inr e ↦ rw e (already_in-get_or ids v (omega arith))
]

module _ (links : ℕ → ℕ → Bool) (n : ℕ) (ids graph : List ℕ) (size : length ids ≡ n)
    (once : NoRepeat ids n)
    (cells : (u v : ℕ)
      → u < n
      → v < n
      → weight graph n u v ≡ (if links (get_or ids u 0) (get_or ids v 0) then 1 else 0)) where
  linked :
      (u v : ℕ)
      → u < n
      → v < n
      → 0 < weight graph n u v
      → (links (get_or ids u 0) (get_or ids v 0) ≡ true) × (weight graph n u v ≡ 1)
  linked u v lu lv pos = elim (Bool-cases (links (get_or ids u 0) (get_or ids v 0))) [
    | inl e ↦ (e, rw e at (cells u v lu lv))
    | inr e ↦ let q : weight graph n u v ≡ 0 = rw e at (cells u v lu lv) in absurd (omega arith)
  ]

  Route-Walk :
      {src v c : ℕ}
      → src < n
      → Walk graph n src v c
      → (v < n) × Route links ids (get_or ids src 0) (get_or ids v 0) c
  Route-Walk l (here e f) = (omega arith, start (ap (λ (i : ℕ). get_or ids i 0) e) f)
  Route-Walk l (step {u = u} {v = v} w lv pos e) =
      let (lu, route) = Route-Walk l w in
      let (is, one) = linked u v lu lv pos in
      (lv, link route (already_in-get_or ids v (omega arith)) is (omega arith))

  index_in : (y : ℕ) → nodeid_already_in ids y ≡ true → (v : ℕ) × (v < n) × (get_or ids v 0 ≡ y)
  index_in y inside = at_place (get_index_by_nodeid-Place ids y)
    where
      at_place : {o : Option ℕ} → Place ids y o → (v : ℕ) × (v < n) × (get_or ids v 0 ≡ y)
      at_place (unknown out apart) = absurd (let f : false ≡ true = sym out ∙ inside in cc)
      at_place (known {col = col} is l at) = (col, omega arith, at)

  same_index : (u v : ℕ) → u < n → v < n → get_or ids u 0 ≡ get_or ids v 0 → u ≡ v
  same_index u v lu lv e = elim (ℕ_discrete u v) [
    | yes same ↦ same
    | no other ↦ elim (dec_lt u v) [
      | yes under ↦ absurd (once u v under lv e)
      | no over ↦ absurd (once v u (omega arith) lu (sym e))
    ]
  ]

  Walk-Route :
      {src x c : ℕ}
      → src < n
      → Route links ids (get_or ids src 0) x c
      → (v : ℕ) × (v < n) × (get_or ids v 0 ≡ x) × Walk graph n src v c
  Walk-Route {src = src} l (start e f) = (src, l, sym e, here refl f)
  Walk-Route {src = src} l (link {y = y} route inside is e) =
      let (u, lu, at_u, w) = Walk-Route l route in
      let (v, lv, at_v) = index_in y inside in
      let joined : links (get_or ids u 0) (get_or ids v 0) ≡ true = rw (at_u, at_v) is in
      let one : weight graph n u v ≡ 1 = rw joined at (cells u v lu lv) in
      (v, lv, at_v, step w lv (omega arith) (omega arith))

  module _ (s : Search) (some_node : 0 < n)
      (least : (v : ℕ) → v < n → IsShortest graph n 0 s v) where
    hop-Next :
        (v : ℕ) (e : TableEntry) (o : Option ℕ)
        → v < n
        → e.cost ≡ dist s v
        → e.next_hop ≡ id_of ids o
        → IsNextHop graph n 0 s v o
        → Next links ids (get_or ids 0 0) (get_or ids v 0) e
    hop-Next v e none l cost hop (_, far) = inr (inr (cost ∙ far, hop))
    hop-Next v e (some u) l cost hop (inl (own, is)) =
        inl (ap (λ (i : ℕ). get_or ids i 0) own, hop ∙ ap (λ (i : ℕ). get_or ids i 0) is)
    hop-Next v e (some u) l cost hop (inr (other, via)) =
        let (is, one) = linked 0 u some_node via.in_range via.linked in
        let (lv, route) = Route-Walk via.in_range via.walk in
        inr (
          inl (
            λ q. once 0 v (omega arith) l (sym q),
            (rw hop is, (via.rest, rw hop route, omega (arith, via.total))),
          ))

    IsRoute-IsBest :
        (v : ℕ) (e : TableEntry)
        → v < n
        → IsRoute graph n ids s v e
        → IsBest links ids (get_or ids 0 0) (get_or ids v 0) e
    IsRoute-IsBest v e l r = record {
      dest = r.dest;
      bounded = rw r.cost (least v l).bounded;
      reached =
          λ b. rw r.cost (Route-Walk some_node ((least v l).reached (omega (arith, r.cost)))).1;
      least = λ c route.
          let (u, lu, at, w) = Walk-Route some_node route in
          let same : u ≡ v = same_index u v lu l at in
          omega (arith, r.cost, (least v l).least c (subst (λ i. Walk graph n 0 i c) same w));
      next = hop-Next v e r.hop l r.cost r.next_hop r.is_hop;
    }

-- what a lookup in the table gives for each known node, and that it gives no other
abbrev pub IsRouted : (ℕ → ℕ → Bool) → List ℕ → ℕ → List TableEntry → Type 0
IsRouted links ids g_nid table =
    IsSorted table
    × ((x : ℕ)
        → nodeid_already_in ids x ≡ true
        → Returns (find_route_entry table x)
            λ r. (e : TableEntry) × (r ≡ some e) × IsBest links ids g_nid x e)
    × ((x : ℕ) → nodeid_already_in ids x ≡ false → find_route_entry table x ≡ ok none)

pub update_route_table-IsRouted :
    (links : ℕ → ℕ → Bool) (n g_nid : ℕ) (others graph : List ℕ)
    → n * n ≤ length graph
    → n ≤ graphsize
    → length (g_nid ∷ others) ≡ n
    → NoRepeat (g_nid ∷ others) n
    → ((u v : ℕ)
        → u < n
        → v < n
        → weight graph n u v
          ≡ (if links (get_or (g_nid ∷ others) u 0) (get_or (g_nid ∷ others) v 0) then 1 else 0))
    → Returns (update_route_table n (g_nid ∷ others) graph) (IsRouted links (g_nid ∷ others) g_nid)
unfolding update_route_table
update_route_table-IsRouted links n g_nid others graph room small size once cells =
    let ids = g_nid ∷ others in
    let (s, searched, h) = Inv-dijkstra graph n 0 (omega (arith, size)) room small in
    let (table, filled, (sorted, all, none_else)) =
      fill_route_table-IsRoute graph n (omega (arith, size)) ids size once s h in
    (
      table,
      rw searched filled,
      (
        sorted,
        λ x inside.
            let (v, lv, at) = index_in links n ids graph size once cells x inside in
            let (r, ran, (e, is_e, route)) = all v lv in
            let best =
              IsRoute-IsBest links n ids graph size once cells s (omega (arith, size))
                (Inv-IsShortest graph n 0 (omega (arith, size)) s h) v e lv route in
            (r, rw at at ran, (e, is_e, rw at at best)),
        λ x outside. none_else x (λ i l e.
            let in_ids = already_in-get_or ids i (omega (arith, size)) in
            let same : nodeid_already_in ids x ≡ true =
              ap (nodeid_already_in ids) (sym e) ∙ in_ids in
            cc),
      ),
    )
