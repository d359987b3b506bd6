-- ===== src/RouteTable/Network.antt =====
-- src/dijkstra.c, `update_route_info`, on a valid table that holds one announcement of each sender.
use mathlib.Core.List.{head?}
use dhttp.Base.{
  ℕ, zero, suc, ◌≤◌, ◌≡◌, ◌≢◌, refl, sym, ap, subst, ◌∙◌, arith, false, ℕ_discrete, some, List, [],
  ◌∷◌, length, ltb, Returns, ◌>>=◌,
}
use dhttp.Base.Int.{pos}
use dhttp.Config.{NodeInfo}
use dhttp.Darr.Words.{count, hit}
use dhttp.Dijkstra.{graphsize}
use dhttp.Ht.Laws.{IsValid, stack_of, ht_find-stack}
use dhttp.Ht.{Ht, home, ht_find}
use dhttp.Lsa.{Lsa, lsa_ht}
use dhttp.RouteTable.Matrix.{announces, ids_of, construct_graph-IsGraph}
use dhttp.RouteTable.Rows.{AreStored}
use dhttp.RouteTable.Routes.{NoRepeat}
use dhttp.RouteTable.Topology.{IsRouted, update_route_table-IsRouted}
use dhttp.RouteTable.{nbr_ids, senders, get_nbr_nid, update_route_info}
use dhttp.RouteTable.Senders.{
  stacked, stacked-one, count-senders, own_no_sender, length-senders, count-get_or, NoRepeat-count,
}

hit-le : (x y : ℕ) → hit x y ≤ 1
hit-le x y = ground arith

length_of_top : (s : List Lsa) (p : Lsa) → head? s ≡ some p → 1 ≤ length s
length_of_top [] p e = cc
length_of_top (q ∷ s) p e = omega arith

top_of_length : (s : List Lsa) → 1 ≤ length s → (p : Lsa) × (head? s ≡ some p)
top_of_length [] l = absurd (omega arith)
top_of_length (p ∷ s) l = (p, refl)

-- a valid table with the node's own announcement and at most one of any sender, each with as many
-- links as its header says
pub record IsNetwork (g_nid : ℕ) (lsas : Ht Lsa) : Type 0 where
  pub valid : IsValid lsa_ht lsas
  pub own : (p : Lsa) × (ht_find lsa_ht g_nid lsas ≡ some p)
  pub single : (x : ℕ) → length (stack_of lsa_ht lsas x) ≤ 1
  pub whole :
      (x : ℕ) (p : Lsa)
      → ht_find lsa_ht x lsas ≡ some p
      → p.head.num_lnk_entr ≡ pos (length p.links)

module _ (g_nid : ℕ) (lsas : Ht Lsa) (net : IsNetwork g_nid lsas) where
  stacked-stack_of : (x : ℕ) → stacked x lsas.buckets ≡ length (stack_of lsa_ht lsas x)
  stacked-stack_of x =
      stacked-one x (home lsa_ht lsas x) lsas.buckets
        (lsa_ht.key_to_idx-lt x (length lsas.buckets) net.valid.roomy)
        (λ i ne. net.valid.placed i x ne)

  own_once : stacked g_nid lsas.buckets ≡ 1
  own_once =
      let (p, is) = net.own in
      omega (
        arith,
        stacked-stack_of g_nid,
        net.single g_nid,
        length_of_top _ p (sym (ht_find-stack lsa_ht lsas g_nid) ∙ is),
      )

  length-ids_of : length (ids_of g_nid lsas) ≡ lsas.entr_cnt
  length-ids_of = omega (arith, own_once, length-senders g_nid lsas.buckets, net.valid.counted)

  count-ids_of : (x : ℕ) → count x (ids_of g_nid lsas) ≤ 1
  count-ids_of x = elim (ℕ_discrete x g_nid) [
    | yes same ↦
        let e : count x (senders g_nid lsas.buckets) ≡ 0 =
          ap (λ (y : ℕ). count y (senders g_nid lsas.buckets)) same
          ∙ own_no_sender g_nid lsas.buckets in
        omega (arith, hit-le x g_nid)
    | no other ↦
        let t : hit x g_nid ≡ 0 = ground arith in
        omega (
          arith,
          count-senders g_nid x lsas.buckets (λ e. other (sym e)),
          stacked-stack_of x,
          net.single x,
        )
  ]

  found_sender :
      (x : ℕ)
      → 1 ≤ count x (senders g_nid lsas.buckets)
      → (p : Lsa) × (ht_find lsa_ht x lsas ≡ some p) × (p.head.num_lnk_entr ≡ pos (length p.links))
  found_sender x is =
      let (p, top) =
        top_of_length (stack_of lsa_ht lsas x)
          (omega (arith, count-senders g_nid x lsas.buckets other, stacked-stack_of x)) in
      let looked : ht_find lsa_ht x lsas ≡ some p = ht_find-stack lsa_ht lsas x ∙ top in
      (p, looked, net.whole x p looked)
    where
      other : g_nid ≢ x
      other e =
          let n : count x (senders g_nid lsas.buckets) ≡ 0 =
            ap (λ (y : ℕ). count y (senders g_nid lsas.buckets)) (sym e)
            ∙ own_no_sender g_nid lsas.buckets in
          omega arith

  stored : AreStored lsas.entr_cnt (ids_of g_nid lsas) lsas
  stored zero l h = absurd (omega arith)
  stored (suc i) l h =
      found_sender _ (count-get_or (senders g_nid lsas.buckets) i (omega (arith, length-ids_of)))

  -- The routing table is right for the network that is announced: `update_route_info` returns a
  -- table in ascending order in which every known node has the entry that `find_route_entry` gives,
  -- with the cost of a least route over the announced links, or INFINITY where no route is cheaper,
  -- and the first node of such a route; of an unknown node it gives NULL. A link counts if its announcement is valid and names no
  -- unknown node before it; the node's own links are those to the neighbours that are up.
  pub update_route_info-IsRouted :
      (nodes : Ht NodeInfo)
      → length (nbr_ids nodes.buckets) ≤ nodes.entr_cnt
      → lsas.entr_cnt ≤ graphsize
      → Returns (update_route_info g_nid nodes lsas) (
          IsRouted
            (announces g_nid (nbr_ids nodes.buckets) (ids_of g_nid lsas) lsas)
            (ids_of g_nid lsas)
            g_nid)
  unfolding update_route_info get_nbr_nid
  update_route_info-IsRouted nodes fit small =
      let once =
        subst (NoRepeat (ids_of g_nid lsas)) length-ids_of
          (NoRepeat-count (ids_of g_nid lsas) count-ids_of) in
      let room : ltb nodes.entr_cnt (length (nbr_ids nodes.buckets)) ≡ false = ground arith in
      let (r, built, (is_ids, whole, cells)) =
        construct_graph-IsGraph g_nid (nbr_ids nodes.buckets) lsas length-ids_of once stored in
      let (table, ran, routed) =
        update_route_table-IsRouted
          (announces g_nid (nbr_ids nodes.buckets) (ids_of g_nid lsas) lsas) lsas.entr_cnt g_nid
          (senders g_nid lsas.buckets) r.1 (omega (arith, whole)) small length-ids_of once cells in
      (table, rw (room, ◌>>=◌, built, ◌>>=◌, is_ids) ran, routed)
