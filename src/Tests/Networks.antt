-- ===== src/Tests/Networks.antt =====
-- src/dijkstra.c on a network of three nodes in a line.
use dhttp.Base.{
  ℕ, zero, suc, ◌<◌, ◌≡◌, ◌≢◌, refl, sym, ap, subst, ◌∙◌, arith, true, Bool-cases, inl, inr, some,
  List, [], ◌∷◌, length, get_or, ok, Returns,
}
use dhttp.Base.Int.{pos}
use dhttp.Config.{NodeInfo}
use dhttp.Ht.Keys.{uint_to_idx, cmp_int}
use dhttp.Ht.Laws.{ht_find-stack}
use dhttp.Ht.Chains.{stack_in}
use dhttp.Ht.{Ht, home, chain_of, ht_find}
use dhttp.Darr.{store, load}
use dhttp.Dijkstra.{dijkstra, get_next_hop}
use mathlib.Core.List.{head?}
use dhttp.Lsa.{Lsa, type_ad, lsa_ht}
use dhttp.RouteTable.Matrix.{announces, ids_of}
use dhttp.RouteTable.Network.{IsNetwork, update_route_info-IsRouted}
use dhttp.RouteTable.Topology.{IsRouted}
use dhttp.RouteTable.{
  nbr_ids, update_route_info, get_nbr_nid, construct_graph, node_ids, own_links, add_rows,
  add_links, update_route_table, fill_route_table, entries_from, sort_entries, hop_id,
  nodeid_already_in, get_index_by_nodeid, insert_entry,
}

abbrev announced : ℕ → ℕ → List ℕ → Lsa
announced nid n links = record {
  is_valid = true;
  time_left = pos 120;
  ann_size = 20;
  head = record {
    ver = 1;
    ttl = 32;
    type = type_ad;
    snder_id = nid;
    seq_num = 5;
    num_lnk_entr = pos n;
    num_obj_entr = pos 0;
  };
  links = links;
  objs = [];
}

-- node 3 also names a node that is not known
abbrev chain : List Lsa
chain = announced 3 2 (2 ∷ 9 ∷ []) ∷ announced 2 2 (1 ∷ 3 ∷ []) ∷ announced 1 1 (2 ∷ []) ∷ []

abbrev lsas : Ht Lsa
lsas = record { buckets = chain ∷ []; entr_cnt = 3 }

abbrev nodes : Ht NodeInfo
nodes = record {
  buckets =
      (record {
        nid = 2;
        rd_port = pos 1;
        local_port = pos 2;
        server_port = pos 3;
        ip = [];
        is_valid = true;
      }
        ∷ [])
      ∷ [];
  entr_cnt = 1;
}

at_first : (x : ℕ) → chain_of lsa_ht lsas x ≡ chain
at_first x =
    let l : home lsa_ht lsas x < 1 = lsa_ht.key_to_idx-lt x 1 (omega arith) in
    let e : home lsa_ht lsas x ≡ 0 = omega arith in ap (λ (i : ℕ). get_or lsas.buckets i []) e

placed : (i k : ℕ) → home lsa_ht lsas k ≢ i → stack_in lsa_ht k (get_or lsas.buckets i []) ≡ []
placed zero k ne =
    let l : home lsa_ht lsas k < 1 = lsa_ht.key_to_idx-lt k 1 (omega arith) in
    absurd (ne (omega arith))
placed (suc i) k ne = refl

abbrev AreWhole : List Lsa → Type 0
AreWhole [] = Unit {0}
AreWhole (l ∷ c) = (l.head.num_lnk_entr ≡ pos (length l.links)) × AreWhole c

top_whole :
    (x : ℕ) (c : List Lsa) (p : Lsa)
    → AreWhole c
    → head? (stack_in lsa_ht x c) ≡ some p
    → p.head.num_lnk_entr ≡ pos (length p.links)
top_whole x [] p all e = cc
top_whole x (l ∷ c) p (this, others) e = elim (Bool-cases (cmp_int l.head.snder_id x)) [
  | inl own ↦
      let q : some l ≡ some p = rw own at e in
      let is : l ≡ p = cc in subst (λ r. r.head.num_lnk_entr ≡ pos (length r.links)) is this
  | inr other ↦ top_whole x c p others (rw other at e)
]

lsas-IsNetwork : IsNetwork 1 lsas
unfolding cmp_int ht_find uint_to_idx
lsas-IsNetwork = record {
  valid = record { roomy = omega arith; placed = placed; counted = refl; few = omega arith };
  own = (announced 1 1 (2 ∷ []), refl);
  single = λ x. rw (at_first x) (ground arith);
  whole = λ x p e.
      top_whole x chain p (refl, (refl, (refl, tt)))
        (ap head? (ap (stack_in lsa_ht x) (sym (at_first x)))
          ∙ sym (ht_find-stack lsa_ht lsas x)
          ∙ e);
}

line :
    update_route_info 1 nodes lsas
    ≡ ok (
        record { dest = 1; next_hop = 1; cost = 0 }
        ∷ record { dest = 2; next_hop = 2; cost = 1 }
        ∷ record { dest = 3; next_hop = 2; cost = 2 }
        ∷ [])
unfolding update_route_info get_nbr_nid construct_graph node_ids own_links add_rows add_links
    update_route_table fill_route_table entries_from sort_entries dijkstra get_next_hop hop_id
    nodeid_already_in get_index_by_nodeid store load ht_find uint_to_idx cmp_int insert_entry
line = refl

update_route_info-IsRouted_example :
    Returns
      (update_route_info 1 nodes lsas)
      (IsRouted (announces 1 (nbr_ids nodes.buckets) (ids_of 1 lsas) lsas) (ids_of 1 lsas) 1)
update_route_info-IsRouted_example =
    update_route_info-IsRouted 1 lsas lsas-IsNetwork nodes (omega arith) (omega arith)
