-- ===== src/Router.antt =====
-- src/client_info.c, `clnt_process_rt_inf`, and src/sel_timeout.c: what a packet of another node and
-- the passing of time do to the state of the routing daemon.
pub mod Timeouts
pub mod Stale
pub mod Datagrams
use dhttp.Base.{
  ℕ, zero, suc, ◌+◌, ◌%◌, ◌^◌, Bool, true, false, not, ◌&&◌, ◌||◌, Option, none, some, List, [],
  ◌∷◌, length, ltb, leb, ◌==◌, if◌then◌else◌, Run, ok, ◌>>=◌,
}
use dhttp.Base.Int.{ℤ, minus, is_negative}
use dhttp.Config.{NodeInfo, FileEntry, nb_nodes_ht, valid_nb, invalid_nb}
use dhttp.Ht.{Ht, ht_find, change_at}
use dhttp.Lsa.{
  Lsa, LsaHeader, LsaType, type_ad, type_ack, type_seq, PendLsa, Intervals, lsa_ht,
  reload_local_lsa, update_lsa_entr, update_seq_num,
}
use dhttp.Pending.{
  Addrs, count_seq, prep_ack_pkt, prep_seq_pkt, prep_flood_lsa, remove_pd_ack,
  clnt_rm_pd_ad_ann_by_addr, process_retran_timeout,
}
use dhttp.Pft.{Pft, pft_add_obj_frm_lsa, pft_rm_obj_frm_lsa}
use dhttp.RouteTable.{TableEntry, update_route_info}

-- the globals of the daemon that routing changes
pub record Daemon (A : Type 0) : Type 0 where
  pub nodes : Ht NodeInfo
  pub lsas : Ht Lsa
  pub tree : Pft
  pub table : List TableEntry
  pub outbox : List (PendLsa A)
  pub acks : Ht (PendLsa A)
  pub adv_timeout : ℤ

-- what does not change: the node's id, its objects, the intervals, the address that is no node's,
-- and the answers of the allocations in one call
pub record Setting (A : Type 0) : Type 0 where
  pub addrs : Addrs A
  pub no_addr : A
  pub iv : Intervals
  pub adv_interval : ℤ
  pub g_nid : ℕ
  pub files : Ht FileEntry
  pub buff_granted : Bool
  pub lsa_granted : Bool
  pub reload_granted : Bool
  pub packet_granted : Bool
  pub junk : PendLsa A
  pub pft_grants : ℕ → Bool
  pub flood_grants : NodeInfo → Bool

-- a datagram: its header, its payload and its sender
pub record Packet (A : Type 0) : Type 0 where
  pub head : LsaHeader
  pub links : List ℕ
  pub objs : List (List ℕ)
  pub from : A

-- the flags is_lsa_timeout and is_nb_timeout
abbrev pub Flags : Type 0
Flags = Bool × Bool

module _ {A : Type 0} (g : Setting A) where
  unfoldable pub reroute : Daemon A → Run (Daemon A)
  reroute s = update_route_info g.g_nid s.nodes s.lsas >>= λ table. ok (record s { table = table })

  -- the result of the reload is not looked at
  unfoldable pub reload : Daemon A → Run (Daemon A)
  reload s = reload_local_lsa g.iv g.g_nid s.nodes g.files g.reload_granted s.lsas >>= λ r.
      ok (record s { lsas = r.1 })

  unfoldable pub flood : ℕ → A → Daemon A → Run (Daemon A)
  flood snder_id except s =
      prep_flood_lsa g.addrs g.iv g.flood_grants g.g_nid s.nodes snder_id except (s.lsas, s.outbox)
      >>= λ r. ok (record s { lsas = r.1.0; outbox = r.1.1 })

  -- `clnt_prep_flood_lc_lsa` and `reset_adv_time`
  unfoldable pub flood_local : Daemon A → Run (Daemon A)
  flood_local s = flood g.g_nid g.no_addr s >>= λ t. ok (record t { adv_timeout = g.adv_interval })

  -- the objects of a stored announcement go into the tree
  unfoldable pub add_stored : Option Lsa → Daemon A → Run (Daemon A)
  add_stored none s = ok s
  add_stored (some l) s =
      pft_add_obj_frm_lsa g.pft_grants l s.tree >>= λ tree. ok (record s { tree = tree })

  -- a neighbour that was down is up again
  unfoldable pub revive : ℕ → Daemon A → Run (Daemon A)
  revive snder_id s = elim (ht_find nb_nodes_ht snder_id s.nodes) [
    | none ↦ ok s
    | some n ↦
        if n.is_valid
        then ok s
        else reload (record s { nodes = change_at nb_nodes_ht snder_id valid_nb s.nodes })
  ]

  unfoldable pub acknowledge : Packet A → Daemon A → Daemon A
  acknowledge p s = record s {
    outbox = prep_ack_pkt g.packet_granted g.junk p.head p.from s.outbox;
  }

  -- an announcement that is news
  unfoldable pub accept_ad : Packet A → Daemon A → Run (Daemon A)
  accept_ad p s = update_lsa_entr g.iv s.nodes g.lsa_granted p.head p.links p.objs s.lsas >>= λ r.
      add_stored r.0 (record s { lsas = r.1 }) >>= λ s1. revive p.head.snder_id s1 >>= λ s2.
      reroute s2 >>= λ s3.
      (if leb 2 p.head.ttl then flood p.head.snder_id p.from s3 else ok s3) >>= λ s4.
      ok (acknowledge p s4)

  -- LSA_TYPE_AD: `true` where there is something to send
  unfoldable pub process_ad : Packet A → Daemon A → Run (Bool × Daemon A)
  process_ad p s =
      if p.head.snder_id == g.g_nid
      then ok (false, s)
      else elim (ht_find lsa_ht p.head.snder_id s.lsas) [
        | none ↦ accept_ad p s >>= λ t. ok (true, t)
        | some l ↦
            if p.head.seq_num == 0 && ltb 0 l.head.seq_num
            then ok (
              true,
              record s {
                outbox = prep_seq_pkt g.packet_granted g.junk p.head l.head.seq_num p.from s.outbox;
              },
            )
            else if ltb l.head.seq_num p.head.seq_num
            then (accept_ad p s >>= λ t. ok (true, t))
            else ok (true, acknowledge p s)
      ]

  -- LSA_TYPE_SEQ: another node knows a higher number
  unfoldable pub process_seq : Packet A → Daemon A → Run (Bool × Daemon A)
  process_seq p s = remove_pd_ack g.addrs p.head.snder_id 0 p.from s.acks >>= λ acks.
      let s1 = record s { acks = acks } in
      if p.head.snder_id == g.g_nid
      then (let r = update_seq_num p.head.snder_id (count_seq p.head.seq_num) s.lsas in
          let s2 = record s1 { lsas = r.1 } in
          if r.0 then (flood_local s2 >>= λ t. ok (true, t)) else ok (false, s2))
      else ok (false, record s1 { lsas = (update_seq_num p.head.snder_id p.head.seq_num s.lsas).1 })

  unfoldable pub process_ack : Packet A → Daemon A → Run (Bool × Daemon A)
  process_ack p s = remove_pd_ack g.addrs p.head.snder_id p.head.seq_num p.from s.acks >>= λ acks.
      ok (false, record s { acks = acks })

  -- A datagram that holds what its header says; without a buffer for it nothing is done.
  unfoldable pub clnt_process_rt_inf : Packet A → Daemon A → Run (Bool × Daemon A)
  clnt_process_rt_inf p s = elim p.head.type [
    | type_ack ↦ process_ack p s
    | type_ad ↦ if g.buff_granted then process_ad p s else ok (false, s)
    | type_seq ↦ process_seq p s
  ]

  -- an announcement that timed out: its objects go, and its sender is down if it is a neighbour
  unfoldable pub expire : Lsa → Daemon A × Flags → Run (Daemon A × Flags)
  expire l (s, (lsa_flag, nb_flag)) = pft_rm_obj_frm_lsa (g.pft_grants 0) l s.tree >>= λ tree.
      elim (ht_find nb_nodes_ht l.head.snder_id s.nodes) [
        | none ↦ ok (record s { tree = tree }, (true, nb_flag))
        | some n ↦ ok (
          record s {
            tree = tree;
            nodes = change_at nb_nodes_ht l.head.snder_id invalid_nb s.nodes;
            acks = clnt_rm_pd_ad_ann_by_addr g.addrs (g.addrs.addr_of n) s.acks;
          },
          (true, true),
        )
      ]

  -- one chain of the table, and all
  unfoldable pub age_chain : ℕ → List Lsa → Daemon A × Flags → Run (List Lsa × (Daemon A × Flags))
  age_chain elapsed [] s = ok ([], s)
  age_chain elapsed (l ∷ c) s =
      let m = record l { time_left = minus l.time_left elapsed } in
      if not l.is_valid || l.head.snder_id == g.g_nid
      then (age_chain elapsed c s >>= λ r. ok (l ∷ r.0, r.1))
      else if is_negative m.time_left
      then (expire m s >>= λ s'.
          age_chain elapsed c s' >>= λ r. ok (record m { is_valid = false } ∷ r.0, r.1))
      else (age_chain elapsed c s >>= λ r. ok (m ∷ r.0, r.1))

  unfoldable pub age_chains :
      ℕ → List (List Lsa) → Daemon A × Flags → Run (List (List Lsa) × (Daemon A × Flags))
  age_chains elapsed [] s = ok ([], s)
  age_chains elapsed (c ∷ cs) s =
      age_chain elapsed c s >>= λ r. age_chains elapsed cs r.1 >>= λ t. ok (r.0 ∷ t.0, t.1)

  unfoldable pub preprocess_timeout : ℕ → Daemon A → Run (Daemon A × Flags)
  preprocess_timeout elapsed s =
      age_chains elapsed s.lsas.buckets
        (record s { adv_timeout = minus s.adv_timeout elapsed }, (false, false))
      >>= λ r. ok (record (r.1.0) { lsas = record (s.lsas) { buckets = r.0 } }, r.1.1)

  -- `true` where there is something to send
  unfoldable pub process_timeout : Flags → Daemon A → Run (Bool × Daemon A)
  process_timeout (lsa_flag, nb_flag) s =
      let due = nb_flag || is_negative s.adv_timeout in
      (if nb_flag then reload s else ok s) >>= λ s1.
      (if due then flood_local s1 else ok s1) >>= λ s2.
      (if lsa_flag then reroute s2 else ok s2) >>= λ s3. ok (due, s3)

  -- with whether a packet was put into the outbox, so that the routing socket is to be written
  unfoldable pub handle_time_out : ℕ → Daemon A → Run (Bool × Daemon A)
  handle_time_out elapsed s = preprocess_timeout elapsed s >>= λ r. process_timeout r.1 r.0 >>= λ t.
      let (acks, outbox) = process_retran_timeout g.iv elapsed (t.1.acks, t.1.outbox) in
      ok (
        t.0 || ltb (length t.1.outbox) (length outbox),
        record (t.1) { acks = acks; outbox = outbox },
      )
