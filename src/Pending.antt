-- ===== src/Pending.antt =====
-- src/client_info.c and src/lsa.c: the packets that wait to be sent, and those that wait for an
-- acknowledgement. `outbox` is the list behind `pd_lsa_head` of the routing socket, and `acks` is
-- g_pd_ack_ht.
pub mod Retransmission
pub mod Flooding
pub mod Cancelled
pub mod Resent
use dhttp.Base.{
  ℕ, zero, suc, ◌+◌, ◌-◌, ◌%◌, ◌^◌, Bool, true, false, not, ◌&&◌, Option, none, some, List, [], ◌∷◌,
  ◌++◌, length, map, replicate, ltb, ◌==◌, if◌then◌else◌, Run, ok, fault, assertion_failed, ◌>>=◌,
  set,
}
use dhttp.Base.Int.{ℤ, pos, minus, is_negative}
use dhttp.Config.{NodeInfo}
use dhttp.Ht.Keys.{uint_to_idx, cmp_int, cmp_int_iff, uint_to_idx-lt}
use dhttp.Ht.{
  Keyed, Ht, ht_find, ht_insert, ht_remove, chain_of, home, has_key, count_down, change_at,
}
use dhttp.Lsa.{
  Lsa, LsaHeader, LsaType, type_ad, type_ack, type_seq, PendLsa, Intervals, lsa_ht, with_seq_num,
}

abbrev pub pend_ack_bucket_size : ℕ
pend_ack_bucket_size = 50

-- An address, and what the code does with it: the comparison by memcmp, and the address of a node
-- by inet_pton and htons.
pub record Addrs (A : Type 0) : Type 0 where
  pub same : A → A → Bool
  pub addr_of : NodeInfo → A

-- the caller's header, changed, is what is sent
abbrev pub ack_header : LsaHeader → LsaHeader
ack_header h = record h { type = type_ack; ttl = 1; num_lnk_entr = pos 0; num_obj_entr = pos 0 }

abbrev pub seq_header : LsaHeader → ℕ → LsaHeader
seq_header h n = record h {
  type = type_seq;
  ttl = 1;
  seq_num = n;
  num_lnk_entr = pos 0;
  num_obj_entr = pos 0;
}

abbrev pub all_nodes : List (List NodeInfo) → List NodeInfo
all_nodes [] = []
all_nodes (c ∷ cs) = c ++ all_nodes cs

-- uint32_t arithmetic on a sequence number
abbrev pub count_seq : ℕ → ℕ
count_seq n = (n + 1) % 2 ^ 32

module _ {A : Type 0} where
  abbrev pub pd_ack_ht : Keyed ℕ (PendLsa A)
  pd_ack_ht = record {
    key_of = λ p. p.snder_id;
    key_to_idx = uint_to_idx;
    same = cmp_int;
    same_iff = cmp_int_iff;
    key_to_idx-lt = uint_to_idx-lt;
  }

  abbrev pub init_pd_ack_table : Ht (PendLsa A)
  init_pd_ack_table = record { buckets = replicate pend_ack_bucket_size []; entr_cnt = 0 }

  -- What malloc leaves in the fields that are not set is `junk`.
  unfoldable pub lsa_create_ack_ann : PendLsa A → LsaHeader → A → PendLsa A
  lsa_create_ack_ann junk h addr = record junk {
    addr = addr;
    type = type_ack;
    head = ack_header h;
    links = [];
    objs = [];
  }

  unfoldable pub lsa_create_seq_ann : PendLsa A → LsaHeader → ℕ → A → PendLsa A
  lsa_create_seq_ann junk h n addr = record junk {
    addr = addr;
    type = type_seq;
    head = seq_header h n;
    links = [];
    objs = [];
  }

  unfoldable pub lsa_create_ad_ann : Intervals → Lsa → A → PendLsa A
  lsa_create_ad_ann iv l addr = record {
    snder_id = l.head.snder_id;
    seq_num = l.head.seq_num;
    addr = addr;
    time_left = iv.retran_timeout;
    is_acked = false;
    type = type_ad;
    head = l.head;
    links = l.links;
    objs = l.objs;
  }

  unfoldable pub prep_ack_pkt :
      Bool → PendLsa A → LsaHeader → A → List (PendLsa A) → List (PendLsa A)
  prep_ack_pkt granted junk h addr outbox =
      if granted then lsa_create_ack_ann junk h addr ∷ outbox else outbox

  unfoldable pub prep_seq_pkt :
      Bool → PendLsa A → LsaHeader → ℕ → A → List (PendLsa A) → List (PendLsa A)
  prep_seq_pkt granted junk h n addr outbox =
      if granted then lsa_create_seq_ann junk h n addr ∷ outbox else outbox

  -- `except` is the address of the packet's sender; the local one has none that is a neighbour's
  unfoldable pub floods_to : Addrs A → ℕ → ℕ → A → NodeInfo → Bool
  floods_to addrs g_nid snder_id except n =
      n.is_valid
      && (not (n.nid == g_nid)
          && (not (n.nid == snder_id) && not (addrs.same except (addrs.addr_of n))))

  -- the loop over the neighbours, chain by chain; `false` is the jump to `err`
  unfoldable pub flood_over :
      Addrs A
      → Intervals
      → (NodeInfo → Bool)
      → ℕ
      → ℕ
      → A
      → Lsa
      → List NodeInfo
      → List (PendLsa A)
      → Bool × List (PendLsa A)
  flood_over addrs iv grants g_nid snder_id except l [] outbox = (true, outbox)
  flood_over addrs iv grants g_nid snder_id except l (n ∷ ns) outbox =
      if floods_to addrs g_nid snder_id except n
      then if grants n
        then flood_over addrs iv grants g_nid snder_id except l ns
            (lsa_create_ad_ann iv l (addrs.addr_of n) ∷ outbox)
        else (false, outbox)
      else flood_over addrs iv grants g_nid snder_id except l ns outbox

  -- The local announcement gets the next sequence number, whatever was sent.
  unfoldable pub prep_flood_lsa :
      Addrs A
      → Intervals
      → (NodeInfo → Bool)
      → ℕ
      → Ht NodeInfo
      → ℕ
      → A
      → Ht Lsa × List (PendLsa A)
      → Run (Bool × (Ht Lsa × List (PendLsa A)))
  prep_flood_lsa addrs iv grants g_nid nodes snder_id except (lsas, outbox) =
      elim (ht_find lsa_ht snder_id lsas) [
        | none ↦ fault assertion_failed
        | some l ↦
            let r =
              flood_over addrs iv grants g_nid snder_id except l (all_nodes nodes.buckets) outbox in
            let lsas' =
              if snder_id == g_nid
              then change_at lsa_ht snder_id (λ k. with_seq_num (count_seq k.head.seq_num) k) lsas
              else lsas in
            ok (r.0, (lsas', r.1))
      ]

  -- every packet is sent, and an announcement is kept for its acknowledgement
  unfoldable pub clnt_send_rd_info : List (PendLsa A) → Ht (PendLsa A) → Ht (PendLsa A)
  clnt_send_rd_info [] acks = acks
  clnt_send_rd_info (p ∷ outbox) acks = elim p.type [
    | type_ad ↦ clnt_send_rd_info outbox (ht_insert pd_ack_ht p acks)
    | type_ack ↦ clnt_send_rd_info outbox acks
    | type_seq ↦ clnt_send_rd_info outbox acks
  ]

  -- one chain without the packets to the address, and the count of entries after it
  unfoldable pub rm_chain : (A → Bool) → List (PendLsa A) → ℕ → List (PendLsa A) × ℕ
  rm_chain is_addr [] n = ([], n)
  rm_chain is_addr (p ∷ c) n =
      if is_addr p.addr
      then rm_chain is_addr c (count_down n)
      else (let (kept, m) = rm_chain is_addr c n in (p ∷ kept, m))

  unfoldable pub rm_chains : (A → Bool) → List (List (PendLsa A)) → ℕ → List (List (PendLsa A)) × ℕ
  rm_chains is_addr [] n = ([], n)
  rm_chains is_addr (c ∷ cs) n =
      let (kept, m) = rm_chain is_addr c n in
      let (rest, m') = rm_chains is_addr cs m in (kept ∷ rest, m')

  unfoldable pub clnt_rm_pd_ad_ann_by_addr : Addrs A → A → Ht (PendLsa A) → Ht (PendLsa A)
  clnt_rm_pd_ad_ann_by_addr addrs addr acks =
      let r = rm_chains (addrs.same addr) acks.buckets acks.entr_cnt in
      record { buckets = r.0; entr_cnt = r.1 }

  -- the first packet of a chain with the number and the address is unlinked; `none` if there is none
  unfoldable pub unlink : (PendLsa A → Bool) → List (PendLsa A) → Option (List (PendLsa A))
  unlink matches [] = none
  unlink matches (p ∷ c) =
      let rest = unlink matches c in
      if matches p then some c else elim rest [ none ↦ none | some c' ↦ some (p ∷ c') ]

  -- As in the source the search begins at the first packet of the sender, and then looks at all that
  -- stand behind it; the count changes only if it is that packet.
  unfoldable pub unlink_behind : ℕ → (PendLsa A → Bool) → List (PendLsa A) → List (PendLsa A)
  unlink_behind k matches [] = []
  unlink_behind k matches (p ∷ c) =
      let rest = unlink_behind k matches c in
      if has_key pd_ack_ht k p
      then elim (unlink matches c) [ none ↦ p ∷ c | some c' ↦ p ∷ c' ]
      else p ∷ rest

  unfoldable pub remove_pd_ack : Addrs A → ℕ → ℕ → A → Ht (PendLsa A) → Run (Ht (PendLsa A))
  remove_pd_ack addrs snder_id seq_num addr acks =
      let matches = λ (p : PendLsa A). p.seq_num == seq_num && addrs.same addr p.addr in
      elim (ht_find pd_ack_ht snder_id acks) [
        | none ↦ ok acks
        | some p ↦
            if matches p
            then ht_remove pd_ack_ht snder_id acks
            else ok (record acks {
              buckets =
                  set acks.buckets (home pd_ack_ht acks snder_id)
                    (unlink_behind snder_id matches (chain_of pd_ack_ht acks snder_id));
            })
      ]

  abbrev pub aged : ℕ → PendLsa A → PendLsa A
  aged elapsed p = record p { time_left = minus p.time_left elapsed }

  -- A packet that timed out goes to the outbox with a new interval.
  unfoldable pub prep_retran_pkt : Intervals → PendLsa A → List (PendLsa A) → List (PendLsa A)
  prep_retran_pkt iv p outbox = record p { time_left = iv.retran_timeout } ∷ outbox

  -- one chain: what stays, the outbox and the count of entries after it
  unfoldable pub retran_chain :
      Intervals
      → ℕ
      → List (PendLsa A)
      → List (PendLsa A) × ℕ
      → List (PendLsa A) × (List (PendLsa A) × ℕ)
  retran_chain iv elapsed [] (outbox, n) = ([], (outbox, n))
  retran_chain iv elapsed (p ∷ c) (outbox, n) =
      let q = aged elapsed p in
      if is_negative q.time_left
      then retran_chain iv elapsed c (prep_retran_pkt iv q outbox, count_down n)
      else (let (kept, after) = retran_chain iv elapsed c (outbox, n) in (q ∷ kept, after))

  unfoldable pub retran_chains :
      Intervals
      → ℕ
      → List (List (PendLsa A))
      → List (PendLsa A) × ℕ
      → List (List (PendLsa A)) × (List (PendLsa A) × ℕ)
  retran_chains iv elapsed [] after = ([], after)
  retran_chains iv elapsed (c ∷ cs) after =
      let (kept, mid) = retran_chain iv elapsed c after in
      let (rest, last) = retran_chains iv elapsed cs mid in (kept ∷ rest, last)

  -- `process_retran_timeout` of src/sel_timeout.c
  unfoldable pub process_retran_timeout :
      Intervals → ℕ → Ht (PendLsa A) × List (PendLsa A) → Ht (PendLsa A) × List (PendLsa A)
  process_retran_timeout iv elapsed (acks, outbox) =
      let (kept, after) = retran_chains iv elapsed acks.buckets (outbox, acks.entr_cnt) in
      (record { buckets = kept; entr_cnt = after.1 }, after.0)
