-- ===== src/Tests/Packets.antt =====
-- src/client_info.c and src/sel_timeout.c on a few packets that wait for their acknowledgements.
use dhttp.Base.{ℕ, ◌+◌, ◌≡◌, refl, arith, inl, false, Bool, List, [], ◌∷◌, ◌++◌, length, ok, set}
use dhttp.Base.Int.{pos}
use dhttp.Ht.Empty.{emptied, emptied-IsValid}
use dhttp.Ht.Keys.{uint_to_idx}
use dhttp.Ht.Laws.{total, stack_of, IsValid, ht_insert-IsValid}
use dhttp.Ht.{Ht, home, ht_insert}
use dhttp.Lsa.{PendLsa, type_ad}
use dhttp.Pending.Cancelled.{not_to, clnt_rm_pd_ad_ann_by_addr-not_to, remove_pd_ack_other}
use dhttp.Pending.Resent.{how_many, how_many_all, resent, retran_rounds, retran_rounds-resent}
use dhttp.Pending.{pd_ack_ht, clnt_rm_pd_ad_ann_by_addr, remove_pd_ack}
use dhttp.Router.Datagrams.{Datagram, short, whole, receive_all, receive_all-IsRefused}
use dhttp.Tests.Daemons.{header, addrs, intervals, setting, daemon}

-- a packet of a sender, with its number, to an address
abbrev packet : ℕ → ℕ → ℕ → PendLsa ℕ
packet snder seq addr = record {
  snder_id = snder;
  seq_num = seq;
  addr = addr;
  time_left = pos 3;
  is_acked = false;
  type = type_ad;
  head = header;
  links = [];
  objs = [];
}

-- node 1 and node 51 share a chain
abbrev waiting : Ht (PendLsa ℕ)
waiting = record { buckets = (packet 1 4 8 ∷ packet 51 5 8 ∷ []) ∷ []; entr_cnt = 2 }

retran_rounds-resent_example :
    let (acks', outbox') = retran_rounds intervals 2 2 (waiting, []) in
    (total acks'.buckets ≡ 0)
    × (length outbox' ≡ total waiting.buckets + length {A = PendLsa ℕ} [])
    × ((test : PendLsa ℕ → Bool)
        → how_many test outbox'
          ≡ how_many_all (λ p. test (resent intervals p)) waiting.buckets + how_many test [])
retran_rounds-resent_example =
    retran_rounds-resent intervals 2 1 waiting [] refl (omega arith) ((refl, (refl, tt)), tt)

-- the acknowledgement of node 1 for number 5 removes the packet of node 51
remove_pd_ack_other_example :
    remove_pd_ack addrs 1 5 8 waiting
    ≡ ok (record waiting {
      buckets = set waiting.buckets (home pd_ack_ht waiting 1) (packet 1 4 8 ∷ []);
    })
unfolding uint_to_idx
remove_pd_ack_other_example =
    remove_pd_ack_other addrs 1 5 8 waiting (packet 1 4 8) (packet 51 5 8) [] refl refl
      (λ e. omega arith) refl refl

abbrev two : Ht (PendLsa ℕ)
two = ht_insert pd_ack_ht (packet 1 4 8) (emptied 50)

two-IsValid : IsValid pd_ack_ht two
two-IsValid =
    ht_insert-IsValid pd_ack_ht (emptied 50) (emptied-IsValid pd_ack_ht 50 (omega arith))
      (packet 1 4 8) (omega arith)

clnt_rm_pd_ad_ann_by_addr-not_to_example :
    let acks' = clnt_rm_pd_ad_ann_by_addr addrs 8 two in
    IsValid pd_ack_ht acks'
    × ((k : ℕ) → stack_of pd_ack_ht acks' k ≡ not_to (addrs.same 8) (stack_of pd_ack_ht two k))
clnt_rm_pd_ad_ann_by_addr-not_to_example = clnt_rm_pd_ad_ann_by_addr-not_to addrs 8 two two-IsValid

abbrev news : List (Datagram ℕ)
news = whole (record { head = header; links = []; objs = []; from = 7 }) ∷ []

-- the announcement behind a short datagram is never read
receive_all-IsRefused_example :
    receive_all setting (news ∷ [] ∷ []) (short 9 ∷ []) daemon
    ≡ ok (short 9 ∷ ([] ++ (news ++ ([] ++ []))), daemon)
receive_all-IsRefused_example =
    receive_all-IsRefused setting (short 9) [] daemon (news ∷ [] ∷ []) (9, inl refl)
