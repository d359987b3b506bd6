-- ===== src/Pending/Retransmission.antt =====
-- src/sel_timeout.c and src/client_info.c: no packet is lost when it times out.
use dhttp.Base.{
  ℕ, suc, ◌+◌, ◌≤◌, ◌<◌, ◌≡◌, refl, arith, false, Bool-cases, inl, inr, List, [], ◌∷◌, length,
}
use dhttp.Base.Int.{is_negative}
use dhttp.Ht.Laws.{total}
use dhttp.Ht.{Ht, size_mod, count_down}
use dhttp.Lsa.{PendLsa, Intervals}
use dhttp.Pending.{aged, prep_retran_pkt, retran_chain, retran_chains, process_retran_timeout}

count_down-suc : (n : ℕ) → 0 < n → n < size_mod → suc (count_down n) ≡ n
count_down-suc n h k = omega arith

module _ {A : Type 0} where
  -- no packet's time is over
  abbrev pub AreLive : List (PendLsa A) → Type 0
  AreLive [] = Unit {0}
  AreLive (p ∷ c) = (is_negative p.time_left ≡ false) × AreLive c

  abbrev pub AllLive : List (List (PendLsa A)) → Type 0
  AllLive [] = Unit {0}
  AllLive (c ∷ cs) = AreLive c × AllLive cs

  module _ (iv : Intervals) (elapsed : ℕ) where
    -- the packets that stay and those of the outbox are those that were there
    pub record Keeps (size : ℕ) (outbox : List (PendLsa A)) (n left : ℕ)
        (outbox' : List (PendLsa A)) (n' : ℕ) : Type 0 where
      pub grown : length outbox ≤ length outbox'
      pub none_lost : left + length outbox' ≡ size + length outbox
      pub counted : n' + length outbox' ≡ n + length outbox

    retran_chain-Keeps :
        (c : List (PendLsa A)) (outbox : List (PendLsa A)) (n : ℕ)
        → length c ≤ n
        → n < size_mod
        → let r = retran_chain iv elapsed c (outbox, n) in
          Keeps (length c) outbox n (length r.0) r.1.0 r.1.1 × AreLive r.0
    unfolding retran_chain prep_retran_pkt
    retran_chain-Keeps [] outbox n h k =
        (record { grown = omega arith; none_lost = refl; counted = refl }, tt)
    retran_chain-Keeps (p ∷ c) outbox n h k =
        elim (Bool-cases (is_negative (aged elapsed p).time_left)) [
          | inl over ↦
              let down = count_down-suc n (omega arith) k in
              let q = record (aged elapsed p) { time_left = iv.retran_timeout } in
              let (keeps, live) =
                retran_chain-Keeps c (q ∷ outbox) (count_down n) (omega arith) (omega arith) in
              rw over (
                record {
                  grown = omega (arith, keeps.grown);
                  none_lost = omega (arith, keeps.none_lost);
                  counted = omega (arith, keeps.counted);
                },
                live,
              )
          | inr stays ↦
              let (keeps, live) = retran_chain-Keeps c outbox n (omega arith) k in
              rw stays (
                record {
                  grown = omega (arith, keeps.grown);
                  none_lost = omega (arith, keeps.none_lost);
                  counted = omega (arith, keeps.counted);
                },
                (stays, live),
              )
        ]

    retran_chains-Keeps :
        (cs : List (List (PendLsa A))) (outbox : List (PendLsa A)) (n : ℕ)
        → total cs ≤ n
        → n < size_mod
        → let r = retran_chains iv elapsed cs (outbox, n) in
          Keeps (total cs) outbox n (total r.0) r.1.0 r.1.1 × AllLive r.0
    unfolding retran_chains
    retran_chains-Keeps [] outbox n h k =
        (record { grown = omega arith; none_lost = refl; counted = refl }, tt)
    retran_chains-Keeps (c ∷ cs) outbox n h k =
        let mid = (retran_chain iv elapsed c (outbox, n)).1 in
        let (one, live) = retran_chain-Keeps c outbox n (omega arith) k in
        let some_left : total cs ≤ mid.1 = omega (arith, one.none_lost, one.counted) in
        let fewer : mid.1 ≤ n = omega (arith, one.grown, one.counted) in
        let (rest, alive) = retran_chains-Keeps cs mid.0 mid.1 some_left (omega arith) in
        (
          record {
            grown = omega (arith, one.grown, rest.grown);
            none_lost = omega (arith, one.none_lost, rest.none_lost);
            counted = omega (arith, one.counted, rest.counted);
          },
          (live, alive),
        )

  -- nothing leaves the outbox
  pub process_retran_timeout_grows :
      (iv : Intervals) (elapsed : ℕ) (acks : Ht (PendLsa A)) (outbox : List (PendLsa A))
      → acks.entr_cnt ≡ total acks.buckets
      → acks.entr_cnt < size_mod
      → length outbox ≤ length (process_retran_timeout iv elapsed (acks, outbox)).1
  unfolding process_retran_timeout
  process_retran_timeout_grows iv elapsed acks outbox counted small =
      (retran_chains-Keeps iv elapsed acks.buckets outbox acks.entr_cnt (omega arith) small).0.grown

  -- A round of the timeouts loses no packet: with the table's count right, each packet stays in the
  -- table or goes to the outbox, those that stay have time left, and the count is right again.
  pub process_retran_timeout-Keeps :
      (iv : Intervals) (elapsed : ℕ) (acks : Ht (PendLsa A)) (outbox : List (PendLsa A))
      → acks.entr_cnt ≡ total acks.buckets
      → acks.entr_cnt < size_mod
      → let (acks', outbox') = process_retran_timeout iv elapsed (acks, outbox) in
        (total acks'.buckets + length outbox' ≡ total acks.buckets + length outbox)
        × (acks'.entr_cnt ≡ total acks'.buckets)
        × AllLive acks'.buckets
  unfolding process_retran_timeout
  process_retran_timeout-Keeps iv elapsed acks outbox counted small =
      let (keeps, live) =
        retran_chains-Keeps iv elapsed acks.buckets outbox acks.entr_cnt (omega arith) small in
      (keeps.none_lost, omega (arith, keeps.none_lost, keeps.counted), live)
