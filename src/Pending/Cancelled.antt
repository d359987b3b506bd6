-- ===== src/Pending/Cancelled.antt =====
-- src/client_info.c: the packets to a node that is down are given up, and an acknowledgement ends the
-- wait for its packet.
use dhttp.Base.{
  ℕ, zero, suc, ◌+◌, ◌≤◌, ◌<◌, ◌≡◌, ◌≢◌, refl, subst, ap, ◌∙◌, arith, Bool, true, false, Bool-cases,
  inl, inr, List, [], ◌∷◌, some, map, length, get_or, set, ◌==◌, ==_iff, if◌then◌else◌, ok,
}
use dhttp.Ht.Chains.{stack_in}
use dhttp.Ht.Keys.{uint_to_idx, cmp_int_iff}
use dhttp.Ht.Laws.{total, stack_of, IsValid, ht_find-stack}
use dhttp.Ht.{Ht, size_mod, count_down, home, chain_of, has_key, ht_find}
use dhttp.Lsa.{PendLsa}
use dhttp.Pending.{
  Addrs, pd_ack_ht, rm_chain, rm_chains, clnt_rm_pd_ad_ann_by_addr, unlink, unlink_behind,
  remove_pd_ack,
}

module _ {A : Type 0} where
  -- the packets that do not go to the address
  abbrev pub not_to : (A → Bool) → List (PendLsa A) → List (PendLsa A)
  not_to is_addr [] = []
  not_to is_addr (p ∷ c) = let rest = not_to is_addr c in if is_addr p.addr then rest else p ∷ rest

  module _ (is_addr : A → Bool) where
    length-not_to : (c : List (PendLsa A)) → length (not_to is_addr c) ≤ length c
    length-not_to [] = omega arith
    length-not_to (p ∷ c) = ground (arith, length-not_to c)

    rm_chain-not_to :
        (c : List (PendLsa A)) (n : ℕ)
        → length c ≤ n
        → n < size_mod
        → ((rm_chain is_addr c n).0 ≡ not_to is_addr c)
          × ((rm_chain is_addr c n).1 + length c ≡ n + length (not_to is_addr c))
    unfolding rm_chain
    rm_chain-not_to [] n h k = (refl, refl)
    rm_chain-not_to (p ∷ c) n h k = elim (Bool-cases (is_addr p.addr)) [
      | inl e ↦
          let down : suc (count_down n) ≡ n = omega arith in
          let (same, counted) = rm_chain-not_to c (count_down n) (omega arith) (omega arith) in
          rw e (same, omega arith)
      | inr e ↦
          let (same, counted) = rm_chain-not_to c n (omega arith) k in
          rw e (ap (◌∷◌ p) same, omega arith)
    ]

    rm_chains-not_to :
        (cs : List (List (PendLsa A))) (n : ℕ)
        → total cs ≤ n
        → n < size_mod
        → ((rm_chains is_addr cs n).0 ≡ map (not_to is_addr) cs)
          × ((rm_chains is_addr cs n).1 + total cs ≡ n + total (map (not_to is_addr) cs))
    unfolding rm_chains
    rm_chains-not_to [] n h k = (refl, refl)
    rm_chains-not_to (c ∷ cs) n h k =
        let (same, counted) = rm_chain-not_to c n (omega arith) k in
        let fewer = length-not_to c in
        let (rest, sum) =
          rm_chains-not_to cs (rm_chain is_addr c n).1 (omega arith) (omega arith) in
        (rw (same, rest) refl, omega arith)

    stack_in-not_to :
        (k : ℕ) (c : List (PendLsa A))
        → stack_in pd_ack_ht k (not_to is_addr c) ≡ not_to is_addr (stack_in pd_ack_ht k c)
    stack_in-not_to k [] = refl
    stack_in-not_to k (p ∷ c) = elim (Bool-cases (is_addr p.addr)) [
      | inl e ↦ elim (Bool-cases (has_key pd_ack_ht k p)) [
        | inl f ↦ rw (e, f, stack_in-not_to k c) (rw e refl)
        | inr f ↦ rw (e, f) (stack_in-not_to k c)
      ]
      | inr e ↦ elim (Bool-cases (has_key pd_ack_ht k p)) [
        | inl f ↦ rw (e, f, stack_in-not_to k c) (rw e refl)
        | inr f ↦ rw (e, f) (stack_in-not_to k c)
      ]
    ]

    get_or-not_to :
        (cs : List (List (PendLsa A))) (i : ℕ)
        → get_or (map (not_to is_addr) cs) i [] ≡ not_to is_addr (get_or cs i [])
    get_or-not_to [] i = refl
    get_or-not_to (c ∷ cs) zero = refl
    get_or-not_to (c ∷ cs) (suc i) = get_or-not_to cs i

    length-map-not_to :
        (cs : List (List (PendLsa A))) → length (map (not_to is_addr) cs) ≡ length cs
    length-map-not_to [] = refl
    length-map-not_to (c ∷ cs) = ap suc (length-map-not_to cs)

    total-map-not_to : (cs : List (List (PendLsa A))) → total (map (not_to is_addr) cs) ≤ total cs
    total-map-not_to [] = omega arith
    total-map-not_to (c ∷ cs) = omega (arith, length-not_to c, total-map-not_to cs)

  -- In a valid table `clnt_rm_pd_ad_ann_by_addr` takes exactly the packets to the address out of every
  -- sender's stack, in whichever chains they lie, leaves the others in their order, and keeps the
  -- table and its count valid.
  pub clnt_rm_pd_ad_ann_by_addr-not_to :
      (addrs : Addrs A) (addr : A) (acks : Ht (PendLsa A))
      → IsValid pd_ack_ht acks
      → let acks' = clnt_rm_pd_ad_ann_by_addr addrs addr acks in
        IsValid pd_ack_ht acks'
        × ((k : ℕ)
            → stack_of pd_ack_ht acks' k ≡ not_to (addrs.same addr) (stack_of pd_ack_ht acks k))
  unfolding clnt_rm_pd_ad_ann_by_addr
  clnt_rm_pd_ad_ann_by_addr-not_to addrs addr acks valid =
      let f = addrs.same addr in
      let count = valid.counted in
      let bound = valid.few in
      let room = valid.roomy in
      let (same, sum) = rm_chains-not_to f acks.buckets acks.entr_cnt (omega arith) (omega arith) in
      let size = length-map-not_to f acks.buckets in
      let fewer = total-map-not_to f acks.buckets in
      rw same (
        record {
          roomy = omega arith;
          placed = λ i k ne.
              ap (stack_in pd_ack_ht k) (get_or-not_to f acks.buckets i)
              ∙ stack_in-not_to f k (get_or acks.buckets i [])
              ∙ ap (not_to f) (valid.placed i k (subst (λ m. uint_to_idx k m ≢ i) size ne));
          counted = omega arith;
          few = omega arith;
        },
        λ k. rw size (
            ap (stack_in pd_ack_ht k) (get_or-not_to f acks.buckets (home pd_ack_ht acks k))
            ∙ stack_in-not_to f k (chain_of pd_ack_ht acks k)),
      )

  -- `remove_pd_ack` does not look at the sender of the packets behind the first: where the first packet
  -- of a chain is the sender's and has another number, the packet behind it is removed, whoever sent
  -- it, if it has the number and the address; and the count of the table stays as it was.
  pub remove_pd_ack_other :
      (addrs : Addrs A) (snder_id seq_num : ℕ) (addr : A) (acks : Ht (PendLsa A)) (p q : PendLsa A)
      (r : List (PendLsa A))
      → chain_of pd_ack_ht acks snder_id ≡ p ∷ q ∷ r
      → p.snder_id ≡ snder_id
      → p.seq_num ≢ seq_num
      → q.seq_num ≡ seq_num
      → addrs.same addr q.addr ≡ true
      → remove_pd_ack addrs snder_id seq_num addr acks
        ≡ ok (record acks { buckets = set acks.buckets (home pd_ack_ht acks snder_id) (p ∷ r) })
  unfolding remove_pd_ack unlink unlink_behind
  remove_pd_ack_other addrs snder_id seq_num addr acks p q r chain own other number to =
      let first : has_key pd_ack_ht snder_id p ≡ true = (cmp_int_iff p.snder_id snder_id).1 own in
      let passed : (p.seq_num == seq_num) ≡ false = ground arith in
      let met : (q.seq_num == seq_num) ≡ true = (==_iff _ _).1 number in
      let found : ht_find pd_ack_ht snder_id acks ≡ some p =
        ht_find-stack pd_ack_ht acks snder_id ∙ rw (chain, first) refl in
      rw (remove_pd_ack, found, passed, chain, first, met, to) refl
