-- ===== src/Pending/Resent.antt =====
-- src/sel_timeout.c: a packet that is not acknowledged is sent again.
use dhttp.Base.{
  ℕ, zero, suc, ◌+◌, ◌*◌, ◌<◌, ◌≡◌, refl, subst, arith, true, false, Bool, if◌then◌else◌,
  Bool-cases, inl, inr, List, [], ◌∷◌, length,
}
use dhttp.Base.Int.{ℤ, pos, negsuc, minus, is_negative}
use dhttp.Ht.Laws.{total}
use dhttp.Ht.{Ht, size_mod, count_down}
use dhttp.Lsa.{PendLsa, Intervals}
use dhttp.Pending.Retransmission.{
  AllLive, process_retran_timeout-Keeps, process_retran_timeout_grows,
}
use dhttp.Pending.{aged, prep_retran_pkt, retran_chain, retran_chains, process_retran_timeout}

later :
    (z : ℤ) (elapsed more : ℕ)
    → is_negative (minus z (elapsed + more)) ≡ true
    → is_negative (minus (minus z elapsed) more) ≡ true
later (pos a) elapsed more h = ground arith
later (negsuc a) elapsed more h = refl

-- a packet that has time left is not over at once
none_over : (z : ℤ) → is_negative z ≡ false → is_negative (minus z 0) ≡ true → ⊥
none_over (pos a) live over = ground arith
none_over (negsuc a) live over = cc

module _ {A : Type 0} where
  -- every packet's time is over after so many microseconds
  abbrev pub AreWithin : ℕ → List (PendLsa A) → Type 0
  AreWithin time [] = Unit {0}
  AreWithin time (p ∷ c) = (is_negative (minus p.time_left time) ≡ true) × AreWithin time c

  abbrev pub AllWithin : ℕ → List (List (PendLsa A)) → Type 0
  AllWithin time [] = Unit {0}
  AllWithin time (c ∷ cs) = AreWithin time c × AllWithin time cs

  -- rounds of the timeouts in which no acknowledgement comes
  abbrev pub retran_rounds :
      Intervals → ℕ → ℕ → Ht (PendLsa A) × List (PendLsa A) → Ht (PendLsa A) × List (PendLsa A)
  retran_rounds iv elapsed zero s = s
  retran_rounds iv elapsed (suc n) s =
      retran_rounds iv elapsed n (process_retran_timeout iv elapsed s)

  module _ (iv : Intervals) (elapsed more : ℕ) where
    retran_chain-AreWithin :
        (c : List (PendLsa A)) (after : List (PendLsa A) × ℕ)
        → AreWithin (elapsed + more) c
        → AreWithin more (retran_chain iv elapsed c after).0
    unfolding retran_chain
    retran_chain-AreWithin [] (outbox, n) h = tt
    retran_chain-AreWithin (p ∷ c) (outbox, n) h =
        elim (Bool-cases (is_negative (aged elapsed p).time_left)) [
          | inl e ↦ rw e (retran_chain-AreWithin c _ h.1)
          | inr e ↦
              rw e (later p.time_left elapsed more h.0, retran_chain-AreWithin c (outbox, n) h.1)
        ]

    retran_chains-AllWithin :
        (cs : List (List (PendLsa A))) (after : List (PendLsa A) × ℕ)
        → AllWithin (elapsed + more) cs
        → AllWithin more (retran_chains iv elapsed cs after).0
    unfolding retran_chains
    retran_chains-AllWithin [] after h = tt
    retran_chains-AllWithin (c ∷ cs) after h =
        (retran_chain-AreWithin c after h.0, retran_chains-AllWithin cs _ h.1)

  all_over : (cs : List (List (PendLsa A))) → AllLive cs → AllWithin 0 cs → total cs ≡ 0
  all_over [] live within = refl
  all_over ([] ∷ cs) live within = omega (arith, all_over cs live.1 within.1)
  all_over ((p ∷ c) ∷ cs) live within = absurd (none_over p.time_left live.0.0 within.0.0)

  retran-AllWithin :
      (iv : Intervals) (elapsed more : ℕ) (acks : Ht (PendLsa A)) (outbox : List (PendLsa A))
      → AllWithin (elapsed + more) acks.buckets
      → AllWithin more (process_retran_timeout iv elapsed (acks, outbox)).0.buckets
  unfolding process_retran_timeout
  retran-AllWithin iv elapsed more acks outbox h =
      retran_chains-AllWithin iv elapsed more acks.buckets (outbox, acks.entr_cnt) h

  -- the packet as it is sent again
  abbrev pub resent : Intervals → PendLsa A → PendLsa A
  resent iv p = record p { time_left = iv.retran_timeout }

  -- how many packets pass the test
  abbrev pub how_many : (PendLsa A → Bool) → List (PendLsa A) → ℕ
  how_many test [] = 0
  how_many test (p ∷ c) = if test p then 1 + how_many test c else how_many test c

  abbrev pub how_many_all : (PendLsa A → Bool) → List (List (PendLsa A)) → ℕ
  how_many_all test [] = 0
  how_many_all test (c ∷ cs) = how_many test c + how_many_all test cs

  module _ (iv : Intervals) (elapsed : ℕ) (test : PendLsa A → Bool) where
    retran_chain-how_many :
        (c outbox : List (PendLsa A)) (n : ℕ)
        → let r = retran_chain iv elapsed c (outbox, n) in
          how_many (λ p. test (resent iv p)) r.0 + how_many test r.1.0
          ≡ how_many (λ p. test (resent iv p)) c + how_many test outbox
    unfolding retran_chain prep_retran_pkt
    retran_chain-how_many [] outbox n = refl
    retran_chain-how_many (p ∷ c) outbox n =
        elim (Bool-cases (is_negative (aged elapsed p).time_left)) [
          | inl e ↦
              let rest = retran_chain-how_many c (resent iv p ∷ outbox) (count_down n) in
              rw e (ground (arith, rest))
          | inr e ↦ let rest = retran_chain-how_many c outbox n in rw e (ground (arith, rest))
        ]

    retran_chains-how_many :
        (cs : List (List (PendLsa A))) (outbox : List (PendLsa A)) (n : ℕ)
        → let r = retran_chains iv elapsed cs (outbox, n) in
          how_many_all (λ p. test (resent iv p)) r.0 + how_many test r.1.0
          ≡ how_many_all (λ p. test (resent iv p)) cs + how_many test outbox
    unfolding retran_chains
    retran_chains-how_many [] outbox n = refl
    retran_chains-how_many (c ∷ cs) outbox n =
        let mid = (retran_chain iv elapsed c (outbox, n)).1 in
        omega (arith, retran_chain-how_many c outbox n, retran_chains-how_many cs mid.0 mid.1)

    retran-how_many :
        (acks : Ht (PendLsa A)) (outbox : List (PendLsa A))
        → let (acks', outbox') = process_retran_timeout iv elapsed (acks, outbox) in
          how_many_all (λ p. test (resent iv p)) acks'.buckets + how_many test outbox'
          ≡ how_many_all (λ p. test (resent iv p)) acks.buckets + how_many test outbox
    unfolding process_retran_timeout
    retran-how_many acks outbox = retran_chains-how_many acks.buckets outbox acks.entr_cnt

  how_many_none :
      (test : PendLsa A → Bool) (cs : List (List (PendLsa A)))
      → total cs ≡ 0
      → how_many_all test cs ≡ 0
  how_many_none test [] h = refl
  how_many_none test ([] ∷ cs) h = omega (arith, how_many_none test cs (omega arith))
  how_many_none test ((p ∷ c) ∷ cs) h = absurd (omega arith)

  -- With the table's count right, every packet that is not acknowledged is sent again: if the time of
  -- all of them is over after `suc n` intervals of the timeouts, then after so many rounds none waits
  -- in the table, the outbox has as many more as there were, and whatever one asks of a packet, as
  -- many of those in the outbox pass as passed before and as packets of the table pass when their
  -- time is set to the interval of retransmission and nothing else of them changes.
  pub retran_rounds-resent :
      (iv : Intervals) (elapsed n : ℕ) (acks : Ht (PendLsa A)) (outbox : List (PendLsa A))
      → acks.entr_cnt ≡ total acks.buckets
      → acks.entr_cnt < size_mod
      → AllWithin (elapsed * suc n) acks.buckets
      → let (acks', outbox') = retran_rounds iv elapsed (suc n) (acks, outbox) in
        (total acks'.buckets ≡ 0)
        × (length outbox' ≡ total acks.buckets + length outbox)
        × ((test : PendLsa A → Bool)
            → how_many test outbox'
              ≡ how_many_all (λ p. test (resent iv p)) acks.buckets + how_many test outbox)
  retran_rounds-resent iv elapsed zero acks outbox counted small within =
      let (kept, count, live) = process_retran_timeout-Keeps iv elapsed acks outbox counted small in
      let over = subst (λ t. AllWithin t acks.buckets) (omega arith) within in
      let all = all_over _ live (retran-AllWithin iv elapsed 0 acks outbox over) in
      (
        all,
        omega (arith, kept),
        λ test. omega (
          arith,
          retran-how_many iv elapsed test acks outbox,
          how_many_none (λ p. test (resent iv p)) _ all,
        ),
      )
  retran_rounds-resent iv elapsed (suc n) acks outbox counted small within =
      let (kept, count, live) = process_retran_timeout-Keeps iv elapsed acks outbox counted small in
      let e : elapsed * suc (suc n) ≡ elapsed + elapsed * suc n = grind arith in
      let over = subst (λ t. AllWithin t acks.buckets) e within in
      let next = process_retran_timeout iv elapsed (acks, outbox) in
      let (all, sum, same) =
        retran_rounds-resent iv elapsed n next.0 next.1 count
          (omega
            (arith, kept, count, process_retran_timeout_grows iv elapsed acks outbox counted small))
          (retran-AllWithin iv elapsed (elapsed * suc n) acks outbox over) in
      (
        all,
        omega (arith, sum, kept),
        λ test. omega (arith, same test, retran-how_many iv elapsed test acks outbox),
      )
