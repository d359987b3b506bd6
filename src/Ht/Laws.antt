-- ===== src/Ht/Laws.antt =====
-- src/ht.h: the table refines a family of stacks, one for each key. HT_INSERT pushes, HT_FIND
-- reads the top and HT_REMOVE pops.
use mathlib.Core.List.{head?}
use dhttp.Base.{
  ℕ, zero, suc, ◌+◌, ◌<◌, ◌≡◌, ◌≢◌, refl, sym, subst, ap, ◌∙◌, arith, true, Bool-cases, inl, inr,
  ==_iff, ◌==◌, List, [], ◌∷◌, length, length-set, get_or, get_or-set, set, if◌then◌else◌, fault,
  assertion_failed, Returns, ◌>>=◌,
}
use dhttp.Ht.Chains.{stack_in, find_in-stack, has_key_other, remove_in-Popped, remove_in_absent}
use dhttp.Ht.{
  Keyed, Ht, size_mod, count_up, count_down, home, chain_of, has_key, ht_find, ht_insert, ht_remove,
}

-- the nodes of all chains
abbrev pub total {ℓ} : {N : Type ℓ} → List (List N) → ℕ
total [] = 0
total (c ∷ cs) = length c + total cs

pub total-set {ℓ} :
    {N : Type ℓ} (bs : List (List N)) (i : ℕ) (c : List N)
    → i < length bs
    → total (set bs i c) + length (get_or bs i []) ≡ total bs + length c
total-set [] i c h = absurd (omega arith)
total-set (b ∷ bs) zero c h = omega arith
total-set (b ∷ bs) (suc i) c h = omega (arith, total-set bs i c)

module _ {K N : Type 0} (keyed : Keyed K N) where
  abbrev pub stack_of : Ht N → K → List N
  stack_of t k = stack_in keyed k (chain_of keyed t k)

  -- There is a chain, every node lies in the chain of its key, and the nodes are counted.
  pub record IsValid (t : Ht N) : Type 0 where
    pub roomy : 0 < length t.buckets
    pub placed :
        (i : ℕ) (k : K) → home keyed t k ≢ i → stack_in keyed k (get_or t.buckets i []) ≡ []
    pub counted : t.entr_cnt ≡ total t.buckets
    pub few : total t.buckets < size_mod

  -- HT_FIND gives the node that was inserted last with the key, if there is one.
  pub ht_find-stack : (t : Ht N) (k : K) → ht_find keyed k t ≡ head? (stack_of t k)
  unfolding ht_find
  ht_find-stack t k = find_in-stack keyed k (chain_of keyed t k)

  module _ (t : Ht N) (valid : IsValid t) where
    home-lt : (k : K) → home keyed t k < length t.buckets
    home-lt k = keyed.key_to_idx-lt k (length t.buckets) valid.roomy

    -- the chain at `home t k` is replaced by `c`
    abbrev with_chain : K → List N → ℕ → Ht N
    with_chain k c n = record { buckets = set t.buckets (home keyed t k) c; entr_cnt = n }

    chain_of-with_chain :
        (k j : K) (c : List N) (n : ℕ)
        → chain_of keyed (with_chain k c n) j
          ≡ (if home keyed t k == home keyed t j then c else chain_of keyed t j)
    chain_of-with_chain k j c n =
        ap (λ m. get_or (set t.buckets (home keyed t k) c) (keyed.key_to_idx j m) [])
          (length-set t.buckets (home keyed t k) c)
        ∙ get_or-set t.buckets (home keyed t k) (home keyed t j) c [] (home-lt k)

    -- a chain that changes for one key only
    stack_of-with_chain :
        (k j : K) (c : List N) (n : ℕ)
        → (k ≢ j → stack_in keyed j c ≡ stack_in keyed j (chain_of keyed t k))
        → stack_of (with_chain k c n) j
          ≡ (if keyed.same k j then stack_in keyed k c else stack_of t j)
    stack_of-with_chain k j c n same =
        ap (stack_in keyed j) (chain_of-with_chain k j c n) ∙ elim (Bool-cases (keyed.same k j)) [
          | inl e ↦
              let k_is : k ≡ j = (keyed.same_iff k j).0 e in
              let homes : (home keyed t k == home keyed t j) ≡ true =
                (==_iff _ _).1 (ap (home keyed t) k_is) in
              rw (e, homes) (ap (λ i. stack_in keyed i c) (sym k_is))
          | inr e ↦
              let ne : k ≢ j = λ k_is. cc ((keyed.same_iff k j).1 k_is) in
              rw e (elim (Bool-cases (home keyed t k == home keyed t j)) [
                | inl homes ↦ rw homes (
                    same ne
                    ∙ ap (λ i. stack_in keyed j (get_or t.buckets i [])) ((==_iff _ _).0 homes))
                | inr homes ↦ rw homes
              ])
        ]

    placed-set :
        (k : K) (c : List N)
        → ((j : K) → k ≢ j → stack_in keyed j c ≡ stack_in keyed j (chain_of keyed t k))
        → (i : ℕ) (j : K) → keyed.key_to_idx j (length t.buckets) ≢ i
        → stack_in keyed j (get_or (set t.buckets (home keyed t k) c) i []) ≡ []
    placed-set k c same i j ne =
        rw (get_or-set t.buckets (home keyed t k) i c [] (home-lt k))
          (elim (Bool-cases (home keyed t k == i)) [
            | inl here ↦
                let at_i : home keyed t k ≡ i = (==_iff _ _).0 here in
                let other : k ≢ j = λ k_is. ne (ap (home keyed t) (sym k_is) ∙ at_i) in
                rw here (same j other ∙ valid.placed (home keyed t k) j (λ e. ne (e ∙ at_i)))
            | inr elsewhere ↦ rw elsewhere (valid.placed i j ne)
          ])

    push_other :
        (n : N) (j : K)
        → keyed.key_of n ≢ j
        → stack_in keyed j (n ∷ chain_of keyed t (keyed.key_of n))
          ≡ stack_in keyed j (chain_of keyed t (keyed.key_of n))
    push_other n j ne =
        rw (has_key_other keyed (keyed.key_of n) j n ne ((keyed.same_iff _ _).1 refl))

    -- In a valid table HT_INSERT pushes the node onto the stack of its key, and leaves every other
    -- key alone.
    pub ht_insert-stack :
        (n : N) (j : K)
        → stack_of (ht_insert keyed n t) j
          ≡ (if keyed.same (keyed.key_of n) j then n ∷ stack_of t j else stack_of t j)
    unfolding ht_insert
    ht_insert-stack n j =
        let k = keyed.key_of n in
        stack_of-with_chain k j (n ∷ chain_of keyed t k) (count_up t.entr_cnt) (push_other n j)
        ∙ elim (Bool-cases (keyed.same k j)) [
          | inl e ↦
              let k_is : k ≡ j = (keyed.same_iff k j).0 e in
              let own : has_key keyed k n ≡ true = (keyed.same_iff k k).1 refl in
              rw (e, own) (ap (λ i. n ∷ stack_of t i) k_is)
          | inr e ↦ rw e
        ]

    -- HT_INSERT into a valid table keeps it valid, while its nodes can be counted in a size_t.
    pub ht_insert-IsValid : (n : N) → total t.buckets + 1 < size_mod → IsValid (ht_insert keyed n t)
    unfolding ht_insert
    ht_insert-IsValid n small =
        let k = keyed.key_of n in
        let c = n ∷ chain_of keyed t k in
        let size = length-set t.buckets (home keyed t k) c in
        let sum = total-set t.buckets (home keyed t k) c (home-lt k) in
        record {
          roomy = omega (arith, valid.roomy);
          placed = λ i j ne.
              placed-set k c (push_other n) i j (subst (λ m. keyed.key_to_idx j m ≢ i) size ne);
          counted = omega (arith, valid.counted);
          few = omega arith;
        }

    -- In a valid table HT_REMOVE of a key that the table holds does not fail: it pops the stack of
    -- the key, leaves every other key alone, counts one node less, keeps the number of buckets, and
    -- keeps the table valid.
    pub ht_remove-stack :
        (k : K) (n : N) (r : List N)
        → stack_of t k ≡ n ∷ r
        → Returns (ht_remove keyed k t) λ t'.
          IsValid t'
          × ((j : K) → stack_of t' j ≡ (if keyed.same k j then r else stack_of t j))
          × (suc t'.entr_cnt ≡ t.entr_cnt)
          × (length t'.buckets ≡ length t.buckets)
    unfolding ht_remove
    ht_remove-stack k n r h =
        let (c, run, popped) = remove_in-Popped keyed k (chain_of keyed t k) n r h in
        let size = length-set t.buckets (home keyed t k) c in
        let sum = total-set t.buckets (home keyed t k) c (home-lt k) in
        let shorter = popped.shorter in
        let bound = valid.few in
        let counts = valid.counted in
        (
          with_chain k c (count_down t.entr_cnt),
          rw (run, ◌>>=◌),
          (
            record {
              roomy = omega (arith, valid.roomy);
              placed = λ i j ne.
                  placed-set k c popped.others i j (subst (λ m. keyed.key_to_idx j m ≢ i) size ne);
              counted = omega arith;
              few = omega arith;
            },
            λ j.
                stack_of-with_chain k j c (count_down t.entr_cnt) (popped.others j)
                ∙ ap (λ s. if keyed.same k j then s else stack_of t j) popped.own,
            omega arith,
            size,
          ),
        )

    pub ht_remove_absent :
        (k : K) → stack_of t k ≡ [] → ht_remove keyed k t ≡ fault assertion_failed
    unfolding ht_remove
    ht_remove_absent k h = rw (remove_in_absent keyed k (chain_of keyed t k) h)
