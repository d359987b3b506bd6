-- ===== src/Ht/Finds.antt =====
-- src/ht.h: HT_FIND after the other operations.
use mathlib.Core.List.{head?}
use dhttp.Base.{
  ◌≢◌, ◌==◌, ==_iff, ◌<◌, length, get_or, set, get_or-set, length-set, suc, ◌≡◌, refl, sym, ap, ◌∙◌,
  true, false, Bool-cases, inl, inr, some, List, [], ◌∷◌, if◌then◌else◌, Returns,
}
use dhttp.Ht.Laws.{IsValid, stack_of, ht_find-stack, ht_insert-stack, ht_remove-stack}
use dhttp.Ht.Chains.{has_key_other}
use dhttp.Ht.{
  Keyed, Ht, has_key, find_in, change_in, change_at, home, chain_of, ht_find, ht_insert, ht_remove,
}
use mathlib.Core.Option

head?-some : {N : Type 0} (s : List N) (n : N) → head? s ≡ some n → (r : List N) × (s ≡ n ∷ r)
head?-some [] n e = cc
head?-some (x ∷ s) n e = (s, cc)

module _ {K N : Type 0} (keyed : Keyed K N) (t : Ht N) (valid : IsValid keyed t) where
  pub ht_find-ht_insert :
      (n : N) (j : K)
      → ht_find keyed j (ht_insert keyed n t)
        ≡ (if keyed.same (keyed.key_of n) j then some n else ht_find keyed j t)
  ht_find-ht_insert n j =
      ht_find-stack keyed (ht_insert keyed n t) j
      ∙ ap head? (ht_insert-stack keyed t valid n j)
      ∙ elim (Bool-cases (keyed.same (keyed.key_of n) j)) [
        | inl e ↦ rw e refl
        | inr e ↦ rw e (sym (ht_find-stack keyed t j))
      ]

  -- the node that HT_FIND gives is taken out
  pub ht_remove_found :
      (k : K) (n : N)
      → ht_find keyed k t ≡ some n
      → Returns (ht_remove keyed k t) λ t'.
        IsValid keyed t'
        × (suc t'.entr_cnt ≡ t.entr_cnt)
        × ((j : K) → keyed.same k j ≡ false → ht_find keyed j t' ≡ ht_find keyed j t)
  ht_remove_found k n e =
      let (r, is_top) = head?-some (stack_of keyed t k) n (sym (ht_find-stack keyed t k) ∙ e) in
      let (t', run, (kept, stacks, count, size)) = ht_remove-stack keyed t valid k n r is_top in
      (
        t',
        run,
        (
          kept,
          count,
          λ j ne.
              ht_find-stack keyed t' j
              ∙ ap head? (stacks j)
              ∙ rw ne (sym (ht_find-stack keyed t j)),
        ),
      )

module _ {K N : Type 0} (keyed : Keyed K N) (f : N → N)
    (same_key : (n : N) → keyed.key_of (f n) ≡ keyed.key_of n) where
  has_key-change : (k : K) (n : N) → has_key keyed k (f n) ≡ has_key keyed k n
  has_key-change k n = ap (λ q. keyed.same q k) (same_key n)

  find_in-change_in :
      (k : K) (c : List N)
      → find_in keyed k (change_in keyed k f c) ≡ Option.map f (find_in keyed k c)
  unfolding find_in change_in
  find_in-change_in k [] = refl
  find_in-change_in k (n ∷ c) = elim (Bool-cases (has_key keyed k n)) [
    | inl own ↦ rw (own, has_key-change k n ∙ own) refl
    | inr other ↦ rw (other, other) (find_in-change_in k c)
  ]

  find_in_other :
      (k j : K) (c : List N) → k ≢ j → find_in keyed j (change_in keyed k f c) ≡ find_in keyed j c
  unfolding find_in change_in
  find_in_other k j [] ne = refl
  find_in_other k j (n ∷ c) ne = elim (Bool-cases (has_key keyed k n)) [
    | inl own ↦
        let not_j = has_key_other keyed k j n ne own in
        rw (own, has_key-change j n ∙ not_j, not_j) refl
    | inr other ↦
        rw other (ap (λ q. if has_key keyed j n then some n else q) (find_in_other k j c ne))
  ]

  module _ (t : Ht N) (roomy : 0 < length t.buckets) where
    chain_of-change_at :
        (k j : K)
        → chain_of keyed (change_at keyed k f t) j ≡ (
            if home keyed t k == home keyed t j
            then change_in keyed k f (chain_of keyed t k)
            else chain_of keyed t j)
    unfolding change_at
    chain_of-change_at k j =
        let c = change_in keyed k f (chain_of keyed t k) in
        ap (λ m. get_or (set t.buckets (home keyed t k) c) (keyed.key_to_idx j m) [])
          (length-set t.buckets (home keyed t k) c)
        ∙ get_or-set t.buckets (home keyed t k) (home keyed t j) c []
            (keyed.key_to_idx-lt k (length t.buckets) roomy)

    -- a change in place is seen by lookups of its key, and by no other
    pub ht_find-change_at :
        (k : K) → ht_find keyed k (change_at keyed k f t) ≡ Option.map f (ht_find keyed k t)
    unfolding ht_find
    ht_find-change_at k =
        let here : (home keyed t k == home keyed t k) ≡ true = (==_iff _ _).1 refl in
        ap (find_in keyed k) (chain_of-change_at k k ∙ rw here refl)
        ∙ find_in-change_in k (chain_of keyed t k)

    pub ht_find_unchanged :
        (k j : K) → k ≢ j → ht_find keyed j (change_at keyed k f t) ≡ ht_find keyed j t
    unfolding ht_find
    ht_find_unchanged k j ne = elim (Bool-cases (home keyed t k == home keyed t j)) [
      | inl e ↦
          let at_j : home keyed t k ≡ home keyed t j = (==_iff _ _).0 e in
          ap (find_in keyed j) (chain_of-change_at k j ∙ rw e refl)
          ∙ find_in_other k j (chain_of keyed t k) ne
          ∙ ap (λ i. find_in keyed j (get_or t.buckets i [])) at_j
      | inr e ↦ ap (find_in keyed j) (chain_of-change_at k j ∙ rw e refl)
    ]
