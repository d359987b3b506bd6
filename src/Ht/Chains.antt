-- ===== src/Ht/Chains.antt =====
-- src/ht.h: the loops over one chain, against the list of the nodes that have a key.
use mathlib.Core.List.{head?}
use dhttp.Base.{
  suc, ◌≡◌, ◌≢◌, refl, arith, true, false, Bool-cases, inl, inr, List, [], ◌∷◌, length,
  if◌then◌else◌, fault, assertion_failed, Returns,
}
use dhttp.Ht.{Keyed, has_key, find_in, remove_in}

module _ {K N : Type 0} (keyed : Keyed K N) where
  -- the nodes of a chain that have the key, the last one inserted first
  abbrev pub stack_in : K → List N → List N
  stack_in k [] = []
  stack_in k (n ∷ c) = let rest = stack_in k c in if has_key keyed k n then n ∷ rest else rest

  pub find_in-stack : (k : K) (c : List N) → find_in keyed k c ≡ head? (stack_in k c)
  unfolding find_in
  find_in-stack k [] = refl
  find_in-stack k (n ∷ c) = ground (arith, find_in-stack k c)

  pub has_key_other :
      (k j : K) (n : N) → k ≢ j → has_key keyed k n ≡ true → has_key keyed j n ≡ false
  has_key_other k j n ne h =
      ground (arith, keyed.same_iff (keyed.key_of n) k, keyed.same_iff (keyed.key_of n) j)

  -- the key's last node goes, and no other
  pub record Popped (k : K) (c : List N) (n : N) (r : List N) (c' : List N) : Type 0 where
    pub own : stack_in k c' ≡ r
    pub others : (j : K) → k ≢ j → stack_in j c' ≡ stack_in j c
    pub shorter : suc (length c') ≡ length c

  pub remove_in-Popped :
      (k : K) (c : List N) (n : N) (r : List N)
      → stack_in k c ≡ n ∷ r
      → Returns (remove_in keyed k c) (Popped k c n r)
  unfolding remove_in
  remove_in-Popped k [] n r h = cc
  remove_in-Popped k (m ∷ c) n r h = elim (Bool-cases (has_key keyed k m)) [
    | inl own ↦
        let at_head : m ∷ stack_in k c ≡ n ∷ r = rw own at h in
        (
          c,
          rw own,
          record { own = cc; others = λ j ne. rw (has_key_other k j m ne own); shorter = refl },
        )
    | inr other ↦
        let deeper : stack_in k c ≡ n ∷ r = rw other at h in
        let (c', run, popped) = remove_in-Popped k c n r deeper in
        (
          m ∷ c',
          rw (other, run),
          record {
            own = rw other popped.own;
            others = λ j ne. rw (popped.others j ne);
            shorter = omega (arith, popped.shorter);
          },
        )
  ]

  pub remove_in_absent :
      (k : K) (c : List N) → stack_in k c ≡ [] → remove_in keyed k c ≡ fault assertion_failed
  unfolding remove_in
  remove_in_absent k [] h = refl
  remove_in_absent k (m ∷ c) h = ground (arith, remove_in_absent k c)
