-- ===== src/Ht.antt =====
-- src/ht.h and src/ht.c: the chained hash table behind the macros HT_INSERT, HT_FIND and
-- HT_REMOVE. A chain is the list of its nodes; `bucket_size` is the number of chains.
pub mod Keys
pub mod Chains
pub mod Laws
pub mod Finds
pub mod Empty
use dhttp.Base.{
  ℕ, suc, ◌+◌, ◌-◌, ◌%◌, ◌^◌, ◌<◌, ◌≡◌, ◌↔◌, Bool, true, false, Option, none, some, List, [], ◌∷◌,
  length, get_or, set, if◌then◌else◌, Run, ok, fault, assertion_failed, ◌>>=◌,
}

-- `key_to_idx` and `cmp_key` for the key `key_of` of a node. `same` stands for a result 0 of
-- `cmp_key`; the laws are those of the two pairs of functions in ht.c.
pub record Keyed (K N : Type 0) : Type 0 where
  pub key_of : N → K
  pub key_to_idx : K → ℕ → ℕ
  pub same : K → K → Bool
  pub same_iff : (a b : K) → (same a b ≡ true) ↔ (a ≡ b)
  pub key_to_idx-lt : (a : K) (size : ℕ) → 0 < size → key_to_idx a size < size

pub record Ht (N : Type 0) : Type 0 where
  pub buckets : List (List N)
  pub entr_cnt : ℕ

-- size_t arithmetic on the count of entries
abbrev pub size_mod : ℕ
size_mod = 2 ^ 64

abbrev pub count_up : ℕ → ℕ
count_up c = (c + 1) % size_mod

abbrev pub count_down : ℕ → ℕ
count_down c = (c + size_mod - 1) % size_mod

module _ {K N : Type 0} (keyed : Keyed K N) where
  abbrev pub home : Ht N → K → ℕ
  home t k = keyed.key_to_idx k (length t.buckets)

  -- table[idx]
  abbrev pub chain_of : Ht N → K → List N
  chain_of t k = get_or t.buckets (home t k) []

  abbrev pub has_key : K → N → Bool
  has_key k n = keyed.same (keyed.key_of n) k

  -- the first node of a chain with the key
  pub find_in : K → List N → Option N
  find_in k [] = none
  find_in k (n ∷ c) = if has_key k n then some n else find_in k c

  unfoldable pub ht_find : K → Ht N → Option N
  unfolding find_in
  ht_find k t = find_in k (chain_of t k)

  unfoldable pub ht_insert : N → Ht N → Ht N
  ht_insert n t =
      let k = keyed.key_of n in
      record {
        buckets = set t.buckets (home t k) (n ∷ chain_of t k);
        entr_cnt = count_up t.entr_cnt;
      }

  -- the chain without its first node with the key; the macro asserts that there is one
  pub remove_in : K → List N → Run (List N)
  remove_in k [] = fault assertion_failed
  remove_in k (n ∷ c) =
      let rest = remove_in k c in if has_key k n then ok c else (rest >>= λ r. ok (n ∷ r))

  unfoldable pub ht_remove : K → Ht N → Run (Ht N)
  unfolding remove_in
  ht_remove k t = do
    chain ← remove_in k (chain_of t k)
    ok (record { buckets = set t.buckets (home t k) chain; entr_cnt = count_down t.entr_cnt })

  -- the first node of a chain with the key is changed in place
  pub change_in : K → (N → N) → List N → List N
  change_in k f [] = []
  change_in k f (n ∷ c) = let rest = change_in k f c in if has_key k n then f n ∷ c else n ∷ rest

  unfoldable pub change_at : K → (N → N) → Ht N → Ht N
  unfolding change_in
  change_at k f t = record t { buckets = set t.buckets (home t k) (change_in k f (chain_of t k)) }
