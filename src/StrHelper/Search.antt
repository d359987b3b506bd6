-- ===== src/StrHelper/Search.antt =====
-- src/str_helper.c: the binary search of `str_match`.
use Prim.Native.Nat.{Ordering}
use dhttp.Base.{
  ℕ, zero, suc, ◌+◌, ◌-◌, ◌/◌, ◌≤◌, ◌<◌, ◌≡◌, ◌≢◌, refl, arith, ◌⊎◌, inl, inr, true, dec_lt, Option,
  none, some, List, [], get_or, ltb,
}
use dhttp.StrHelper.{strncmp, match_from, str_match}

-- how the word at `i` compares to the one looked for
abbrev pub cmp_at : List (List ℕ) → List ℕ → ℕ → ℕ → Ordering
cmp_at dest src max_len i = strncmp max_len (get_or dest i []) src

-- In ascending order the words before `src` come first, and those after it come last.
pub record IsAscending (dest : List (List ℕ)) (src : List ℕ) (max_len num : ℕ) : Type 0 where
  pub before :
      (i j : ℕ)
      → i < j
      → j < num
      → cmp_at dest src max_len j ≢ Ordering.gt
      → cmp_at dest src max_len i ≡ Ordering.lt
  pub after :
      (i j : ℕ)
      → i < j
      → j < num
      → cmp_at dest src max_len i ≢ Ordering.lt
      → cmp_at dest src max_len j ≡ Ordering.gt

-- what the result says: no word is equal, or the word at the index is
abbrev pub Matches : List (List ℕ) → List ℕ → ℕ → ℕ → Option ℕ → Type 0
Matches dest src max_len num none = (i : ℕ) → i < num → cmp_at dest src max_len i ≢ Ordering.eq
Matches dest src max_len num (some i) = (i < num) × (cmp_at dest src max_len i ≡ Ordering.eq)

Ordering-cases : (o : Ordering) → (o ≡ Ordering.lt) ⊎ ((o ≡ Ordering.gt) ⊎ (o ≡ Ordering.eq))
Ordering-cases Ordering.lt = inl refl
Ordering-cases Ordering.gt = inr (inl refl)
Ordering-cases Ordering.eq = inr (inr refl)

module _ (dest : List (List ℕ)) (src : List ℕ) (max_len num : ℕ)
    (sorted : IsAscending dest src max_len num) where
  match_from-Matches :
      (fuel low above : ℕ)
      → low ≤ above
      → above ≤ num
      → above - low < fuel
      → ((i : ℕ) → i < low → cmp_at dest src max_len i ≢ Ordering.eq)
      → ((i : ℕ) → above ≤ i → i < num → cmp_at dest src max_len i ≢ Ordering.eq)
      → (o : Option ℕ) × (match_from dest src max_len fuel low above ≡ some o)
        × Matches dest src max_len num o
  unfolding match_from
  match_from-Matches zero low above h k f lo hi = absurd (omega arith)
  match_from-Matches (suc fuel) low above h k f lo hi = elim (dec_lt low above) [
    | no done ↦ (
      none,
      ground arith,
      λ i l. elim (dec_lt i low) [ yes p ↦ lo i p | no p ↦ hi i (omega arith) l ],
    )
    | yes more ↦
        let mid = (low + (above - 1)) / 2 in
        let go : ltb low above ≡ true = ground arith in
        let below : mid < above = omega arith in
        elim (Ordering-cases (cmp_at dest src max_len mid)) [
          | inl e ↦
              let (o, run, found) =
                match_from-Matches fuel (mid + 1) above (omega arith) k (omega arith)
                  (λ i l eq. elim (dec_lt i mid) [
                    | yes p ↦ cc (sorted.before i mid p (omega arith) (λ g. cc))
                    | no p ↦ let same : i ≡ mid = omega arith in cc
                  ])
                  hi in
              (o, rw (go, e) run, found)
          | inr (inl e) ↦
              let (o, run, found) =
                match_from-Matches fuel low mid (omega arith) (omega arith) (omega arith) lo
                  (λ i l m eq. elim (dec_lt mid i) [
                    | yes p ↦ cc (sorted.after mid i p m (λ g. cc))
                    | no p ↦ let same : i ≡ mid = omega arith in cc
                  ]) in
              (o, rw (go, e) run, found)
          | inr (inr e) ↦ (some mid, rw (go, e), (omega arith, e))
        ]
  ]

match_from_ends :
    (dest : List (List ℕ)) (src : List ℕ) (max_len fuel low above : ℕ)
    → above - low < fuel
    → (o : Option ℕ) × (match_from dest src max_len fuel low above ≡ some o)
unfolding match_from
match_from_ends dest src max_len zero low above f = absurd (omega arith)
match_from_ends dest src max_len (suc fuel) low above f = elim (dec_lt low above) [
  | no done ↦ (none, ground arith)
  | yes more ↦
      let mid = (low + (above - 1)) / 2 in
      let go : ltb low above ≡ true = ground arith in
      elim (Ordering-cases (cmp_at dest src max_len mid)) [
        | inl e ↦
            let (o, run) = match_from_ends dest src max_len fuel (mid + 1) above (omega arith) in
            (o, rw (go, e) run)
        | inr (inl e) ↦
            let (o, run) = match_from_ends dest src max_len fuel low mid (omega arith) in
            (o, rw (go, e) run)
        | inr (inr e) ↦ (some mid, rw (go, e))
      ]
]

-- in any order the search ends
pub str_match_ends :
    (dest : List (List ℕ)) (src : List ℕ) (max_len num : ℕ)
    → (o : Option ℕ) × (str_match dest num src max_len ≡ some o)
unfolding str_match
str_match_ends dest src max_len num = match_from_ends dest src max_len (num + 1) 0 num (omega arith)

-- On words in ascending order the search ends, and it returns an index at which the word is equal
-- to `src` (by strncmp over at most `max_len` bytes), or -1 when no word is.
pub str_match-Matches :
    (dest : List (List ℕ)) (src : List ℕ) (max_len num : ℕ)
    → IsAscending dest src max_len num
    → (o : Option ℕ) × (str_match dest num src max_len ≡ some o) × Matches dest src max_len num o
unfolding str_match
str_match-Matches dest src max_len num sorted =
    match_from-Matches dest src max_len num sorted (num + 1) 0 num (omega arith) (omega arith)
      (omega arith) (λ i l. absurd (omega arith)) (λ i l m. absurd (omega arith))
