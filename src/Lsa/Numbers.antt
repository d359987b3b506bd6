-- ===== src/Lsa/Numbers.antt =====
-- src/lsa.c: `update_seq_num` only ever raises a number.
use mathlib.Core.Option
use dhttp.Base.{
  ℕ, ◌<◌, ◌≡◌, ◌≢◌, refl, sym, subst, ap, ◌∙◌, Bool, true, false, Bool-cases, Option, Option-cases,
  inl, inr, none, some, length, ltb, if◌then◌else◌,
}
use dhttp.Ht.Finds.{ht_find-change_at, ht_find_unchanged}
use dhttp.Ht.{Ht, ht_find, change_at}
use dhttp.Lsa.{Lsa, lsa_ht, with_seq_num, update_seq_num}

-- the announcement with the larger of its own number and `n`
abbrev pub raised : ℕ → Lsa → Lsa
raised n l = if ltb l.head.seq_num n then with_seq_num n l else l

abbrev pub is_below : ℕ → Option Lsa → Bool
is_below n none = false
is_below n (some l) = ltb l.head.seq_num n

-- what the call leaves, and whether it raised the number
abbrev pub IsRaised : Ht Lsa → ℕ → ℕ → Bool × Ht Lsa → Type 0
IsRaised t snder_id n (done, t') =
    (done ≡ is_below n (ht_find lsa_ht snder_id t))
    × (ht_find lsa_ht snder_id t' ≡ Option.map (raised n) (ht_find lsa_ht snder_id t))
    × ((j : ℕ) → snder_id ≢ j → ht_find lsa_ht j t' ≡ ht_find lsa_ht j t)

-- In a table with chains the announcement of the sender, if it is there, has afterwards the larger
-- of its own number and the given one, and the result is 1 exactly if it was raised. No other
-- announcement changes.
pub update_seq_num-IsRaised :
    (t : Ht Lsa) (snder_id n : ℕ)
    → 0 < length t.buckets
    → IsRaised t snder_id n (update_seq_num snder_id n t)
unfolding update_seq_num
update_seq_num-IsRaised t snder_id n roomy = elim (Option-cases (ht_find lsa_ht snder_id t)) [
  | inl new ↦
      let run : update_seq_num snder_id n t ≡ (false, t) = rw (update_seq_num, new) in
      subst (IsRaised t snder_id n) (sym run)
        (ap (is_below n) (sym new), new ∙ ap (Option.map (raised n)) (sym new), λ j ne. refl)
  | inr (l, old) ↦ elim (Bool-cases (ltb l.head.seq_num n)) [
    | inl low ↦
        let f = with_seq_num n in
        let t' = change_at lsa_ht snder_id f t in
        let run : update_seq_num snder_id n t ≡ (true, t') = rw (update_seq_num, old, low) in
        let up : f l ≡ raised n l = rw low in
        subst (IsRaised t snder_id n) (sym run) (
          sym low ∙ ap (is_below n) (sym old),
          ht_find-change_at lsa_ht f (λ k. refl) t roomy snder_id
              ∙ ap (Option.map f) old
              ∙ ap some up
              ∙ ap (Option.map (raised n)) (sym old),
          ht_find_unchanged lsa_ht f (λ k. refl) t roomy snder_id,
        )
    | inr high ↦
        let run : update_seq_num snder_id n t ≡ (false, t) = rw (update_seq_num, old, high) in
        let same : l ≡ raised n l = rw high in
        subst (IsRaised t snder_id n) (sym run) (
          sym high ∙ ap (is_below n) (sym old),
          old ∙ ap some same ∙ ap (Option.map (raised n)) (sym old),
          λ j ne. refl,
        )
  ]
]
