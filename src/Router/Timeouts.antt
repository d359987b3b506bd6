-- ===== src/Router/Timeouts.antt =====
-- src/sel_timeout.c: the ageing of announcements while none runs out.
use dhttp.Base.{
  ℕ, ◌≡◌, refl, false, not, ◌||◌, Bool-cases, inl, inr, List, [], ◌∷◌, ◌==◌, if◌then◌else◌, ok,
  ◌>>=◌,
}
use dhttp.Base.Int.{minus, is_negative}
use dhttp.Lsa.{Lsa}
use dhttp.Router.{Daemon, Setting, Flags, age_chain, age_chains, preprocess_timeout}

-- invalid announcements and the local one do not age
abbrev pub aged_lsa : ℕ → ℕ → Lsa → Lsa
aged_lsa g_nid elapsed l =
    if not l.is_valid || l.head.snder_id == g_nid
    then l
    else record l { time_left = minus l.time_left elapsed }

abbrev pub aged_chain : ℕ → ℕ → List Lsa → List Lsa
aged_chain g_nid elapsed [] = []
aged_chain g_nid elapsed (l ∷ c) = aged_lsa g_nid elapsed l ∷ aged_chain g_nid elapsed c

abbrev pub aged_chains : ℕ → ℕ → List (List Lsa) → List (List Lsa)
aged_chains g_nid elapsed [] = []
aged_chains g_nid elapsed (c ∷ cs) = aged_chain g_nid elapsed c ∷ aged_chains g_nid elapsed cs

-- the time of every announcement that ages lasts
abbrev pub Lasts : ℕ → ℕ → List Lsa → Type 0
Lasts g_nid elapsed [] = Unit {0}
Lasts g_nid elapsed (l ∷ c) =
    ((not l.is_valid || l.head.snder_id == g_nid) ≡ false
      → is_negative (minus l.time_left elapsed) ≡ false)
    × Lasts g_nid elapsed c

abbrev pub AllLast : ℕ → ℕ → List (List Lsa) → Type 0
AllLast g_nid elapsed [] = Unit {0}
AllLast g_nid elapsed (c ∷ cs) = Lasts g_nid elapsed c × AllLast g_nid elapsed cs

module _ {A : Type 0} (g : Setting A) (elapsed : ℕ) where
  age_chain-aged_chain :
      (c : List Lsa) (s : Daemon A × Flags)
      → Lasts g.g_nid elapsed c
      → age_chain g elapsed c s ≡ ok (aged_chain g.g_nid elapsed c, s)
  unfolding age_chain
  age_chain-aged_chain [] s h = refl
  age_chain-aged_chain (l ∷ c) s (h, hs) =
      elim (Bool-cases (not l.is_valid || l.head.snder_id == g.g_nid)) [
        | inl still ↦ rw (still, age_chain-aged_chain c s hs)
        | inr ages ↦ rw (ages, h ages, age_chain-aged_chain c s hs)
      ]

  age_chains-aged_chains :
      (cs : List (List Lsa)) (s : Daemon A × Flags)
      → AllLast g.g_nid elapsed cs
      → age_chains g elapsed cs s ≡ ok (aged_chains g.g_nid elapsed cs, s)
  unfolding age_chains
  age_chains-aged_chains [] s h = refl
  age_chains-aged_chains (c ∷ cs) s (h, hs) =
      rw (age_chain-aged_chain c s h, ◌>>=◌, age_chains-aged_chains cs s hs)

  -- While the time of every valid announcement of another node lasts, a round ends with neither
  -- flag set, and changes nothing but the times that are left.
  pub preprocess_timeout-aged_chains :
      (s : Daemon A)
      → AllLast g.g_nid elapsed s.lsas.buckets
      → preprocess_timeout g elapsed s
        ≡ ok (
          record s {
            lsas = record (s.lsas) { buckets = aged_chains g.g_nid elapsed s.lsas.buckets };
            adv_timeout = minus s.adv_timeout elapsed;
          },
          (false, false),
        )
  unfolding preprocess_timeout
  preprocess_timeout-aged_chains s h = rw (
    age_chains-aged_chains s.lsas.buckets
        (record s { adv_timeout = minus s.adv_timeout elapsed }, (false, false)) h,
    ◌>>=◌,
  )
