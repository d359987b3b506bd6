-- ===== src/Dijkstra/Relax.antt =====
-- src/dijkstra.c: what the loop over the neighbours of the chosen node does to each array.
use dhttp.Base.{
  ℕ, suc, ◌+◌, ◌≤◌, ◌<◌, Bool, not, ◌&&◌, none, some, List, ◌≡◌, refl, ◌∙◌, arith, Bool-cases, inl,
  inr, length, length-set, set, get_or-set, ltb, ◌==◌, if◌then◌else◌, for_loop_inv,
}
use dhttp.Dijkstra.Plain.{relaxed_at, relaxed}
use dhttp.Dijkstra.{Search, dist, prev_of, weight}

module _ (graph : List ℕ) (n : ℕ) where
  -- the way to `i` over `mini` is a way, and shorter
  abbrev pub better : Search → ℕ → ℕ → Bool
  better s mini i =
      not (weight graph n mini i == 0) && ltb (dist s mini + weight graph n mini i) (dist s i)

  -- what the loop has made of `s` after `i` columns
  pub record Relaxed (s : Search) (mini : ℕ) (i : ℕ) (t : Search) : Type 0 where
    pub size_d : length t.d ≡ length s.d
    pub size_prev : length t.prev ≡ length s.prev
    pub same_visited : t.visited ≡ s.visited
    pub dist_is :
        (j : ℕ)
        → dist t j
          ≡ (if ltb j i && better s mini j then dist s mini + weight graph n mini j else dist s j)
    pub prev_is :
        (j : ℕ) → prev_of t j ≡ (if ltb j i && better s mini j then some mini else prev_of s j)

  -- the two nested tests of the body are one
  relaxed_at_lem :
      (mini i : ℕ) (t : Search)
      → relaxed_at graph n mini i t ≡ (
          if better t mini i
          then record t {
            d = set t.d i (dist t mini + weight graph n mini i);
            prev = set t.prev i (some mini);
          }
          else t)
  unfolding relaxed_at
  relaxed_at_lem mini i t = ground arith

  module _ (s : Search) (mini i : ℕ) (t : Search) where
    written : Search
    written = record t {
      d = set t.d i (dist s mini + weight graph n mini i);
      prev = set t.prev i (some mini);
    }

    -- Neither the chosen node's own distance nor the one about to be tested has changed.
    relaxed_at-choice :
        Relaxed s mini i t → relaxed_at graph n mini i t ≡ (if better s mini i then written else t)
    unfolding written
    relaxed_at-choice h =
        let at_mini : dist t mini ≡ dist s mini = ground (arith, h.dist_is mini) in
        let at_i : dist t i ≡ dist s i = ground (arith, h.dist_is i) in
        rw (relaxed_at_lem, at_mini, at_i)

    relaxed_at-Relaxed :
        i < length s.d
        → i < length s.prev
        → Relaxed s mini i t
        → Relaxed s mini (suc i) (relaxed_at graph n mini i t)
    unfolding written
    relaxed_at-Relaxed hd hp h = rw (relaxed_at-choice h) (elim (Bool-cases (better s mini i)) [
      | inl e ↦
          let v = dist s mini + weight graph n mini i in
          rw e (record {
            size_d = length-set t.d i v ∙ h.size_d;
            size_prev = length-set t.prev i (some mini) ∙ h.size_prev;
            same_visited = h.same_visited;
            dist_is = λ j. ground (arith, e, h.dist_is j, get_or-set t.d i j v 0, h.size_d);
            prev_is = λ j.
                ground (arith, e, h.prev_is j, get_or-set t.prev i j (some mini) none, h.size_prev);
          })
      | inr e ↦ rw e (record {
        size_d = h.size_d;
        size_prev = h.size_prev;
        same_visited = h.same_visited;
        dist_is = λ j. ground (arith, e, h.dist_is j);
        prev_is = λ j. ground (arith, e, h.prev_is j);
      })
    ])

  pub relaxed-Relaxed :
      (s : Search) (mini k : ℕ)
      → length s.d ≡ n
      → length s.prev ≡ n
      → k ≤ n
      → Relaxed s mini k (relaxed graph n mini k s)
  unfolding relaxed
  relaxed-Relaxed s mini k hd hp le =
      for_loop_inv (Relaxed s mini) _ k
        (λ i t lt. relaxed_at-Relaxed s mini i t (omega arith) (omega arith)) s
        (record {
          size_d = refl;
          size_prev = refl;
          same_visited = refl;
          dist_is = λ j. ground arith;
          prev_is = λ j. ground arith;
        })
