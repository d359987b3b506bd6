-- ===== src/Dijkstra/Round.antt =====
-- src/dijkstra.c: one round of `dijkstra` keeps the invariant of the search.
use dhttp.Base.{
  ℕ, suc, ◌+◌, ◌*◌, ◌≤◌, ◌<◌, true, false, none, some, List, ◌≡◌, ap, ok, ◌∙◌, arith, ◌⊎◌,
  Bool-cases, Option-cases, inl, inr, length, length-set, set, get_or-set, ◌==◌, if◌then◌else◌,
  Returns,
}
use dhttp.Dijkstra.Walks.{Walk, step}
use dhttp.Dijkstra.Checked.{write-set, select-nearest, relax-relaxed}
use dhttp.Dijkstra.Plain.{nearest, relaxed}
use dhttp.Dijkstra.Select.{nearest-Scanned, unvisited, unvisited-set, unvisited-eq-zero}
use dhttp.Dijkstra.Relax.{better, Relaxed, relaxed-Relaxed}
use dhttp.Dijkstra.{Search, dist, prev_of, is_visited, infinity, weight, round}

module _ (graph : List ℕ) (n : ℕ) where
  -- `p` is the node before `v` on the way that was found
  pub record IsParent (s : Search) (v p : ℕ) : Type 0 where
    pub in_range : p < n
    pub visited : is_visited s p ≡ true
    pub linked : 0 < weight graph n p v
    pub cost : dist s v ≡ dist s p + weight graph n p v

  -- what holds after `k` rounds
  pub record Inv (source k : ℕ) (s : Search) : Type 0 where
    pub size_d : length s.d ≡ n
    pub size_prev : length s.prev ≡ n
    pub size_visited : length s.visited ≡ n
    pub count : unvisited s.visited + k ≡ n
    pub bounded : (v : ℕ) → v < n → dist s v ≤ infinity
    pub at_source : dist s source ≡ 0
    pub reached : (v : ℕ) → v < n → dist s v < infinity → Walk graph n source v (dist s v)
    pub closed :
        (u v : ℕ)
        → u < n
        → v < n
        → is_visited s u ≡ true
        → 0 < weight graph n u v
        → dist s v ≤ dist s u + weight graph n u v
    pub ordered :
        (u v : ℕ)
        → u < n
        → v < n
        → is_visited s u ≡ true
        → is_visited s v ≡ false
        → dist s u ≤ dist s v
    pub parents : (v p : ℕ) → v < n → prev_of s v ≡ some p → IsParent s v p
    pub orphans : (v : ℕ) → v < n → prev_of s v ≡ none → (v ≡ source) ⊎ (dist s v ≡ infinity)

  -- `m` is the node that the round visits, and `t` what the round leaves
  module _ (source k : ℕ) (s : Search) (m : ℕ) (t : Search) (h : Inv source k s) (src : source < n)
      (lt : m < n) (fresh : is_visited s m ≡ false)
      (least : (j : ℕ) → j < n → is_visited s j ≡ false → dist s m ≤ dist s j)
      (r : Relaxed graph n (record s { visited = set s.visited m true }) m n t) where
    dist-t :
        (v : ℕ)
        → v < n
        → dist t v ≡ (if better graph n s m v then dist s m + weight graph n m v else dist s v)
    dist-t v l = ground (arith, r.dist_is v)

    prev-t : (v : ℕ) → v < n → prev_of t v ≡ (if better graph n s m v then some m else prev_of s v)
    prev-t v l = ground (arith, r.prev_is v)

    visited-t : (v : ℕ) → is_visited t v ≡ (if m == v then true else is_visited s v)
    visited-t v =
        rw r.same_visited (get_or-set s.visited m v true false (omega (arith, h.size_visited)))

    dist_le : (v : ℕ) → v < n → dist t v ≤ dist s v
    dist_le v l = ground (arith, dist-t v l)

    -- a node that is visited keeps its distance
    kept : (v : ℕ) → v < n → is_visited t v ≡ true → dist t v ≡ dist s v
    kept v l e = ground (arith, dist-t v l, visited-t v, h.ordered v m l lt)

    reached-t : (v : ℕ) → v < n → dist t v < infinity → Walk graph n source v (dist t v)
    reached-t v l d = elim (Bool-cases (better graph n s m v)) [
      | inl e ↦
          let way = h.reached m lt (ground (arith, h.bounded v l, dist-t v l)) in
          step way l (ground arith) (ground (arith, dist-t v l))
      | inr e ↦
          let same : dist t v ≡ dist s v = ground (arith, dist-t v l) in
          rw same (h.reached v l (omega arith))
    ]

    closed-t :
        (u v : ℕ)
        → u < n
        → v < n
        → is_visited t u ≡ true
        → 0 < weight graph n u v
        → dist t v ≤ dist t u + weight graph n u v
    closed-t u v lu lv e w = elim (Bool-cases (m == u)) [
      | inl same ↦ ground (arith, kept u lu e, dist-t v lv)
      | inr other ↦ ground (arith, kept u lu e, visited-t u, dist_le v lv, h.closed u v lu lv)
    ]

    ordered-t :
        (u v : ℕ)
        → u < n
        → v < n
        → is_visited t u ≡ true
        → is_visited t v ≡ false
        → dist t u ≤ dist t v
    ordered-t u v lu lv e f =
        ground (
          arith,
          kept u lu e,
          visited-t u,
          visited-t v,
          dist-t v lv,
          least v lv,
          h.ordered u m lu lt,
        )

    parents-t : (v p : ℕ) → v < n → prev_of t v ≡ some p → IsParent t v p
    parents-t v p l e = elim (Bool-cases (better graph n s m v)) [
      | inl b ↦
          let same : m ≡ p = ground (arith, prev-t v l) in
          rw (← same) (record {
            in_range = lt;
            visited = ground (arith, visited-t m);
            linked = ground arith;
            cost = ground (arith, dist-t v l, kept m lt, visited-t m);
          })
      | inr b ↦
          let old = h.parents v p l (ground (arith, prev-t v l)) in
          let seen : is_visited t p ≡ true = ground (arith, visited-t p, old.visited) in
          record {
            in_range = old.in_range;
            visited = seen;
            linked = old.linked;
            cost = ground (arith, dist-t v l, kept p old.in_range seen, old.cost);
          }
    ]

    orphans-t : (v : ℕ) → v < n → prev_of t v ≡ none → (v ≡ source) ⊎ (dist t v ≡ infinity)
    orphans-t v l e = ground (arith, prev-t v l, dist-t v l, h.orphans v l)

    round_step-Inv : Inv source (suc k) t
    round_step-Inv = record {
      size_d = r.size_d ∙ h.size_d;
      size_prev = r.size_prev ∙ h.size_prev;
      size_visited = rw r.same_visited (length-set s.visited m true ∙ h.size_visited);
      count =
          rw r.same_visited (
            omega
              (arith, h.count, unvisited-set s.visited m (omega (arith, h.size_visited)) fresh));
      bounded = λ v l. omega (arith, dist_le v l, h.bounded v l);
      at_source = omega (arith, dist_le source src, h.at_source);
      reached = reached-t;
      closed = closed-t;
      ordered = ordered-t;
      parents = parents-t;
      orphans = orphans-t;
    }

  -- While nodes are left a round finds one, so it does not write visited[-1].
  pub round-Inv :
      (source k : ℕ) (s : Search)
      → n * n ≤ length graph
      → source < n
      → k < n
      → Inv source k s
      → Returns (round graph n s) (Inv source (suc k))
  unfolding round
  round-Inv source k s room src l h =
      let found = nearest-Scanned n s in
      let chosen = select-nearest n s h.size_d h.size_visited in
      elim (Option-cases (nearest n s)) [
        | inl e ↦ absurd (
            omega (
              arith,
              h.count,
              unvisited-eq-zero s.visited
                  (λ j lj. found.all_visited e j (omega (arith, h.size_visited))),
            ))
        | inr (m, e) ↦
            let s' = record s { visited = set s.visited m true } in
            let lm = found.in_range m e in
            let marked = write-set s.visited m true (omega (arith, h.size_visited)) in
            (
              relaxed graph n m n s',
              rw (chosen ∙ ap ok e, round, marked)
                  (relax-relaxed graph n m room lm s' h.size_d h.size_prev),
              round_step-Inv source k s m _ h src lm (found.fresh m e) (found.least m e)
                  (relaxed-Relaxed graph n s' m n h.size_d h.size_prev (omega arith)),
            )
      ]
