-- ===== src/Dijkstra/Correct.antt =====
-- src/dijkstra.c: `dijkstra` finds the least cost of a walk from the source to every node.
use dhttp.Base.{
  ℕ, zero, suc, ◌*◌, leb, length, ◌≤◌, ◌<◌, true, false, Option, none, some, List, ◌≡◌, refl, ap,
  ◌∙◌, arith, length-set, length-replicate, get_or-set, get_or-replicate, replicate, ◌==◌,
  if◌then◌else◌, ok, Returns, ◌>>=◌, for_loop_inv,
}
use dhttp.Dijkstra.Checked.{init-initial}
use dhttp.Dijkstra.Plain.{initial}
use dhttp.Dijkstra.Walks.{Walk, here, step}
use dhttp.Dijkstra.Select.{unvisited, visited_of_unseen}
use dhttp.Dijkstra.Round.{Inv, round-Inv}
use dhttp.Dijkstra.{Search, dist, is_visited, graphsize, infinity, round, dijkstra}

unvisited-replicate : (n : ℕ) → unvisited (replicate n false) ≡ n
unvisited-replicate zero = refl
unvisited-replicate (suc n) = ap suc (unvisited-replicate n)

-- `d` gives the costs of the cheapest walks: INFINITY where there is no walk below it
pub record IsShortest (graph : List ℕ) (n source : ℕ) (s : Search) (v : ℕ) : Type 0 where
  pub bounded : dist s v ≤ infinity
  pub reached : dist s v < infinity → Walk graph n source v (dist s v)
  pub least : (c : ℕ) → Walk graph n source v c → dist s v ≤ c

module _ (graph : List ℕ) (n source : ℕ) (lt : source < n) where
  dist-initial : (v : ℕ) → v < n → dist (initial source n) v ≡ (if source == v then 0 else infinity)
  dist-initial v l =
      get_or-set (replicate n infinity) source v 0 0 (rw (length-replicate n infinity) lt)
      ∙ rw (get_or-replicate n v infinity 0 l)

  Inv-initial : Inv graph n source 0 (initial source n)
  Inv-initial = record {
    size_d = length-set (replicate n infinity) source 0 ∙ length-replicate n infinity;
    size_prev = length-replicate n none;
    size_visited = length-replicate n false;
    count = omega (arith, unvisited-replicate n);
    bounded = λ v l. ground (arith, dist-initial v l);
    at_source = ground (arith, dist-initial source lt);
    reached = λ v l d. here (ground (arith, dist-initial v l)) (ground (arith, dist-initial v l));
    closed = λ u v lu lv e w.
        absurd (let f : false ≡ true = rw (get_or-replicate n u false false lu) at e in cc);
    ordered = λ u v lu lv e f.
        absurd (let g : false ≡ true = rw (get_or-replicate n u false false lu) at e in cc);
    parents = λ v p l e.
        absurd
          (let g : none ≡ some p = rw (get_or-replicate {A = Option ℕ} n v none none l) at e in cc);
    orphans = λ v l e. ground (arith, dist-initial v l);
  }

  pub Inv-dijkstra :
      n * n ≤ length graph
      → n ≤ graphsize
      → Returns (dijkstra graph n source) (Inv graph n source n)
  unfolding dijkstra
  Inv-dijkstra room small =
      let loop =
        for_loop_inv (λ k r. Returns r (Inv graph n source k)) (λ k r. r >>= round graph n) n
          (λ k r l (s, e, h). rw e (round-Inv graph n source k s room lt l h))
          (ok (initial source n)) (initial source n, refl, Inv-initial) in
      let begun = init-initial source n lt in
      let fits : leb n graphsize ≡ true = ground arith in (loop.0, rw (fits, begun) loop.1, loop.2)

  -- with every node visited no link is left that would improve a distance
  pub Inv-IsShortest :
      (s : Search) → Inv graph n source n s → (v : ℕ) → v < n → IsShortest graph n source s v
  Inv-IsShortest s h v l = record {
    bounded = h.bounded v l;
    reached = h.reached v l;
    least = λ c w. at_most w;
  }
    where
      all_visited : (u : ℕ) → u < n → is_visited s u ≡ true
      all_visited u lu =
          visited_of_unseen s.visited u (omega (arith, h.count)) (omega (arith, h.size_visited))

      end_lt : {u c : ℕ} → Walk graph n source u c → u < n
      end_lt (here e f) = omega arith
      end_lt (step w lu p e) = lu

      at_most : {u c : ℕ} → Walk graph n source u c → dist s u ≤ c
      at_most (here {v = u} e f) = rw e (omega (arith, h.at_source))
      at_most (step {u = u} {v = u'} w lu p e) =
          omega (arith, at_most w, h.closed u u' (end_lt w) lu (all_visited u (end_lt w)) p)

-- For a source among at most GRAPHSIZE nodes, and a matrix with a row and a column for each of them,
-- the search returns: every read and write of graph, d, prev and visited is inside its array. Then
-- d[v] is, for every node v, the least cost of a walk from the source to v, or INFINITY where no
-- walk is cheaper than that.
pub dijkstra-IsShortest :
    (graph : List ℕ) (n source : ℕ)
    → n * n ≤ length graph
    → source < n
    → n ≤ graphsize
    → Returns (dijkstra graph n source) λ s. (v : ℕ) → v < n → IsShortest graph n source s v
dijkstra-IsShortest graph n source room lt small =
    let (s, e, h) = Inv-dijkstra graph n source lt room small in
    (s, e, Inv-IsShortest graph n source lt s h)
