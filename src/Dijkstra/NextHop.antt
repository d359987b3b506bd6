-- ===== src/Dijkstra/NextHop.antt =====
-- src/dijkstra.c: `get_next_hop` follows `prev` back to the source.
use dhttp.Base.{
  ℕ, zero, suc, ◌+◌, ◌*◌, length, ok, ◌≤◌, ◌<◌, Option, none, some, List, ◌≡◌, ◌≢◌, refl, ◌⊎◌, inl,
  inr, arith, Bool-cases, Option-cases, ==_iff, ◌==◌, Returns,
}
use dhttp.Dijkstra.Checked.{read-get_or}
use dhttp.Dijkstra.Walks.{Walk, here, step}
use dhttp.Dijkstra.Round.{IsParent, Inv}
use dhttp.Dijkstra.Correct.{Inv-dijkstra}
use dhttp.Dijkstra.{Search, dist, prev_of, graphsize, infinity, weight, dijkstra, get_next_hop}

-- `u` is a neighbour of the source, and a cheapest walk to `v` begins with the link to `u`
pub record IsVia (graph : List ℕ) (n source : ℕ) (s : Search) (v u : ℕ) : Type 0 where
  pub in_range : u < n
  pub linked : 0 < weight graph n source u
  pub rest : ℕ
  pub walk : Walk graph n u v rest
  pub total : weight graph n source u + rest ≡ dist s v

-- what the result says of the node `v`: `none` is NEXT_HOP_NO
abbrev pub IsNextHop : List ℕ → ℕ → ℕ → Search → ℕ → Option ℕ → Type 0
IsNextHop graph n source s v none = (v ≢ source) × (dist s v ≡ infinity)
IsNextHop graph n source s v (some u) =
    (v ≡ source) × (u ≡ source) ⊎ (v ≢ source) × IsVia graph n source s v u

module _ (graph : List ℕ) (n source : ℕ) (s : Search) (h : Inv graph n source n s) where
  -- one more link at the end
  IsVia-step :
      (v p : ℕ) (o : Option ℕ)
      → v < n
      → p ≢ source
      → IsParent graph n s v p
      → IsNextHop graph n source s p o
      → IsNextHop graph n source s v o
  IsVia-step v p none l ne parent (other, far) =
      absurd (omega (arith, parent.cost, parent.linked, h.bounded v l))
  IsVia-step v p (some u) l ne parent (inl (same, _)) = absurd (ne same)
  IsVia-step v p (some u) l ne parent (inr (_, via)) = inr (
    λ e.
        let at_v : dist s v ≡ 0 = rw e h.at_source in
        absurd (omega (arith, parent.cost, parent.linked)),
    record {
      in_range = via.in_range;
      linked = via.linked;
      rest = via.rest + weight graph n p v;
      walk = step via.walk l parent.linked refl;
      total = omega (arith, via.total, parent.cost);
    },
  )

  -- The parent lies nearer to the source, so the distance is enough fuel.
  pub get_next_hop_ends :
      (fuel v : ℕ)
      → v < n
      → dist s v < fuel
      → (o : Option ℕ) × (get_next_hop fuel source v s.prev ≡ ok o) × IsNextHop graph n source s v o
  unfolding get_next_hop
  get_next_hop_ends zero v l d = absurd (omega arith)
  get_next_hop_ends (suc fuel) v l d =
      let at_v = read-get_or s.prev v none (omega (arith, h.size_prev)) in
      elim (Option-cases (prev_of s v)) [
        | inl e ↦ elim (Bool-cases (source == v)) [
          | inl same ↦ (some source, rw (at_v, e, get_next_hop, same), inl (ground arith, refl))
          | inr other ↦ (
            none,
            rw (at_v, e, get_next_hop, other),
            (ground arith, ground (arith, h.orphans v l e)),
          )
        ]
        | inr (p, e) ↦
            let parent = h.parents v p l e in
            elim (Bool-cases (p == source)) [
              | inl same ↦
                  let p_is : p ≡ source = (==_iff p source).0 same in
                  let linked : 0 < weight graph n source v = rw p_is at parent.linked in
                  let at_p : dist s p ≡ 0 = rw p_is h.at_source in
                  let cost : dist s v ≡ weight graph n source v =
                    omega (arith, rw p_is at parent.cost, h.at_source) in
                  (
                    some v,
                    rw (at_v, e, get_next_hop, same),
                    inr (
                      λ eq. let at_v : dist s v ≡ 0 = rw eq h.at_source in absurd (omega arith),
                      record {
                        in_range = l;
                        linked = linked;
                        rest = 0;
                        walk = here refl refl;
                        total = omega arith;
                      },
                    ),
                  )
              | inr other ↦
                  let (o, run, hop) =
                    get_next_hop_ends fuel p parent.in_range
                      (omega (arith, parent.cost, parent.linked)) in
                  (
                    o,
                    rw (at_v, e, get_next_hop, other) run,
                    IsVia-step v p o l (ground arith) parent hop,
                  )
            ]
      ]

-- After the search, with a matrix that has a row and a column for each node, the walk back along
-- prev[] ends, with no access out of the array and within a number of steps that is at most the
-- distance, and its result is right: the source itself for the source, NEXT_HOP_NO for a node at
-- distance INFINITY, and else a neighbour of the source with which a cheapest walk to the node
-- begins.
pub get_next_hop-IsNextHop :
    (graph : List ℕ) (n source : ℕ)
    → n * n ≤ length graph
    → source < n
    → n ≤ graphsize
    → Returns (dijkstra graph n source) λ s.
      (v fuel : ℕ)
      → v < n
      → dist s v < fuel
      → (o : Option ℕ) × (get_next_hop fuel source v s.prev ≡ ok o) × IsNextHop graph n source s v o
get_next_hop-IsNextHop graph n source room lt small =
    let (s, e, h) = Inv-dijkstra graph n source lt room small in
    (s, e, λ v fuel. get_next_hop_ends graph n source s h fuel v)
