-- ===== src/Dijkstra.antt =====
-- src/dijkstra.c, the shortest path search: `dijkstra` and `get_next_hop`.
-- A distance is an `int` that never exceeds INFINITY plus one link; `none` stands for the -1 of
-- `mini`, of PREV_HOP_NO and of NEXT_HOP_NO.
pub mod Walks
mod Plain
mod Select
mod Relax
pub mod Checked
pub mod Round
pub mod Correct
pub mod NextHop
use dhttp.Base.{
  ℕ, zero, suc, ◌+◌, ◌*◌, Bool, true, false, not, ◌&&◌, Option, none, some, List, length, get_elem?,
  get_or, set, replicate, ltb, leb, ◌==◌, if◌then◌else◌, Run, ok, fault, or_fault, out_of_bounds,
  out_of_fuel, ◌>>=◌, for_loop,
}

abbrev pub graphsize : ℕ
graphsize = 2048

abbrev pub infinity : ℕ
infinity = graphsize * graphsize

-- the arrays d, prev and visited
pub record Search : Type 0 where
  pub d : List ℕ
  pub prev : List (Option ℕ)
  pub visited : List Bool

abbrev pub dist : Search → ℕ → ℕ
dist s i = get_or s.d i 0

abbrev pub prev_of : Search → ℕ → Option ℕ
prev_of s i = get_or s.prev i none

abbrev pub is_visited : Search → ℕ → Bool
is_visited s i = get_or s.visited i false

-- row `u`, column `v` of the matrix
abbrev pub weight : List ℕ → ℕ → ℕ → ℕ → ℕ
weight graph n u v = get_or graph (u * n + v) 0

-- an element of an array, and an assignment to one
abbrev pub read : {A : Type 0} → List A → ℕ → Run A
read xs i = or_fault out_of_bounds (get_elem? xs i)

abbrev pub write : {A : Type 0} → List A → ℕ → A → Run (List A)
write xs i x = if ltb i (length xs) then ok (set xs i x) else fault out_of_bounds

-- the first loop, and `d[source] = 0`
pub init : ℕ → ℕ → Run Search
init source n = write (replicate n infinity) source 0 >>= λ d.
    ok (record { d = d; prev = replicate n none; visited = replicate n false })

-- the body of the loop that looks for the next node to visit
pub select_at : Search → ℕ → Option ℕ → Run (Option ℕ)
select_at s i mini = read s.visited i >>= λ seen. if seen then ok mini else elim mini [
  | none ↦ ok (some i)
  | some m ↦ read s.d i >>= λ di. read s.d m >>= λ dm. ok (if ltb di dm then some i else some m)
]

pub select : ℕ → Search → Run (Option ℕ)
unfolding select_at
select n s = for_loop n (λ i r. r >>= select_at s i) (ok none)

module _ (graph : List ℕ) (n : ℕ) where
  -- the body of the loop over the neighbours of `mini`
  pub relax_at : ℕ → ℕ → Search → Run Search
  relax_at mini i s = read graph (mini * n + i) >>= λ w.
      if w == 0
      then ok s
      else (read s.d mini >>= λ dm. read s.d i >>= λ di.
          if ltb (dm + w) di
          then (write s.d i (dm + w) >>= λ d.
              write s.prev i (some mini) >>= λ prev. ok (record s { d = d; prev = prev }))
          else ok s)

  pub relax : ℕ → Search → Run Search
  unfolding relax_at
  relax mini s = for_loop n (λ i r. r >>= relax_at mini i) (ok s)

  -- one round of the outer loop; with no node left it would write visited[-1]
  pub round : Search → Run Search
  unfolding select relax
  round s = select n s >>= elim [
    | none ↦ fault out_of_bounds
    | some mini ↦
        write s.visited mini true >>= λ visited. relax mini (record s { visited = visited })
  ]

  -- `visited` has room for GRAPHSIZE nodes, of which the first loop sets the first `n`; the others
  -- have no value that may be read.
  unfoldable pub dijkstra : ℕ → Run Search
  unfolding init round for_loop
  dijkstra source =
      if leb n graphsize
      then (init source n >>= λ s. for_loop n (λ k r. r >>= round) (ok s))
      else fault out_of_bounds

-- the recursion, on fuel
unfoldable pub get_next_hop : ℕ → ℕ → ℕ → List (Option ℕ) → Run (Option ℕ)
get_next_hop zero src dst prev = fault out_of_fuel
get_next_hop (suc fuel) src dst prev = read prev dst >>= λ before. elim before [
  | none ↦ if src == dst then ok (some src) else ok none
  | some p ↦
      let rest = get_next_hop fuel src p prev in if not (p == src) then rest else ok (some dst)
]
