-- ===== src/Dijkstra/Select.antt =====
-- src/dijkstra.c: the scan of `dijkstra` for the unvisited node with the least distance.
use dhttp.Base.{
  ℕ, zero, suc, ◌≤◌, ◌<◌, Bool, true, false, not, ◌&&◌, Option, none, some, List, [], ◌∷◌, ◌≡◌,
  refl, ap, arith, length, get_or, set, if◌then◌else◌, for_loop_inv,
}
use dhttp.Dijkstra.Plain.{closer, nearest}
use dhttp.Dijkstra.{Search, dist, is_visited}

-- what the scan knows after `i` nodes
pub record Scanned (n : ℕ) (s : Search) (i : ℕ) (mini : Option ℕ) : Type 0 where
  pub all_visited : mini ≡ none → (j : ℕ) → j < i → is_visited s j ≡ true
  pub in_range : (m : ℕ) → mini ≡ some m → m < i
  pub fresh : (m : ℕ) → mini ≡ some m → is_visited s m ≡ false
  pub least :
      (m : ℕ) → mini ≡ some m → (j : ℕ) → j < i → is_visited s j ≡ false → dist s m ≤ dist s j

Scanned-next :
    (n : ℕ) (s : Search) (i : ℕ) (mini : Option ℕ)
    → Scanned n s i mini
    → Scanned n s (suc i) (if not (is_visited s i) && closer s i mini then some i else mini)
unfolding closer
Scanned-next n s i none h = record {
  all_visited = λ e j lt. grind (arith, h.all_visited);
  in_range = λ m e. ground arith;
  fresh = λ m e. ground arith;
  least = λ m e j lt fr. grind (arith, h.all_visited);
}
Scanned-next n s i (some k) h = record {
  all_visited = λ e j lt. ground arith;
  in_range = λ m e. ground (arith, h.in_range k refl);
  fresh = λ m e. ground (arith, h.fresh k refl);
  least = λ m e j lt fr. grind (arith, h.least k refl j);
}

pub nearest-Scanned : (n : ℕ) (s : Search) → Scanned n s n (nearest n s)
unfolding nearest
nearest-Scanned n s =
    for_loop_inv (Scanned n s) _ n (λ i mini lt h. Scanned-next n s i mini h) none
      (record {
        all_visited = λ e j lt. absurd (omega arith);
        in_range = λ m e. cc;
        fresh = λ m e. cc;
        least = λ m e j lt. absurd (omega arith);
      })

-- the nodes not visited yet
abbrev pub unvisited : List Bool → ℕ
unvisited [] = 0
unvisited (true ∷ bs) = unvisited bs
unvisited (false ∷ bs) = suc (unvisited bs)

-- a visit leaves one node fewer
pub unvisited-set :
    (flags : List Bool) (mini : ℕ)
    → mini < length flags
    → get_or flags mini false ≡ false
    → suc (unvisited (set flags mini true)) ≡ unvisited flags
unvisited-set (true ∷ flags) (suc mini) inside left = unvisited-set flags mini (omega arith) left
unvisited-set (false ∷ flags) (suc mini) inside left =
    ap suc (unvisited-set flags mini (omega arith) left)
unvisited-set (flag ∷ flags) zero inside left = ground arith
unvisited-set [] mini inside left = absurd (omega arith)

pub unvisited-eq-zero :
    (bs : List Bool) → ((j : ℕ) → j < length bs → get_or bs j false ≡ true) → unvisited bs ≡ 0
unvisited-eq-zero [] h = refl
unvisited-eq-zero (true ∷ bs) h = unvisited-eq-zero bs (λ j lt. h (suc j) (omega arith))
unvisited-eq-zero (false ∷ bs) h = absurd (let e : false ≡ true = h 0 (omega arith) in cc)

pub visited_of_unseen :
    (bs : List Bool) (j : ℕ) → unvisited bs ≡ 0 → j < length bs → get_or bs j false ≡ true
visited_of_unseen [] j e h = absurd (omega arith)
visited_of_unseen (true ∷ bs) zero e h = refl
visited_of_unseen (true ∷ bs) (suc j) e h = visited_of_unseen bs j e (omega arith)
visited_of_unseen (false ∷ bs) j e h = absurd (omega arith)

pub unvisited-replicate-le : (bs : List Bool) → unvisited bs ≤ length bs
unvisited-replicate-le [] = omega arith
unvisited-replicate-le (true ∷ bs) = omega (arith, unvisited-replicate-le bs)
unvisited-replicate-le (false ∷ bs) = omega (arith, unvisited-replicate-le bs)
