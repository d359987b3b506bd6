-- ===== src/Dijkstra/Checked.antt =====
-- src/dijkstra.c: every access of the search is inside its array, where the matrix has a row and a
-- column for each node.
use dhttp.Base.{
  ℕ, zero, suc, ◌+◌, ◌*◌, ◌≤◌, ◌<◌, ◌≡◌, refl, ap, ◌∙◌, arith, false, not, ◌&&◌, Bool-cases, inl,
  inr, Option, none, some, List, length, length-replicate, get_elem?-get_or, get_or, set, replicate,
  ltb, ◌==◌, if◌then◌else◌, ok, ◌>>=◌, for_loop,
}
use dhttp.Dijkstra.Plain.{initial, closer, nearest, relaxed_at, relaxed}
use dhttp.Dijkstra.Relax.{relaxed-Relaxed}
use dhttp.Dijkstra.Select.{nearest-Scanned}
use dhttp.Dijkstra.{
  Search, dist, is_visited, weight, infinity, read, write, init, select_at, select, relax_at, relax,
}
use native.Mathlib.Nat.{mul-le-mul_right}

pub read-get_or :
    {A : Type 0} (xs : List A) (i : ℕ) (x : A) → i < length xs → read xs i ≡ ok (get_or xs i x)
read-get_or xs i x h = rw (get_elem?-get_or xs i x h) refl

pub write-set :
    {A : Type 0} (xs : List A) (i : ℕ) (x : A) → i < length xs → write xs i x ≡ ok (set xs i x)
write-set xs i x h = ground arith

pub init-initial : (source n : ℕ) → source < n → init source n ≡ ok (initial source n)
unfolding init
init-initial source n lt =
    rw (write-set (replicate n infinity) source 0 (omega (arith, length-replicate n infinity))) refl

module _ (n : ℕ) where
  pub row_below : (u row : ℕ) → u < row → u * n + n ≤ row * n
  row_below u row l = omega (arith, mul-le-mul_right {m = suc u} {n = row} n (omega arith))

  pub cell-lt : (row col : ℕ) → row < n → col < n → row * n + col < n * n
  cell-lt row col lr lc = omega (arith, row_below row n lr)

module _ (n : ℕ) (s : Search) (hd : length s.d ≡ n) (hv : length s.visited ≡ n) where
  select_at-closer :
      (i : ℕ) (mini : Option ℕ)
      → i < n
      → ((m : ℕ) → mini ≡ some m → m < n)
      → select_at s i mini ≡ ok (if not (is_visited s i) && closer s i mini then some i else mini)
  unfolding select_at closer
  select_at-closer i none l inside =
      rw (read-get_or s.visited i false (omega arith))
        (elim (Bool-cases (is_visited s i)) [ inl seen ↦ rw seen refl | inr new ↦ rw new refl ])
  select_at-closer i (some m) l inside =
      let lm = inside m refl in
      rw
        (
          read-get_or s.visited i false (omega arith),
          read-get_or s.d i 0 (omega arith),
          read-get_or s.d m 0 (omega arith),
        )
        (elim (Bool-cases (is_visited s i)) [ inl seen ↦ rw seen refl | inr new ↦ rw new refl ])

  select_to-nearest :
      (k : ℕ) → k ≤ n → for_loop k (λ i r. r >>= select_at s i) (ok none) ≡ ok (nearest k s)
  unfolding nearest for_loop
  select_to-nearest zero le = refl
  select_to-nearest (suc k) le =
      ap (λ r. r >>= select_at s k) (select_to-nearest k (omega arith))
      ∙ select_at-closer k (nearest k s) (omega arith)
          (λ m e. let lt = (nearest-Scanned k s).in_range m e in omega arith)

  pub select-nearest : select n s ≡ ok (nearest n s)
  unfolding select
  select-nearest = select_to-nearest n (omega arith)

module _ (graph : List ℕ) (n mini : ℕ) (room : n * n ≤ length graph) (lm : mini < n) where
  relax_at-relaxed_at :
      (i : ℕ) (s : Search)
      → i < n
      → length s.d ≡ n
      → length s.prev ≡ n
      → relax_at graph n mini i s ≡ ok (relaxed_at graph n mini i s)
  unfolding relax_at relaxed_at
  relax_at-relaxed_at i s l hd hp =
      let cell = read-get_or graph (mini * n + i) 0 (omega (arith, cell-lt n mini i lm l)) in
      let at_mini = read-get_or s.d mini 0 (omega arith) in
      let at_i = read-get_or s.d i 0 (omega arith) in
      let w = weight graph n mini i in
      let put_d = write-set s.d i (dist s mini + w) (omega arith) in
      let put_prev = write-set s.prev i (some mini) (omega arith) in
      rw (cell, at_mini, at_i, put_d, put_prev)
        (elim (Bool-cases (w == 0)) [
          | inl no_link ↦ rw no_link refl
          | inr link ↦ elim (Bool-cases (ltb (dist s mini + w) (dist s i))) [
            | inl less ↦ rw (link, less) refl
            | inr more ↦ rw (link, more) refl
          ]
        ])

  module _ (s : Search) (hd : length s.d ≡ n) (hp : length s.prev ≡ n) where
    relax_to-relaxed :
        (k : ℕ)
        → k ≤ n
        → for_loop k (λ i r. r >>= relax_at graph n mini i) (ok s) ≡ ok (relaxed graph n mini k s)
    unfolding relaxed for_loop
    relax_to-relaxed zero le = refl
    relax_to-relaxed (suc k) le =
        let sofar = relaxed-Relaxed graph n s mini k hd hp (omega arith) in
        ap (λ r. r >>= relax_at graph n mini k) (relax_to-relaxed k (omega arith))
        ∙ relax_at-relaxed_at k (relaxed graph n mini k s) (omega arith) (sofar.size_d ∙ hd)
            (sofar.size_prev ∙ hp)

    pub relax-relaxed : relax graph n mini s ≡ ok (relaxed graph n mini n s)
    unfolding relax
    relax-relaxed = relax_to-relaxed n (omega arith)
