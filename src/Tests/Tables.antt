-- ===== src/Tests/Tables.antt =====
-- src/darr.c, src/ht.h and src/str_helper.c at concrete inputs.
use Prim.Native.Nat.{Ordering}
use dhttp.Base.{
  ◌≢◌, ℕ, zero, suc, ◌<◌, ◌*◌, ◌/◌, ◌≡◌, refl, arith, true, false, Option, some, [], ◌∷◌, length,
  if◌then◌else◌, ok, fault, out_of_bounds, Returns,
}
use dhttp.Base.Int.{pos}
use dhttp.Config.{NodeInfo, nb_nodes_ht}
use dhttp.Darr.Laws.{add_elem_full}
use dhttp.Darr.{Darr, add_elem, extend_darr}
use dhttp.Ht.Empty.{emptied, emptied-IsValid}
use dhttp.Ht.Keys.{cmp_int, uint_to_idx}
use dhttp.Ht.Laws.{IsValid, stack_of, ht_insert-stack, ht_insert-IsValid, ht_remove-stack}
use dhttp.Ht.{Ht, ht_insert, ht_remove}
use dhttp.Parser.{method_list, getrd_word, method_max_len}
use dhttp.StrHelper.Search.{cmp_at, IsAscending, Matches, str_match-Matches}
use dhttp.StrHelper.{str_match, strncmp}

abbrev full : Darr
full = record { max_elem = 4; curr_elem = 4; block = 5 ∷ 8 ∷ 5 ∷ 9 ∷ [] }

add_elem_full_example :
    (add_elem true full 6 ≡ fault out_of_bounds)
    × (length (extend_darr true full).1.block ≡ 4 / 2)
    × ((extend_darr true full).1.max_elem ≡ 4 * 2)
    × (add_elem false full 6 ≡ ok (false, full))
add_elem_full_example = add_elem_full full 6 refl (omega arith) (omega arith)

abbrev node : NodeInfo
node = record {
  nid = 7;
  rd_port = pos 1;
  local_port = pos 2;
  server_port = pos 3;
  ip = [];
  is_valid = true;
}

ht_insert-stack_example : stack_of nb_nodes_ht (ht_insert nb_nodes_ht node (emptied 3)) 7 ≡ (
    if cmp_int 7 7
    then node ∷ stack_of nb_nodes_ht (emptied 3) 7
    else stack_of nb_nodes_ht (emptied 3) 7)
ht_insert-stack_example =
    ht_insert-stack nb_nodes_ht (emptied 3) (emptied-IsValid nb_nodes_ht 3 (omega arith)) node 7

ht_insert-IsValid_example : IsValid nb_nodes_ht (ht_insert nb_nodes_ht node (emptied 3))
ht_insert-IsValid_example =
    ht_insert-IsValid nb_nodes_ht (emptied 3) (emptied-IsValid nb_nodes_ht 3 (omega arith)) node
      (omega arith)

abbrev held : Ht NodeInfo
held = ht_insert nb_nodes_ht node (emptied 3)

held-IsValid : IsValid nb_nodes_ht held
held-IsValid =
    ht_insert-IsValid nb_nodes_ht (emptied 3) (emptied-IsValid nb_nodes_ht 3 (omega arith)) node
      (omega arith)

held_stack : stack_of nb_nodes_ht held 7 ≡ node ∷ []
unfolding cmp_int uint_to_idx
held_stack =
    ht_insert-stack nb_nodes_ht (emptied 3) (emptied-IsValid nb_nodes_ht 3 (omega arith)) node 7

ht_remove-stack_example : Returns (ht_remove nb_nodes_ht 7 held) λ t'.
    IsValid nb_nodes_ht t'
    × ((j : ℕ)
        → stack_of nb_nodes_ht t' j ≡ (if cmp_int 7 j then [] else stack_of nb_nodes_ht held j))
    × (suc t'.entr_cnt ≡ held.entr_cnt)
    × (length t'.buckets ≡ length held.buckets)
ht_remove-stack_example = ht_remove-stack nb_nodes_ht held held-IsValid 7 node [] held_stack

methods-IsAscending : IsAscending method_list getrd_word method_max_len 2
unfolding strncmp
methods-IsAscending = record { before = early; after = late }
  where
    early :
        (i j : ℕ)
        → i < j
        → j < 2
        → cmp_at method_list getrd_word method_max_len j ≢ Ordering.gt
        → cmp_at method_list getrd_word method_max_len i ≡ Ordering.lt
    early zero (suc j) h k ne = refl
    early zero zero h k ne = absurd (omega arith)
    early (suc i) j h k ne = absurd (omega arith)

    late :
        (i j : ℕ)
        → i < j
        → j < 2
        → cmp_at method_list getrd_word method_max_len i ≢ Ordering.lt
        → cmp_at method_list getrd_word method_max_len j ≡ Ordering.gt
    late zero j h k ne = absurd (ne refl)
    late (suc i) j h k ne = absurd (omega arith)

str_match-Matches_example :
    (o : Option ℕ) × (str_match method_list 2 getrd_word method_max_len ≡ some o)
    × Matches method_list getrd_word method_max_len 2 o
str_match-Matches_example =
    str_match-Matches method_list getrd_word method_max_len 2 methods-IsAscending
