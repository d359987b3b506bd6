-- ===== src/Tests/Lookups.antt =====
-- src/pft.c, src/forward.c and the timeouts of pending packets at concrete inputs.
use dhttp.Base.{
  ℕ, ◌≡◌, refl, arith, true, false, none, some, List, [], ◌∷◌, fault, null_pointer, Returns,
}
use dhttp.Base.Int.{pos}
use dhttp.Darr.{Darr}
use dhttp.Forward.Cheapest.{IsCheapest, exact_from-IsCheapest}
use dhttp.Forward.{Best, exact_from, int_max, uint_max}
use dhttp.Ht.Keys.{cmpstr}
use dhttp.Ht.{Ht}
use dhttp.Lsa.{PendLsa, LsaHeader, Intervals, type_ad}
use dhttp.Pft.Unclaimed.{IsUnclaimed, bare, below, pft_get_obj_list_null}
use dhttp.Pft.{Pft, null, node, fields, get_next_field, find_peer, pft_get_obj_list}
use dhttp.RouteTable.{TableEntry}

abbrev of_seven : Darr
of_seven = record { max_elem = 4; curr_elem = 1; block = 7 ∷ 0 ∷ 0 ∷ 0 ∷ [] }

abbrev no_ids : Darr
no_ids = record { max_elem = 4; curr_elem = 0; block = 0 ∷ 0 ∷ 0 ∷ 0 ∷ [] }

-- "/" and "a"
abbrev root : List ℕ
root = b'/' ∷ []

abbrev leaf : List ℕ
leaf = b'a' ∷ []

abbrev upper : List ℕ
upper = b'a' ∷ b'/' ∷ []

abbrev deeper : List ℕ
deeper = b'b' ∷ []

-- node 7 claims "/", and nobody has "/a" or "/a/b"
abbrev claimed : Pft
claimed = node root (some of_seven) null (node upper none null (node deeper none null null))

three_fields :
    (fields (b'/' ∷ b'a' ∷ b'/' ∷ b'b' ∷ []) ≡ root ∷ upper ∷ deeper ∷ [])
    × (find_peer root claimed
        ≡ some (some of_seven, node upper none null (node deeper none null null)))
    × (find_peer upper (node upper none null (node deeper none null null))
        ≡ some (none, node deeper none null null))
    × (find_peer deeper (node deeper none null null) ≡ some (none, null))
unfolding fields find_peer cmpstr get_next_field
three_fields = (refl, refl, refl, refl)

deeper-IsUnclaimed : IsUnclaimed (fields (b'/' ∷ b'a' ∷ b'/' ∷ b'b' ∷ [])) claimed 1
deeper-IsUnclaimed =
    let (three, at_root, at_leaf, at_deeper) = three_fields in
    rw three (below {n = 0} at_root (omega arith) (below {n = 0} at_leaf tt (bare at_deeper)))

pft_get_obj_list_null_example :
    pft_get_obj_list (λ k. true) (b'/' ∷ b'a' ∷ b'/' ∷ b'b' ∷ []) claimed no_ids
    ≡ fault null_pointer
pft_get_obj_list_null_example =
    pft_get_obj_list_null (λ k. true) (b'/' ∷ b'a' ∷ b'/' ∷ b'b' ∷ []) claimed no_ids 1
      deeper-IsUnclaimed (omega arith) (omega arith) (omega arith)

abbrev two_routes : List TableEntry
two_routes =
    record { dest = 7; next_hop = 7; cost = 1 } ∷ record { dest = 9; next_hop = 7; cost = 2 } ∷ []

abbrev at_first : Best
at_first = record { min_cost = int_max; next_hop = uint_max }

exact_from-IsCheapest_example :
    Returns
      (exact_from two_routes of_seven (9 ∷ 7 ∷ []) 2 0 at_first)
      (IsCheapest two_routes of_seven (9 ∷ 7 ∷ []) 0 2 at_first)
exact_from-IsCheapest_example =
    exact_from-IsCheapest two_routes of_seven (9 ∷ 7 ∷ []) 2 0 2 at_first
      ((omega arith, tt), (tt, tt)) (omega arith) (omega arith) (omega arith)

abbrev intervals : Intervals
intervals = record { lsa_timeout = pos 120; nb_timeout = pos 30; retran_timeout = pos 3 }

abbrev header : LsaHeader
header = record {
  ver = 1;
  ttl = 32;
  type = type_ad;
  snder_id = 7;
  seq_num = 5;
  num_lnk_entr = pos 0;
  num_obj_entr = pos 0;
}

-- a packet to the address 1 with the time that is left
abbrev packet : ℕ → PendLsa ℕ
packet left = record {
  snder_id = 7;
  seq_num = 5;
  addr = 1;
  time_left = pos left;
  is_acked = false;
  type = type_ad;
  head = header;
  links = [];
  objs = [];
}

abbrev waiting : Ht (PendLsa ℕ)
waiting = record { buckets = (packet 1 ∷ packet 9 ∷ []) ∷ []; entr_cnt = 2 }
