-- ===== src/Forward.antt =====
-- src/forward.c: the lookup of an object: its nodes from the prefix tree, the cheapest of them by the
-- routing table, and the neighbour on the way.
pub mod Cheapest
use dhttp.Base.{
  ℕ, zero, suc, ◌+◌, ◌-◌, ◌^◌, Bool, true, false, Option, none, some, List, [], ◌∷◌, length, ltb,
  ◌==◌, if◌then◌else◌, Run, ok, fault, assertion_failed, ◌>>=◌,
}
use dhttp.Base.Int.{ℤ, pos, negsuc}
use dhttp.Config.{NodeInfo, FileEntry, nb_nodes_ht, lfile_ht}
use dhttp.Darr.{Darr, load, get_elem_idx}
use dhttp.Ht.{Ht, ht_find}
use dhttp.Pft.{Pft, Found, pft_get_obj_list}
use dhttp.RouteTable.{TableEntry, find_route_entry}

-- the results that the caller's buffers get
pub record Location : Type 0 where
  pub ip : List ℕ
  pub server_port : ℤ
  pub remote_lc_port : ℤ
  pub local_file_path : Option (List ℕ)

-- "localhost"
abbrev pub localhost : List ℕ
localhost = b'l' ∷ b'o' ∷ b'c' ∷ b'a' ∷ b'l' ∷ b'h' ∷ b'o' ∷ b's' ∷ b't' ∷ []

-- `none` is -1
unfoldable pub lookup_lc_file : Ht FileEntry → ℤ → List ℕ → Option Location
lookup_lc_file files g_server_port name = elim (ht_find lfile_ht name files) [
  | none ↦ none
  | some p ↦ some (record {
    ip = localhost;
    server_port = g_server_port;
    remote_lc_port = negsuc 0;
    local_file_path = some p.file_path;
  })
]

-- min_cost and next_hop, which begin as INT_MAX and UINT_MAX
pub record Best : Type 0 where
  pub min_cost : ℕ
  pub next_hop : ℕ

abbrev pub int_max : ℕ
int_max = 2 ^ 31 - 1

abbrev pub uint_max : ℕ
uint_max = 2 ^ 32 - 1

-- one round of either loop: the node's route, if it costs less
unfoldable pub cheaper : List TableEntry → ℕ → Best → Run Best
cheaper table nid b = find_route_entry table nid >>= elim [
  | none ↦ ok b
  | some e ↦
      if ltb e.cost b.min_cost
      then ok (record { min_cost = e.cost; next_hop = e.next_hop })
      else ok b
]

-- the nodes with the object, but those that claim a prefix of it
unfoldable pub exact_from : List TableEntry → Darr → List ℕ → ℕ → ℕ → Best → Run Best
exact_from table all_pre arr zero i b = ok b
exact_from table all_pre arr (suc rounds) i b = load arr i >>= λ nid.
    get_elem_idx all_pre nid >>= elim [
      | some k ↦ exact_from table all_pre arr rounds (i + 1) b
      | none ↦ cheaper table nid b >>= λ b'. exact_from table all_pre arr rounds (i + 1) b'
    ]

-- the nodes that claim the longest prefix
unfoldable pub prefix_from : List TableEntry → List ℕ → ℕ → ℕ → Best → Run Best
prefix_from table arr zero i b = ok b
prefix_from table arr (suc rounds) i b =
    load arr i >>= λ nid. cheaper table nid b >>= λ b'. prefix_from table arr rounds (i + 1) b'

-- the second loop runs only if the first found no route
unfoldable pub choose : List TableEntry → Darr → Found → Run Best
choose table darr s =
    exact_from table s.al_pre darr.block darr.curr_elem 0
      (record { min_cost = int_max; next_hop = uint_max })
    >>= λ b.
        if b.next_hop == uint_max
        then elim s.last_pre [ none ↦ ok b | some d ↦ prefix_from table d.block d.curr_elem 0 b ]
        else ok b

-- the neighbour on the way, or the node itself
unfoldable pub locate : ℕ → ℤ → Ht NodeInfo → Ht FileEntry → List ℕ → ℕ → Option Location
locate g_nid g_server_port nodes files name next_hop =
    if next_hop == uint_max then none else elim (ht_find nb_nodes_ht next_hop nodes) [
      | none ↦ none
      | some n ↦
          if n.nid == g_nid
          then lookup_lc_file files g_server_port name
          else some (record {
            ip = n.ip;
            server_port = n.server_port;
            remote_lc_port = n.local_port;
            local_file_path = none;
          })
    ]

-- with the static array of `pft_get_obj_list` before; `none` is -1
unfoldable pub lookup_file :
    (ℕ → Bool)
    → ℕ
    → ℤ
    → Ht NodeInfo
    → Ht FileEntry
    → List TableEntry
    → Pft
    → Darr
    → List ℕ
    → Run (Option Location)
lookup_file grants g_nid g_server_port nodes files table tree al_pre name =
    pft_get_obj_list grants name tree al_pre >>= elim [
      | none ↦ ok none
      | some (darr, s) ↦ elim darr [
        | none ↦ ok none
        | some d ↦
            choose table d s >>= λ b. ok (locate g_nid g_server_port nodes files name b.next_hop)
      ]
    ]
