-- ===== src/Tests/Routing.antt =====
-- src/lsa.c, src/config.c and src/dijkstra.c from the configuration to the routing table.
use dhttp.Ht.Empty.{emptied, emptied-IsValid}
use dhttp.Base.{ℕ, ◌≡◌, refl, arith, List, [], ◌∷◌, some, true, ok, Returns}
use dhttp.Base.Int.{pos}
use dhttp.Config.Lines.{AreMappings, file_of, insert_all, load_localfile-file_of}
use dhttp.Config.Objects.{IsAdded, add_localfile-IsAdded}
use dhttp.Config.{FileEntry, Files, NodeInfo, lfile_ht, empty_ht, load_localfile, add_localfile}
use dhttp.Ht.{Ht, ht_insert}
use dhttp.Lsa.{Lsa, LsaHeader, Intervals, type_ad, lsa_ht, stored_lsa}
use dhttp.RouteTable.Find.{Found, find_route_entry-Found}
use dhttp.RouteTable.Links.{add_links_stuck}
use dhttp.RouteTable.{TableEntry, add_links, find_route_entry, nodeid_already_in}

abbrev ids : List ℕ
ids = 30 ∷ 10 ∷ 20 ∷ []

abbrev ring : List ℕ
ring = 0 ∷ 1 ∷ 0 ∷ 0 ∷ 0 ∷ 1 ∷ 1 ∷ 0 ∷ 0 ∷ []

abbrev two_entries : List TableEntry
two_entries =
    record { dest = 10; next_hop = 10; cost = 1 }
    ∷ record { dest = 20; next_hop = 10; cost = 2 }
    ∷ []

find_route_entry-Found_example : Returns (find_route_entry two_entries 20) (Found two_entries 20)
find_route_entry-Found_example = find_route_entry-Found two_entries 20 ((omega arith, tt), (tt, tt))

-- node 99 is not known, so the link to 20 behind it is lost
add_links_stuck_example : add_links ids 3 1 (99 ∷ 20 ∷ []) 2 0 ring ≡ ok ring
unfolding nodeid_already_in
add_links_stuck_example = add_links_stuck ids 3 1 (99 ∷ 20 ∷ []) 2 0 99 ring (omega arith) refl refl

abbrev intervals : Intervals
intervals = record { lsa_timeout = pos 120; nb_timeout = pos 30; retran_timeout = pos 3 }

abbrev header : LsaHeader
header = record {
  ver = 1;
  ttl = 32;
  type = type_ad;
  snder_id = 7;
  seq_num = 5;
  num_lnk_entr = pos 1;
  num_obj_entr = pos 0;
}

abbrev nodes : Ht NodeInfo
nodes = emptied 100

abbrev arrived : Lsa
arrived = stored_lsa intervals nodes header (30 ∷ []) []

abbrev files : Files
files = record { table = emptied 100; content = [] }

-- the object "a" at the path "p"
add_localfile-IsAdded_example :
    Returns
      (add_localfile true true (97 ∷ []) (112 ∷ []) files)
      (IsAdded true true (97 ∷ []) (112 ∷ []) files)
add_localfile-IsAdded_example =
    add_localfile-IsAdded true true (97 ∷ []) (112 ∷ []) files
      (emptied-IsValid lfile_ht 100 (omega arith)) (omega arith) (omega arith)

abbrev one_file : List FileEntry
one_file = record { file_name = 97 ∷ []; file_path = 112 ∷ [] } ∷ []

one_file-AreMappings : AreMappings one_file
one_file-AreMappings = (
  record {
    name_token = (refl, tt);
    path_token = (refl, tt);
    some_name = omega arith;
    some_path = omega arith;
    short_name = omega arith;
    short_path = omega arith;
  },
  tt,
)

load_localfile-file_of_example :
    load_localfile (λ k. true) (some (file_of one_file)) ≡ ok (true, insert_all one_file empty_ht)
load_localfile-file_of_example = load_localfile-file_of one_file one_file-AreMappings

abbrev with_own : Ht Lsa
with_own = ht_insert lsa_ht arrived (emptied 100)
