-- ===== src/Tests/Starts.antt =====
-- src/routed.c: a start with one node and no objects.
use dhttp.Base.{
  ℕ, ◌≡◌, refl, arith, true, false, none, some, List, [], ◌∷◌, length-replicate, Run, ok, Option,
}
use dhttp.Base.Int.{pos, to_int}
use dhttp.Darr.{store, load}
use dhttp.ClientTable.{tcp, Client}
use dhttp.EventLoop.Serving.{IsServing}
use dhttp.EventLoop.{World}
use dhttp.Routed.Started.{rounds-start-IsServing}
use dhttp.Routed.{Platform, Running, Round, idle, round, rounds, check_time, is_timeout}
use dhttp.Routed.{
  start, args_of, configure, set_intervals, seconds, set_adv_timeout_interval, announce_first,
  open_sockets, open_routing, create,
}
use dhttp.StrHelper.{str_to_uint32, strtol, str_to_num}
use dhttp.Config.{
  load_neighbor_nodes, load_nodes, load_node_line, strtok, fgets, token_end, token_within,
  load_localfile, load_files,
}
use dhttp.Lsa.{
  set_nb_timeout_interval, set_retran_timeout_interval, set_lsa_timeout_interval, init_lsa,
  init_local_lsa,
}
use dhttp.Ht.{ht_insert, ht_find, change_at}
use dhttp.Pft.{pft_add_obj_frm_lsa, add_objs}
use dhttp.RouteTable.{
  get_index_by_nodeid, update_route_info, get_nbr_nid, construct_graph, node_ids, own_links,
  add_rows, add_links, update_route_table, fill_route_table, entries_from, sort_entries,
}
use dhttp.Dijkstra.{dijkstra, get_next_hop}
use dhttp.ClientTable.{create_clnt_info}
use dhttp.BufCtrl.{new_buf}
use dhttp.Parser.{init_parser}
use dhttp.Router.{flood}
use dhttp.Pending.{prep_flood_lsa, flood_over, floods_to}
use dhttp.Ht.Keys.{uint_to_idx, cmp_int}
use dhttp.Tests.Clients.{answers, world, zeros}
use dhttp.Tests.Daemons.{setting}
use dhttp.Tests.Requests.{fresh}

abbrev absent : Client
absent = record {
  sock_type = tcp;
  is_exist = false;
  chain = record { blocks = []; freed = 0 };
  curr_buf = 0;
  send_buf = none;
  send_len = 0;
  parser_inf = fresh;
}

-- "1 h 3 4 5"
abbrev config : List ℕ
config = b'1' ∷ 32 ∷ b'h' ∷ 32 ∷ b'3' ∷ 32 ∷ b'4' ∷ 32 ∷ b'5' ∷ 10 ∷ []

abbrev platform : Platform ℕ
platform = record {
  config = some config;
  objects = some [];
  node_grants = λ k. true;
  object_grants = λ k. true;
  setting = setting;
  lc_sock = some 4;
  rd_sock = some 5;
  lc_bound = true;
  lc_listens = true;
  rd_bound = true;
  buf_granted = true;
  send_granted = true;
  junk = zeros;
  memory = λ i. absent;
}

-- the node 1, the two files and four times the number 9
abbrev args : List (List ℕ)
args =
    (b'1' ∷ [])
    ∷ (b'c' ∷ [])
    ∷ (b'f' ∷ [])
    ∷ (b'9' ∷ [])
    ∷ (b'9' ∷ [])
    ∷ (b'9' ∷ [])
    ∷ (b'9' ∷ [])
    ∷ []

abbrev running : Run (Option (Running ℕ)) → Running ℕ
running (ok (some r)) = r
running _ = record { lc_sock = 0; rd_sock = 0; g_server_port = pos 0; world = world }

abbrev started : Running ℕ
started = running (start platform args)

starts : (start platform args ≡ ok (some started)) × (started.lc_sock ≡ 4) × (started.rd_sock ≡ 5)
unfolding start args_of configure str_to_uint32 strtol load_neighbor_nodes load_nodes load_node_line
    strtok fgets token_end token_within str_to_num load_localfile load_files set_intervals seconds
    set_adv_timeout_interval set_nb_timeout_interval set_retran_timeout_interval
    set_lsa_timeout_interval announce_first init_lsa init_local_lsa ht_insert ht_find
    pft_add_obj_frm_lsa add_objs update_route_info get_nbr_nid construct_graph node_ids own_links
    add_rows add_links update_route_table fill_route_table entries_from sort_entries dijkstra
    get_next_hop open_sockets open_routing create create_clnt_info new_buf init_parser flood
    prep_flood_lsa flood_over floods_to change_at uint_to_idx cmp_int store load to_int
    get_index_by_nodeid
starts = (refl, refl, refl)

-- select returns early and in vain
abbrev quiet : Round ℕ
quiet = record {
  selected = idle 5;
  reads = λ sock. answers;
  writes = λ sock. answers;
  late = answers;
}

nothing_happens : (lc rd : ℕ) (w : World ℕ) → rounds lc rd (quiet ∷ []) w ≡ ok w
unfolding rounds round check_time is_timeout
nothing_happens lc rd w = refl

rounds-start-IsServing_example : IsServing started.rd_sock started.world
rounds-start-IsServing_example =
    rounds-start-IsServing platform (length-replicate {A = ℕ} 2048 0) args started (quiet ∷ [])
      started.world (λ i. refl)
      ((λ sock. record { size = length-replicate {A = ℕ} 2048 0; is_new = λ opened fd e. cc }), tt)
      starts.0 (λ e. omega (arith, starts.1, starts.2)) (nothing_happens _ _ _)
