-- ===== src/Tests/Clients.antt =====
-- src/client_info.c and src/rt_ctrl.c with one client whose request has come in.
use dhttp.Base.{
  Bool-cases, inl, inr, ℕ, ◌≡◌, refl, arith, true, false, none, some, List, [], ◌∷◌,
  length-replicate, replicate, ◌==◌, if◌then◌else◌, ok, fault, dangling, Returns,
}
use dhttp.Base.Int.{pos}
use dhttp.Clients.Answers.{IsRefusal, process_clnt_request-IsRefusal}
use dhttp.Clients.Lookups.{text_of}
use dhttp.Clients.{Desk, process_clnt_request, get_rd, respond}
use dhttp.ClientTable.Buffers.{IsSound, IsTaken, IsExtended, bytes_of, recv_clnt_data-IsExtended}
use dhttp.ClientTable.Records.{update_clnt_info_dangling}
use dhttp.ClientTable.{
  tcp, udp, Client, arrived, would_block, recv_clnt_data, update_clnt_info, get_clnt_full_req,
}
use dhttp.Config.{Files}
use dhttp.EventLoop.Passes.{Ran, process_read-Ran}
use dhttp.EventLoop.Requests.{IsServed, write_one-getrd}
use dhttp.EventLoop.Serving.{IsServing}
use dhttp.EventLoop.{World, Answers, read_one, process_read, write_one}
use dhttp.Forward.{Location, lookup_file}
use dhttp.Ht.Empty.{emptied}
use dhttp.Parser.Requests.{getrd_request}
use dhttp.Parser.{ReqInfo, getrd, status_ok, error_not_found, c_str}
use dhttp.Pft
use dhttp.Pft.{fields, find_peer, pft_get_obj_list}
use dhttp.Resp.{fill_local_resp}
use dhttp.Tests.Daemons.{setting, daemon}
use dhttp.Tests.Requests.{one, object, chain, at, fresh, block-size, get_request, one-IsLength}

-- a client that sent "GETRD 1 a"
abbrev client : Client
client = record {
  sock_type = tcp;
  is_exist = true;
  chain = chain (getrd_request one object);
  curr_buf = 0;
  send_buf = some [];
  send_len = 0;
  parser_inf = fresh;
}

client-IsSound : IsSound client
client-IsSound = record {
  last = refl;
  held = omega arith;
  all_whole = ((block-size (getrd_request one object) (omega arith), omega arith), tt);
}

abbrev pub zeros : List ℕ
zeros = replicate 2048 0

recv_clnt_data-IsExtended_example :
    Returns
      (recv_clnt_data true zeros (arrived (b'G' ∷ [])) client)
      λ r. IsTaken (arrived (b'G' ∷ [])) r.0 × IsExtended client (bytes_of r.0) r.1
recv_clnt_data-IsExtended_example =
    recv_clnt_data-IsExtended true zeros (arrived (b'G' ∷ [])) client client-IsSound
      (length-replicate {A = ℕ} 2048 0)

abbrev clnt_set : ℕ → Client
clnt_set fd = if fd == 4 then client else record client { sock_type = udp; is_exist = fd == 3 }

-- the next block has been begun
abbrev behind : Client
behind = record client {
  chain = record {
    blocks = record { len = 2048; payload = zeros } ∷ record { len = 5; payload = zeros } ∷ [];
    freed = 0;
  };
  curr_buf = 1;
}

update_clnt_info_dangling_example :
    get_clnt_full_req false (update_clnt_info behind) ≡ fault dangling
update_clnt_info_dangling_example =
    update_clnt_info_dangling false behind (omega arith) (omega arith)

abbrev nowhere : Location
nowhere = record { ip = []; server_port = pos 0; remote_lc_port = pos 0; local_file_path = none }

abbrev desk : Desk
desk = record {
  entry_granted = true;
  opens = true;
  g_server_port = pos 80;
  al_pre = record { max_elem = 4; curr_elem = 0; block = 0 ∷ 0 ∷ 0 ∷ 0 ∷ [] };
  unset = nowhere;
}

abbrev no_objects : Files
no_objects = record { table = emptied 100; content = [] }

abbrev asked : ReqInfo
asked = record {
  method = getrd;
  req_status = status_ok;
  field1_len = pos 1;
  field2_len = pos 0;
  field1 = object;
  field2 = [];
}

not_found :
    lookup_file (λ k. true) 1 (pos 80) (emptied 100) (emptied 100) [] daemon.tree desk.al_pre object
    ≡ ok none
unfolding lookup_file pft_get_obj_list fields Pft.get_next_field find_peer
not_found = refl

process_clnt_request-IsRefusal_example :
    IsRefusal setting desk no_objects daemon
      (error_not_found, (text_of object none, (no_objects, (false, daemon))))
unfolding process_clnt_request get_rd lookup_file pft_get_obj_list respond fill_local_resp fields
    Pft.get_next_field find_peer
process_clnt_request-IsRefusal_example =
    process_clnt_request-IsRefusal setting desk asked no_objects daemon _ refl (λ e. cc)

abbrev pub answers : Answers ℕ
answers = record {
  setting = setting;
  desk = desk;
  errno = false;
  arrival = would_block;
  accepted = λ opened. none;
  buf_granted = true;
  send_granted = true;
  junk = zeros;
}

-- the client's bytes are there, and the routing socket is 3
abbrev pub world : World ℕ
world = record {
  clnt_set = clnt_set;
  pos = 0;
  rdset = λ fd. fd == 3;
  wrset = λ fd. fd == 4;
  daemon = daemon;
  objects = no_objects;
  inbox = [];
  sent = [];
}

write_one-getrd_example :
    Returns (write_one answers 3 4 world) (IsServed 4 (text_of (c_str object) none) (at 9) world)
write_one-getrd_example =
    write_one-getrd answers 3 4 world refl one object [] (at 9) none refl refl refl refl
      (omega arith) (one-IsLength object 9 refl (omega arith)) get_request not_found tt

world-IsServing : IsServing 3 world
world-IsServing = record {
  reads = λ fd h. ground arith;
  writes = λ fd h. ground arith;
  sound = λ fd. elim (Bool-cases (fd == 4)) [
    | inl e ↦ rw e (λ h. client-IsSound)
    | inr e ↦
        rw e (λ h. record { last = refl; held = omega arith; all_whole = client-IsSound.all_whole })
  ];
  routing = refl;
  is_udp = refl;
}

process_read-Ran_example :
    Ran
      (λ sock t. read_one answers 5 sock t)
      (λ fd. true)
      world
      (process_read (λ sock. answers) 5 (λ fd. true) world)
process_read-Ran_example =
    process_read-Ran 3 (λ sock. answers) 5 (λ fd. true) world
      (λ sock. record { size = length-replicate {A = ℕ} 2048 0; is_new = λ opened fd e. cc })
      (omega arith) world-IsServing
