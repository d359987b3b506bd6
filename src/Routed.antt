-- ===== src/Routed.antt =====
-- src/routed.c: the start of the daemon and its loop over `select`. `none` is the way to `err`,
-- where the usage is printed and the program exits.
pub mod Served
pub mod Started
use mathlib.Core.Option
use dhttp.Base.{
  ℕ, ◌+◌, ◌-◌, ◌*◌, Bool, true, false, not, ◌&&◌, Option, none, some, List, [], ◌∷◌, ltb, ◌==◌,
  if◌then◌else◌, Run, ok, fault, assertion_failed, ◌>>=◌,
}
use dhttp.Base.Int.{ℤ, pos, negsuc}
use dhttp.ClientTable.{SocketType, tcp, udp, Client, fd_setsize, create_clnt_info}
use dhttp.Config.{NodeInfo, FileEntry, nb_nodes_ht, load_localfile, load_neighbor_nodes}
use dhttp.EventLoop.{
  FdSet, fd_set, World, Answers, put_client, current, process_read, process_write,
}
use dhttp.Ht.{Ht, ht_find}
use dhttp.Lsa.{
  Lsa, Intervals, init_lsa, is_positive, set_nb_timeout_interval, set_retran_timeout_interval,
  set_lsa_timeout_interval,
}
use dhttp.Pending.{init_pd_ack_table}
use dhttp.Pft.{Pft, null, pft_add_obj_frm_lsa}
use dhttp.RouteTable.{update_route_info}
use dhttp.Router.{Daemon, Setting, flood, handle_time_out}
use dhttp.StrHelper.{str_to_num, str_to_uint32}

abbrev pub onesec : ℕ
onesec = 1000000

-- ONESEC * (long)n
unfoldable pub in_microseconds : ℤ → ℤ
in_microseconds (pos n) = pos (onesec * n)
in_microseconds (negsuc n) = negsuc (onesec * (n + 1) - 1)

-- src/sel_timeout.c: the interval, which g_adv_timeout begins with
unfoldable pub set_adv_timeout_interval : ℤ → Run ℤ
set_adv_timeout_interval interval =
    if is_positive interval then ok interval else fault assertion_failed

-- The arguments behind the name of the program.
pub record Args : Type 0 where
  pub node_id : List ℕ
  pub config_file : List ℕ
  pub file_list : List ℕ
  pub adv_cycle : List ℕ
  pub neighbor_timeout : List ℕ
  pub retran_timeout : List ℕ
  pub lsa_timeout : List ℕ

-- `none` where `argc` is not 8
unfoldable pub args_of : List (List ℕ) → Option Args
args_of (node_id ∷ config_file ∷ file_list ∷ adv ∷ nb ∷ retran ∷ lsa ∷ []) = some (record {
  node_id = node_id;
  config_file = config_file;
  file_list = file_list;
  adv_cycle = adv;
  neighbor_timeout = nb;
  retran_timeout = retran;
  lsa_timeout = lsa;
})
args_of _ = none

abbrev pub or_exit {ℓ κ} :
    {X : Type ℓ} {Y : Type κ} → Option X → (X → Run (Option Y)) → Run (Option Y)
or_exit none next = ok none
or_exit (some x) next = next x

-- A number of seconds. Up to here no number was out of range, so errno is not ERANGE.
unfoldable pub seconds : List ℕ → Option ℤ
unfolding in_microseconds
seconds text = Option.map in_microseconds (str_to_num false text).1

-- the interval of announcements, and the three of src/lsa.c, which begin as 0
unfoldable pub set_intervals : Args → Run (Option (ℤ × Intervals))
set_intervals a = or_exit (seconds a.adv_cycle) λ adv. set_adv_timeout_interval adv >>= λ adv'.
    or_exit (seconds a.neighbor_timeout) λ nb.
      set_nb_timeout_interval nb
        (record { lsa_timeout = pos 0; nb_timeout = pos 0; retran_timeout = pos 0 })
      >>= λ iv. or_exit (seconds a.retran_timeout) λ retran.
        set_retran_timeout_interval retran iv >>= λ iv'.
        or_exit (seconds a.lsa_timeout)
          λ lsa. set_lsa_timeout_interval lsa iv' >>= λ iv''. ok (some (adv', iv''))

-- the answers of the system at the start; the setting's answers are those of the calls made here
pub record Platform (A : Type 0) : Type 0 where
  pub config : Option (List ℕ)
  pub objects : Option (List ℕ)
  pub node_grants : ℕ → Bool
  pub object_grants : ℕ → Bool
  pub setting : Setting A
  pub lc_sock : Option ℕ
  pub rd_sock : Option ℕ
  pub lc_bound : Bool
  pub lc_listens : Bool
  pub rd_bound : Bool
  pub buf_granted : Bool
  pub send_granted : Bool
  pub junk : List ℕ
  pub memory : ℕ → Client

module _ {A : Type 0} where
  -- the local announcement, its objects in the tree and the first table of routes
  unfoldable pub announce_first : Setting A → Ht NodeInfo → Run (Daemon A)
  announce_first g nodes =
      let (llsa, lsas) = init_lsa g.iv g.g_nid nodes g.files g.lsa_granted in
      elim llsa [
        | none ↦ fault assertion_failed
        | some l ↦ pft_add_obj_frm_lsa g.pft_grants l null >>= λ tree.
            update_route_info g.g_nid nodes lsas >>= λ table. ok (record {
              nodes = nodes;
              lsas = lsas;
              tree = tree;
              table = table;
              outbox = [];
              acks = init_pd_ack_table;
              adv_timeout = g.adv_interval;
            })
      ]

module _ {A : Type 0} (p : Platform A) where
  -- what the arguments and the files say
  unfoldable pub configure : Args → Run (Option (Setting A × Ht NodeInfo))
  configure a = or_exit (str_to_uint32 false a.node_id).1 λ g_nid.
      load_neighbor_nodes p.node_grants false p.config >>= λ nodes.
      if not nodes.0
      then ok none
      else load_localfile p.object_grants p.objects >>= λ files.
          if not files.0
          then ok none
          else set_intervals a >>= λ r. or_exit r λ (adv, iv). ok (
              some (
                record (p.setting) { iv = iv; adv_interval = adv; g_nid = g_nid; files = files.1 },
                nodes.1,
              ))

  -- the record of one of the two sockets, whose making is asserted
  unfoldable pub create : ℕ → SocketType → (ℕ → Client) → Run (ℕ → Client)
  create fd type clnt_set =
      if ltb fd fd_setsize
      then (let (done, c) =
            create_clnt_info p.buf_granted p.send_granted p.junk type (clnt_set fd) in
          if done then ok (λ i. if fd == i then c else clnt_set i) else fault assertion_failed)
      else fault assertion_failed

-- the two sockets, the node's port for objects and the state of the loop
pub record Running (A : Type 0) : Type 0 where
  pub lc_sock : ℕ
  pub rd_sock : ℕ
  pub g_server_port : ℤ
  pub world : World A

module _ {A : Type 0} (p : Platform A) where
  -- the state in which the loop begins
  abbrev pub begun : Setting A → NodeInfo → ℕ → ℕ → (ℕ → Client) → Daemon A → Running A
  begun g own lc_sock rd_sock clnt_set s = record {
    lc_sock = lc_sock;
    rd_sock = rd_sock;
    g_server_port = own.server_port;
    world = record {
      clnt_set = clnt_set;
      pos = 0;
      rdset = fd_set rd_sock (fd_set lc_sock (λ i. false));
      wrset = fd_set rd_sock (λ i. false);
      daemon = s;
      objects = record {
        table = g.files;
        content = elim p.objects [ none ↦ [] | some content ↦ content ];
      };
      inbox = [];
      sent = [];
    };
  }

  -- the routing socket, and the first announcement in the outbox
  unfoldable pub open_routing :
      Setting A → NodeInfo → Daemon A → ℕ → (ℕ → Client) → Run (Option (Running A))
  open_routing g own s lc_sock one = or_exit p.rd_sock λ rd_sock.
      if not p.rd_bound
      then ok none
      else create p rd_sock udp one >>= λ both.
          flood g g.g_nid g.no_addr s >>= λ s'. ok (some (begun g own lc_sock rd_sock both s'))

  -- the socket for clients, and then the other
  unfoldable pub open_sockets : Setting A → NodeInfo → Daemon A → Run (Option (Running A))
  open_sockets g own s = or_exit p.lc_sock λ lc_sock.
      if not (p.lc_bound && p.lc_listens)
      then ok none
      else create p lc_sock tcp p.memory >>= λ one. open_routing g own s lc_sock one

  -- all before the loop of `main`
  unfoldable pub start : List (List ℕ) → Run (Option (Running A))
  start args = or_exit (args_of args) λ a. configure p a >>= λ r. or_exit r λ (g, nodes).
      or_exit (ht_find nb_nodes_ht g.g_nid nodes)
        λ own. announce_first g nodes >>= λ s. open_sockets g own s

-- What `select` gives: the sockets that are ready and what is left of the microseconds, or an error.
pub data Selected : Type 0 where
  ready : FdSet → FdSet → ℕ → Selected
  idle : ℕ → Selected
  failed : Selected

abbrev pub check_interval : ℕ
check_interval = onesec * 2

-- src/sel_timeout.c
unfoldable pub is_timeout : ℕ → Bool
is_timeout tv_usec = not (ltb 0 tv_usec)

-- one round of the loop: what select gives, and the system's answers while a socket is read, while
-- one is written and while a timeout is handled
pub record Round (A : Type 0) : Type 0 where
  pub selected : Selected
  pub reads : ℕ → Answers A
  pub writes : ℕ → Answers A
  pub late : Answers A

module _ {A : Type 0} (lc_sock rd_sock : ℕ) where
  unfoldable pub check_time : Answers A → ℕ → World A → Run (World A)
  check_time a tv_usec w =
      if is_timeout tv_usec
      then (handle_time_out (current a w) check_interval w.daemon >>= λ t.
          ok (record w { daemon = t.1; wrset = if t.0 then fd_set rd_sock w.wrset else w.wrset }))
      else ok w

  -- the sockets that select may report are those that it was asked for
  unfoldable pub round : Round A → World A → Run (World A)
  round r w = elim r.selected [
    | ready rd wr tv_usec ↦ process_read r.reads lc_sock (λ i. rd i && w.rdset i) w >>= λ w1.
        process_write r.writes rd_sock (λ i. wr i && w.wrset i) w1 >>= λ w2.
        check_time r.late tv_usec w2
    | idle tv_usec ↦ check_time r.late tv_usec w
    | failed ↦ fault assertion_failed
  ]

  unfoldable pub rounds : List (Round A) → World A → Run (World A)
  rounds [] w = ok w
  rounds (r ∷ rs) w = round r w >>= λ w'. rounds rs w'
