-- ===== src/EventLoop.antt =====
-- src/rt_ctrl.c: what one pass over the sockets that are ready does. A set of sockets is a test on
-- their numbers. The daemon's other globals are in the World as they are in Daemon and Files;
-- `inbox` is what waits at the routing socket, and `sent` what was sent to clients, newest first.
pub mod Serving
pub mod Reading
pub mod Writing
pub mod Passes
pub mod Turns
pub mod ReadTurns
pub mod Requests
pub mod Overruns
use dhttp.Base.{
  ℕ, zero, suc, ◌+◌, Bool, true, false, Option, none, some, List, [], ◌∷◌, length, ltb, ◌==◌,
  if◌then◌else◌, Run, ok, fault, assertion_failed, null_pointer, out_of_fuel, ◌>>=◌,
}
use dhttp.Clients.{Desk, process_clnt_request}
use dhttp.ClientTable.{
  SocketType, tcp, udp, Client, Arrival, arrived, closed, would_block, broken, fd_setsize,
  create_clnt_info, remove_clnt_info, update_clnt_info, recv_clnt_data, get_clnt_full_req,
  need_close_clnt, send_clnt_resp, get_next_fd,
}
use dhttp.Config.{Files}
use dhttp.Parser.{RequestStatus}
use dhttp.Pending.{clnt_send_rd_info}
use dhttp.Router.Datagrams.{Datagram, receive}
use dhttp.Router.{Daemon, Setting}

abbrev pub FdSet : Type 0
FdSet = ℕ → Bool

-- FD_SET and FD_CLR
abbrev pub fd_set : ℕ → FdSet → FdSet
fd_set fd fds i = if fd == i then true else fds i

abbrev pub fd_clr : ℕ → FdSet → FdSet
fd_clr fd fds i = if fd == i then false else fds i

pub record World (A : Type 0) : Type 0 where
  pub clnt_set : ℕ → Client
  pub pos : ℕ
  pub rdset : FdSet
  pub wrset : FdSet
  pub daemon : Daemon A
  pub objects : Files
  pub inbox : List (Datagram A)
  pub sent : List (ℕ × List ℕ)

-- what the system answers while one socket is handled: the setting of the daemon and the desk for
-- a request, errno, what waits at the socket, the connection that `accept` gives where these sockets
-- are open, and the mallocs
pub record Answers (A : Type 0) : Type 0 where
  pub setting : Setting A
  pub desk : Desk
  pub errno : Bool
  pub arrival : Arrival
  pub accepted : (ℕ → Bool) → Option ℕ
  pub buf_granted : Bool
  pub send_granted : Bool
  pub junk : List ℕ

-- the client with the response in its buffer and the status of its request
abbrev pub with_response : RequestStatus → List ℕ → Client → Client
with_response status text c = record c {
  send_buf = some text;
  send_len = length text;
  parser_inf = record (c.parser_inf) { req = record (c.parser_inf.req) { req_status = status } };
}

module _ {A : Type 0} where
  abbrev pub put_client : ℕ → Client → World A → World A
  put_client fd c w = record w { clnt_set = λ i. if fd == i then c else w.clnt_set i }

  -- the objects are those of the moment
  abbrev pub current : Answers A → World A → Setting A
  current a w = record (a.setting) { files = w.objects.table }

  -- `accept_new`, with the new socket in the set of those to be read
  unfoldable pub accept_new : Answers A → World A → Run (World A)
  accept_new a w = elim (a.accepted (λ i. (w.clnt_set i).is_exist)) [
    | none ↦ ok w
    | some fd ↦
        if ltb fd fd_setsize
        then (let (done, c) =
              create_clnt_info a.buf_granted a.send_granted a.junk tcp (w.clnt_set fd) in
            let w' = put_client fd c w in
            ok (if done then record w' { rdset = fd_set fd w.rdset } else w'))
        else fault assertion_failed
  ]

  -- the socket is closed: it leaves both sets, and its record is given up
  unfoldable pub hang_up : ℕ → Client → World A → Run (World A)
  hang_up fd c w = remove_clnt_info c >>= λ c'.
      ok (record (put_client fd c' w) { rdset = fd_clr fd w.rdset; wrset = fd_clr fd w.wrset })

  -- a client's socket: received bytes are a reason to write
  unfoldable pub read_client : Answers A → ℕ → World A → Run (World A)
  read_client a fd w = recv_clnt_data a.buf_granted a.junk a.arrival (w.clnt_set fd) >>= λ r.
      elim r.0 [
        | arrived bs ↦ ok (record (put_client fd r.1 w) { wrset = fd_set fd w.wrset })
        | closed ↦ hang_up fd r.1 w
        | would_block ↦ ok w
        | broken ↦ fault assertion_failed
      ]

  unfoldable pub read_routing : Answers A → ℕ → World A → Run (World A)
  read_routing a fd w = receive (current a w) w.inbox w.daemon >>= λ r. ok (record w {
    inbox = r.0;
    daemon = (r.1).1;
    wrset = if (r.1).0 then fd_set fd w.wrset else w.wrset;
  })

  -- the body of the loop of `process_read`
  unfoldable pub read_one : Answers A → ℕ → ℕ → World A → Run (World A)
  read_one a lc_sock sock w = elim (w.clnt_set sock).sock_type [
    | tcp ↦ if sock == lc_sock then accept_new a w else read_client a sock w
    | udp ↦ read_routing a sock w
  ]

  -- The response is sent; a client that sent a bad request is given up.
  unfoldable pub finish : ℕ → Client → World A → Run (World A)
  finish fd c w = send_clnt_resp c >>= λ text.
      let w' = record w { sent = (fd, text) ∷ w.sent } in
      if need_close_clnt c then hang_up fd c w' else ok (put_client fd (update_clnt_info c) w')

  -- a full request, in the client's record
  unfoldable pub answer : Answers A → ℕ → ℕ → Client → World A → Run (World A)
  answer a rd_sock fd c w = elim c.send_buf [
    | none ↦ fault null_pointer
    | some old ↦
        process_clnt_request (current a w) a.desk c.parser_inf.req w.objects w.daemon
        >>= λ (status, (text, (objects, (need_flood, daemon)))).
            finish fd (with_response status text c) (record w {
              objects = objects;
              daemon = daemon;
              wrset = if need_flood then fd_set rd_sock w.wrset else w.wrset;
            })
  ]

  unfoldable pub write_client : Answers A → ℕ → ℕ → World A → Run (World A)
  write_client a rd_sock fd w = get_clnt_full_req a.errno (w.clnt_set fd) >>= λ r.
      if r.0
      then answer a rd_sock fd r.1 w
      else ok (record (put_client fd r.1 w) { wrset = fd_clr fd w.wrset })

  -- all packets are sent
  unfoldable pub write_routing : ℕ → World A → World A
  write_routing fd w = record w {
    daemon = record (w.daemon) {
      outbox = [];
      acks = clnt_send_rd_info w.daemon.outbox w.daemon.acks;
    };
    wrset = fd_clr fd w.wrset;
  }

  -- the body of the loop of `process_write`
  unfoldable pub write_one : Answers A → ℕ → ℕ → World A → Run (World A)
  write_one a rd_sock sock w = elim (w.clnt_set sock).sock_type [
    | tcp ↦ write_client a rd_sock sock w
    | udp ↦ ok (write_routing sock w)
  ]

  -- The loop over the sockets of a set, on fuel: the position grows with each of them.
  unfoldable pub pass : (ℕ → World A → Run (World A)) → FdSet → ℕ → World A → Run (World A)
  pass handle tmp zero w = fault out_of_fuel
  pass handle tmp (suc fuel) w =
      let r = get_next_fd w.clnt_set tmp w.pos in
      let w' = record w { pos = r.1 } in
      elim r.0 [ none ↦ ok w' | some sock ↦ handle sock w' >>= λ t. pass handle tmp fuel t ]

  unfoldable pub process_read : (ℕ → Answers A) → ℕ → FdSet → World A → Run (World A)
  process_read answers lc_sock tmp w =
      pass (λ sock t. read_one (answers sock) lc_sock sock t) tmp (fd_setsize + 1) w

  unfoldable pub process_write : (ℕ → Answers A) → ℕ → FdSet → World A → Run (World A)
  process_write answers rd_sock tmp w =
      pass (λ sock t. write_one (answers sock) rd_sock sock t) tmp (fd_setsize + 1) w
