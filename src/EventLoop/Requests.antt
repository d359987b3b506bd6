-- ===== src/EventLoop/Requests.antt =====
-- src/rt_ctrl.c, `process_write` for a client: from the bytes of a GETRD request to its answer.
use dhttp.Base.{
  ℕ, ◌<◌, ◌≡◌, ◌≢◌, arith, refl, ap, ◌∙◌, true, false, Option, none, some, List, [], ◌∷◌, length,
  take, ◌==◌, ==_iff, if◌then◌else◌, ok, ◌>>=◌, Returns,
}
use dhttp.Base.Int.{pos}
use dhttp.BufCtrl.Reads.{Reads}
use dhttp.BufCtrl.{Cursor, free_buf, bufblk_size}
use dhttp.Clients.Lookups.{HasPath, status_of, text_of, process_clnt_request-getrd}
use dhttp.Clients.{process_clnt_request}
use dhttp.ClientTable.{
  tcp, Client, update_clnt_info, get_clnt_full_req, need_close_clnt, send_clnt_resp,
}
use dhttp.EventLoop.{
  World, Answers, fd_set, put_client, current, finish, with_response, answer, write_client,
  write_one,
}
use dhttp.Forward.{Location, lookup_file}
use dhttp.Parser.Requests.{IsLength, getrd_request, parse_req-getrd}
use dhttp.Parser.{
  State, RequestStatus, new, done, getrd, status_ok, c_str, field1_max_len, update_parser,
  init_req_info,
}

take-length : (xs : List ℕ) → take (length xs) xs ≡ xs
take-length [] = refl
take-length (x ∷ xs) = ap (◌∷◌ x) (take-length xs)

-- What one socket's turn leaves. The answer is sent. The client's record holds the answer, its
-- blocks before the last are freed, and its parser waits behind the request with its request begun
-- anew. The other clients and all else are as they were.
pub record IsServed {A : Type 0} (fd : ℕ) (text : List ℕ) (end : Cursor) (w w' : World A)
    : Type 0 where
  pub sent : w'.sent ≡ (fd, text) ∷ w.sent
  pub daemon : w'.daemon ≡ w.daemon
  pub objects : w'.objects ≡ w.objects
  pub rdset : w'.rdset ≡ w.rdset
  pub wrset : w'.wrset ≡ w.wrset
  pub inbox : w'.inbox ≡ w.inbox
  pub position : w'.pos ≡ w.pos
  pub others : (i : ℕ) → i ≢ fd → w'.clnt_set i ≡ w.clnt_set i
  pub status : (w'.clnt_set fd).parser_inf.status ≡ new
  pub cur : (w'.clnt_set fd).parser_inf.cur ≡ end
  pub req_status : (w'.clnt_set fd).parser_inf.req.req_status ≡ status_ok
  pub field1_len : (w'.clnt_set fd).parser_inf.req.field1_len ≡ pos 0
  pub field2_len : (w'.clnt_set fd).parser_inf.req.field2_len ≡ pos 0
  pub send_buf : (w'.clnt_set fd).send_buf ≡ some text
  pub send_len : (w'.clnt_set fd).send_len ≡ length text
  pub blocks : (w'.clnt_set fd).chain.blocks ≡ (w.clnt_set fd).chain.blocks
  pub freed : (w'.clnt_set fd).chain.freed ≡ (w.clnt_set fd).curr_buf
  pub curr_buf : (w'.clnt_set fd).curr_buf ≡ (w.clnt_set fd).curr_buf
  pub sock_type : (w'.clnt_set fd).sock_type ≡ (w.clnt_set fd).sock_type
  pub exists : (w'.clnt_set fd).is_exist ≡ (w.clnt_set fd).is_exist

good_status :
    (o : Option Location) (c : Client)
    → c.parser_inf.req.req_status ≡ status_of o
    → need_close_clnt c ≡ false
unfolding need_close_clnt
good_status none c e = rw e refl
good_status (some at) c e = rw e refl

module _ {A : Type 0} (a : Answers A) (rd fd : ℕ) (w : World A) (clear : a.errno ≡ false) where
  -- the turn of a client whose answer is good
  finish-IsServed :
      (c : Client) (text : List ℕ) (o : Option Location) (u : World A)
      → finish fd (with_response (status_of o) text c) u
        ≡ ok (
            put_client fd
              (update_clnt_info (with_response (status_of o) text c))
              (record u { sent = (fd, text) ∷ u.sent }))
  unfolding finish send_clnt_resp
  finish-IsServed c text o u =
      let good = good_status o (with_response (status_of o) text c) refl in
      rw (take-length text, good) refl

  pub turn-tcp : (w.clnt_set fd).sock_type ≡ tcp → write_one a rd fd w ≡ write_client a rd fd w
  unfolding write_one
  turn-tcp is_tcp = rw (write_one, is_tcp) refl

  pub turn_full :
      (c : Client)
      → get_clnt_full_req a.errno (w.clnt_set fd) ≡ ok (true, c)
      → write_client a rd fd w ≡ answer a rd fd c w
  unfolding write_client
  turn_full c full = rw (write_client, full) refl

  turn_answered :
      (c : Client) (old text : List ℕ) (answer_status : RequestStatus)
      → c.send_buf ≡ some old
      → process_clnt_request (current a w) a.desk c.parser_inf.req w.objects w.daemon
        ≡ ok (answer_status, (text, (w.objects, (false, w.daemon))))
      → answer a rd fd c w
        ≡ finish fd
            (with_response answer_status text c)
            (record w { objects = w.objects; daemon = w.daemon; wrset = w.wrset })
  unfolding answer
  turn_answered c old text answer_status buf answered =
      rw (answer, buf)
        (ap
          (λ r. r >>= λ (answer_status, (text, (objects, (need_flood, daemon)))).
            finish fd (with_response answer_status text c) (record w {
              objects = objects;
              daemon = daemon;
              wrset = if need_flood then fd_set rd w.wrset else w.wrset;
            }))
          answered)

  -- A client's turn with a whole GETRD request of the protocol in its buffers, however its bytes lie
  -- there: where the location of the lookup, if it finds one, is another node's or has a path, the
  -- turn ends, and the client is sent the location, or the error Not Found if the lookup finds none.
  -- Nothing changes but the client's record, whose send buffer holds the answer, whose blocks before
  -- the last are freed and whose parser, its request begun anew, waits for the next one behind this.
  pub write_one-getrd :
      (num object old : List ℕ) (end : Cursor) (o : Option Location)
      → (w.clnt_set fd).sock_type ≡ tcp
      → (w.clnt_set fd).send_buf ≡ some old
      → (w.clnt_set fd).parser_inf.status ≡ new
      → (w.clnt_set fd).parser_inf.req.req_status ≡ status_ok
      → (w.clnt_set fd).parser_inf.cur.idx < bufblk_size
      → IsLength num object field1_max_len
      → Reads (w.clnt_set fd).chain end (w.clnt_set fd).parser_inf.cur (getrd_request num object)
      → lookup_file a.setting.pft_grants a.setting.g_nid a.desk.g_server_port w.daemon.nodes
          w.objects.table w.daemon.table w.daemon.tree a.desk.al_pre
          (c_str object)
        ≡ ok o
      → HasPath o
      → Returns (write_one a rd fd w) (IsServed fd (text_of (c_str object) o) end w)
  unfolding get_clnt_full_req update_clnt_info update_parser init_req_info free_buf
  write_one-getrd num object old end o is_tcp buf fresh fine inside n r looked set =
      let c = w.clnt_set fd in
      let s = record (c.parser_inf) { errno = a.errno } in
      let parsed = parse_req-getrd s inside fresh clear num object n r in
      let same : (fd == fd) ≡ true = (==_iff fd fd).1 refl in
      let q : State = record s {
        status = done;
        cur = end;
        req = record (s.req) {
          method = getrd;
          field1_len = pos (length object);
          field1 = c_str object;
        };
      } in
      let c1 : Client = record c { parser_inf = q } in
      let text = text_of (c_str object) o in
      let answered =
        process_clnt_request-getrd (current a w) a.desk q.req w.objects w.daemon o fine refl looked
          set in
      let c2 = update_clnt_info (with_response (status_of o) text c1) in
      let u : World A = record w { objects = w.objects; daemon = w.daemon; wrset = w.wrset } in
      let w' : World A = put_client fd c2 (record u { sent = (fd, text) ∷ w.sent }) in
      (
        w',
        turn-tcp is_tcp
            ∙ turn_full c1 (rw parsed refl)
            ∙ turn_answered c1 old text (status_of o) buf answered
            ∙ finish-IsServed c1 text o u,
        record {
          sent = refl;
          daemon = refl;
          objects = refl;
          rdset = refl;
          wrset = refl;
          inbox = refl;
          position = refl;
          others = λ i ne. let other : (fd == i) ≡ false = ground arith in rw other refl;
          status = rw same refl;
          cur = rw same refl;
          req_status = rw same refl;
          field1_len = rw same refl;
          field2_len = rw same refl;
          send_buf = rw same refl;
          send_len = rw same refl;
          blocks = rw same refl;
          freed = rw same refl;
          curr_buf = rw same refl;
          sock_type = rw same refl;
          exists = rw same refl;
        },
      )
