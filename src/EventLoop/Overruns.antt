-- ===== src/EventLoop/Overruns.antt =====
-- src/rt_ctrl.c, `process_write` for a client, down to src/config.c, `new_entry`: a request that
-- overruns the entry of its object.
use dhttp.Base.{ℕ, ◌<◌, ◌≡◌, refl, ◌∙◌, true, false, none, some, List, length, fault, out_of_bounds}
use dhttp.Base.Int.{pos}
use dhttp.BufCtrl.Reads.{Reads}
use dhttp.BufCtrl.{Cursor, bufblk_size}
use dhttp.Clients.{Desk, add_file, process_clnt_request}
use dhttp.ClientTable.{tcp, Client, get_clnt_full_req}
use dhttp.Config.Objects.{add_localfile_overrun}
use dhttp.Config.{Files, lfile_ht, max_file_path}
use dhttp.EventLoop.Requests.{turn-tcp, turn_full}
use dhttp.EventLoop.{World, Answers, current, answer, write_one}
use dhttp.Ht.{ht_find}
use dhttp.Parser.Requests.{IsLength, addfile_request, parse_req-addfile}
use dhttp.Parser.{
  State, ReqInfo, new, done, addfile, status_ok, c_str, field1_max_len, field2_max_len,
}
use dhttp.Router.{Daemon, Setting}

process_clnt_request_overrun :
    {A : Type 0} (g : Setting A) (k : Desk) (r : ReqInfo) (fs : Files) (s : Daemon A)
    → r.req_status ≡ status_ok
    → r.method ≡ addfile
    → k.entry_granted ≡ true
    → ht_find lfile_ht r.field1 fs.table ≡ none
    → max_file_path < length r.field2
    → process_clnt_request g k r fs s ≡ fault out_of_bounds
unfolding process_clnt_request add_file
process_clnt_request_overrun g k r fs s fine is_add granted fresh long =
    let over = add_localfile_overrun k.opens r.field1 r.field2 fs fresh long in
    rw (process_clnt_request, fine, is_add, add_file, granted, over) refl

module _ {A : Type 0} (a : Answers A) (rd fd : ℕ) (w : World A) (clear : a.errno ≡ false) where
  turn_overruns :
      (c : Client) (old : List ℕ)
      → c.send_buf ≡ some old
      → process_clnt_request (current a w) a.desk c.parser_inf.req w.objects w.daemon
        ≡ fault out_of_bounds
      → answer a rd fd c w ≡ fault out_of_bounds
  unfolding answer
  turn_overruns c old buf over = rw (answer, buf, over) refl

  -- A client can write past an entry: in its turn with a whole ADDFILE request of the protocol for a
  -- new object, however its bytes lie in the buffers, whose path has more than MAX_FILE_PATH bytes, as
  -- the parser admits up to 512, the copy of the path overruns the entry if malloc grants one.
  pub write_one-addfile_overrun :
      (num object num' path old : List ℕ) (end : Cursor)
      → (w.clnt_set fd).sock_type ≡ tcp
      → (w.clnt_set fd).send_buf ≡ some old
      → (w.clnt_set fd).parser_inf.status ≡ new
      → (w.clnt_set fd).parser_inf.req.req_status ≡ status_ok
      → (w.clnt_set fd).parser_inf.cur.idx < bufblk_size
      → IsLength num object field1_max_len
      → IsLength num' path field2_max_len
      → Reads
          (w.clnt_set fd).chain
          end
          (w.clnt_set fd).parser_inf.cur
          (addfile_request num object num' path)
      → a.desk.entry_granted ≡ true
      → ht_find lfile_ht (c_str object) w.objects.table ≡ none
      → max_file_path < length (c_str path)
      → write_one a rd fd w ≡ fault out_of_bounds
  unfolding get_clnt_full_req
  write_one-addfile_overrun num object num' path old end is_tcp buf fresh fine inside n n' r granted
        unknown long =
      let c = w.clnt_set fd in
      let s = record (c.parser_inf) { errno = a.errno } in
      let parsed = parse_req-addfile s inside fresh clear num object num' path n n' r in
      let q : State = record s {
        status = done;
        cur = end;
        req = record (s.req) {
          method = addfile;
          field1_len = pos (length object);
          field1 = c_str object;
          field2_len = pos (length path);
          field2 = c_str path;
        };
      } in
      let c1 : Client = record c { parser_inf = q } in
      turn-tcp a rd fd w clear is_tcp
      ∙ turn_full a rd fd w clear c1 (rw parsed refl)
      ∙ turn_overruns c1 old buf (
          process_clnt_request_overrun (current a w) a.desk q.req w.objects w.daemon fine refl
            granted unknown long)
