-- ===== src/EventLoop/Writing.antt =====
-- src/rt_ctrl.c, the body of `process_write`: it keeps what holds between two calls.
use dhttp.Base.{
  ℕ, ◌≡◌, ◌≢◌, refl, ◌∙◌, Bool, true, Bool-cases, Option-cases, inl, inr, Run, ok, bind-eq-ok, [],
  ◌∷◌,
}
use dhttp.Clients.{process_clnt_request}
use dhttp.ClientTable.Buffers.{IsSound}
use dhttp.ClientTable.Records.{update_clnt_info-IsSound, get_clnt_full_req-IsSound}
use dhttp.ClientTable.{
  SocketType, tcp, udp, Client, update_clnt_info, get_clnt_full_req, need_close_clnt,
  send_clnt_resp,
}
use dhttp.EventLoop.Serving.{
  IsServing, tcp-ne, other-IsServing, put-IsServing, write_clr-IsServing, write_if-IsServing,
  hang_up-IsServing,
}
use dhttp.EventLoop.{
  World, Answers, fd_clr, put_client, current, finish, with_response, answer, write_client,
  write_routing, write_one,
}
use dhttp.Parser.{parse_req}
use dhttp.Pending.{clnt_send_rd_info}

update-exists : (c : Client) → (update_clnt_info c).is_exist ≡ c.is_exist
unfolding update_clnt_info
update-exists c = refl

full_req-exists :
    (errno : Bool) (c : Client) (r : Bool × Client)
    → get_clnt_full_req errno c ≡ ok r
    → r.1.is_exist ≡ c.is_exist
unfolding get_clnt_full_req
full_req-exists errno c r e =
    let (t, read, same) =
      bind-eq-ok (parse_req c.chain (record (c.parser_inf) { errno = errno })) _ e in
    let is : r ≡ (t.0, record c { parser_inf = t.1 }) = cc in rw is refl

module _ {A : Type 0} (rd : ℕ) where
  finish-IsServing :
      (fd : ℕ) (c : Client) (w w' : World A)
      → IsServing rd w
      → fd ≢ rd
      → c.is_exist ≡ true
      → IsSound c
      → finish fd c w ≡ ok w'
      → IsServing rd w' × (w'.pos ≡ w.pos)
  unfolding finish
  finish-IsServing fd c w w' v ne exists sound run =
      let (text, sends, last) = bind-eq-ok (send_clnt_resp c) _ run in
      let w1 : World A = record w { sent = (fd, text) ∷ w.sent } in
      let v1 = other-IsServing rd w w.pos w.daemon w.objects w.inbox ((fd, text) ∷ w.sent) v in
      elim (Bool-cases (need_close_clnt c)) [
        | inl bad ↦ hang_up-IsServing rd w1 w' fd c v1 ne (rw bad at last)
        | inr good ↦
            let is : w' ≡ put_client fd (update_clnt_info c) w1 = cc (rw good at last) in
            rw is (
              put-IsServing rd w1 fd (update_clnt_info c) v1 ne (update-exists c ∙ exists)
                  (update_clnt_info-IsSound c sound),
              refl,
            )
      ]

  answer-IsServing :
      (a : Answers A) (fd : ℕ) (c : Client) (w w' : World A)
      → IsServing rd w
      → fd ≢ rd
      → c.is_exist ≡ true
      → IsSound c
      → answer a rd fd c w ≡ ok w'
      → IsServing rd w' × (w'.pos ≡ w.pos)
  unfolding answer
  answer-IsServing a fd c w w' v ne exists sound run = elim (Option-cases c.send_buf) [
    | inl e ↦ absurd (cc (rw e at run))
    | inr (old, e) ↦
        let ((status, (text, (objects, (need_flood, daemon)))), processed, last) =
          bind-eq-ok (process_clnt_request (current a w) a.desk c.parser_inf.req w.objects w.daemon)
            _ (rw e at run) in
        let w1 : World A = record w { objects = objects; daemon = daemon } in
        let v1 = other-IsServing rd w w.pos daemon objects w.inbox w.sent v in
        finish-IsServing fd (with_response status text c) _ w'
          (write_if-IsServing rd w1 rd need_flood v1 v.routing) ne exists
          (record { last = sound.last; held = sound.held; all_whole = sound.all_whole }) last
  ]

  write_client-IsServing :
      (a : Answers A) (fd : ℕ) (w w' : World A)
      → IsServing rd w
      → fd ≢ rd
      → (w.clnt_set fd).is_exist ≡ true
      → write_client a rd fd w ≡ ok w'
      → IsServing rd w' × (w'.pos ≡ w.pos)
  unfolding write_client
  write_client-IsServing a fd w w' v ne exists run =
      let (r, parsed, last) = bind-eq-ok (get_clnt_full_req a.errno (w.clnt_set fd)) _ run in
      let exists' = full_req-exists a.errno (w.clnt_set fd) r parsed ∙ exists in
      let sound = get_clnt_full_req-IsSound a.errno (w.clnt_set fd) r parsed (v.sound fd exists) in
      elim (Bool-cases r.0) [
        | inl e ↦ answer-IsServing a fd r.1 w w' v ne exists' sound (rw e at last)
        | inr e ↦
            let w1 = put_client fd r.1 w in
            let is : w' ≡ record w1 { wrset = fd_clr fd w.wrset } = cc (rw e at last) in
            rw is
              (write_clr-IsServing rd w1 fd (put-IsServing rd w fd r.1 v ne exists' sound), refl)
      ]

  write_routing-IsServing :
      (fd : ℕ) (w : World A) → IsServing rd w → IsServing rd (write_routing fd w)
  unfolding write_routing
  write_routing-IsServing fd w v =
      let daemon = record (w.daemon) {
        outbox = [];
        acks = clnt_send_rd_info w.daemon.outbox w.daemon.acks;
      } in
      write_clr-IsServing rd (record w { daemon = daemon }) fd
        (other-IsServing rd w w.pos daemon w.objects w.inbox w.sent v)

  -- One socket that is written, if nothing fails, keeps what holds between two calls, and the position.
  pub write_one-IsServing :
      (a : Answers A) (sock : ℕ) (w w' : World A)
      → IsServing rd w
      → (w.clnt_set sock).is_exist ≡ true
      → write_one a rd sock w ≡ ok w'
      → IsServing rd w' × (w'.pos ≡ w.pos)
  unfolding write_one write_routing
  write_one-IsServing a sock w w' v exists run = by_type (w.clnt_set sock).sock_type refl run
    where
      by_type :
          (type : SocketType)
          → (w.clnt_set sock).sock_type ≡ type
          → elim type as (λ x. Run (World A)) [
            | tcp ↦ write_client a rd sock w
            | udp ↦ ok (write_routing sock w)
          ]
            ≡ ok w'
          → IsServing rd w' × (w'.pos ≡ w.pos)
      by_type tcp is_tcp run =
          write_client-IsServing a sock w w' v (tcp-ne rd w sock v is_tcp) exists run
      by_type udp is_udp run =
          let is : w' ≡ write_routing sock w = cc in rw is (write_routing-IsServing sock w v, refl)
