-- ===== src/EventLoop/ReadTurns.antt =====
-- src/rt_ctrl.c, `process_read`: which sockets have a turn in one call.
use dhttp.Base.{
  ℕ, ◌+◌, ◌≤◌, ◌≡◌, ◌≢◌, refl, ap, ◌∙◌, arith, true, false, Bool-cases, Option-cases, inl, inr,
  ◌==◌, ==_iff, if◌then◌else◌, Run, ok, fault, assertion_failed, bind-eq-ok,
}
use dhttp.ClientTable.{
  SocketType, tcp, udp, Client, Arrival, arrived, closed, would_block, broken, fd_setsize,
  create_clnt_info, recv_clnt_data,
}
use dhttp.EventLoop.Serving.{IsFaithful}
use dhttp.EventLoop.Turns.{
  IsAlone, Keeps, AllServed, IsAlone-Keeps, put-IsAlone, hang_up-IsAlone, pass-AllServed,
}
use dhttp.EventLoop.{
  World, Answers, FdSet, fd_set, put_client, current, accept_new, hang_up, read_client,
  read_routing, read_one, process_read,
}
use dhttp.Router.Datagrams.{receive}

-- a record that takes the place of one that is not open
put_absent-Keeps :
    {A : Type 0} (sock fd : ℕ) (c : Client) (w : World A)
    → (w.clnt_set fd).is_exist ≡ false
    → Keeps sock w (put_client fd c w)
put_absent-Keeps sock fd c w absent = (kept, refl)
  where
    kept :
        (i : ℕ)
        → i ≢ sock
        → (w.clnt_set i).is_exist ≡ true
        → ((put_client fd c w).clnt_set i).is_exist ≡ true
    kept i ne is = elim (Bool-cases (fd == i)) [
      | inl e ↦
          (let same : fd ≡ i = (==_iff fd i).0 e in
            let at : (w.clnt_set fd).is_exist ≡ true =
              ap (λ (j : ℕ). (w.clnt_set j).is_exist) same ∙ is in
            cc)
      | inr e ↦ rw e is
    ]

module _ {A : Type 0} where
  accept_new-Keeps :
      (a : Answers A) (sock : ℕ) (w w' : World A)
      → IsFaithful a
      → accept_new a w ≡ ok w'
      → Keeps sock w w'
  unfolding accept_new
  accept_new-Keeps a sock w w' f run =
      elim (Option-cases (a.accepted (λ i. (w.clnt_set i).is_exist))) [
        | inl e ↦ (let is : w' ≡ w = ground (arith, e) in rw is ((λ i ne h. h), refl))
        | inr (fd, e) ↦
            let absent = f.is_new (λ i. (w.clnt_set i).is_exist) fd e in
            let made = create_clnt_info a.buf_granted a.send_granted a.junk tcp (w.clnt_set fd) in
            let w1 = put_client fd made.1 w in
            elim (Bool-cases made.0) [
              | inl done ↦
                  let is : w' ≡ record w1 { rdset = fd_set fd w.rdset } = ground (arith, e, done) in
                  rw is (put_absent-Keeps sock fd made.1 w absent)
              | inr fails ↦
                  let is : w' ≡ w1 = ground (arith, e, fails) in
                  rw is (put_absent-Keeps sock fd made.1 w absent)
            ]
      ]

  read_client-IsAlone :
      (a : Answers A) (fd : ℕ) (w w' : World A) → read_client a fd w ≡ ok w' → IsAlone fd w w'
  unfolding read_client
  read_client-IsAlone a fd w w' run =
      let (r, received, last) =
        bind-eq-ok (recv_clnt_data a.buf_granted a.junk a.arrival (w.clnt_set fd)) _ run in
      by_result r.0 r.1 last
    where
      by_result :
          (r : Arrival) (c' : Client)
          → elim r as (λ x. Run (World A)) [
            | arrived bs ↦ ok (record (put_client fd c' w) { wrset = fd_set fd w.wrset })
            | closed ↦ hang_up fd c' w
            | would_block ↦ ok w
            | broken ↦ fault assertion_failed
          ]
            ≡ ok w'
          → IsAlone fd w w'
      by_result (arrived bs) c' last =
          let is : w' ≡ record (put_client fd c' w) { wrset = fd_set fd w.wrset } = cc in
          rw is (put-IsAlone fd c' w)
      by_result closed c' last = hang_up-IsAlone fd c' w w' last
      by_result would_block c' last = let is : w' ≡ w = cc in rw is ((λ i ne. refl), refl)
      by_result broken c' last = absurd (cc)

  read_one-Keeps :
      (a : Answers A) (lc_sock sock : ℕ) (w w' : World A)
      → IsFaithful a
      → read_one a lc_sock sock w ≡ ok w'
      → Keeps sock w w'
  unfolding read_one read_routing
  read_one-Keeps a lc_sock sock w w' f run = by_type (w.clnt_set sock).sock_type run
    where
      by_type :
          (type : SocketType)
          → elim type as (λ x. Run (World A)) [
            | tcp ↦ if sock == lc_sock then accept_new a w else read_client a sock w
            | udp ↦ read_routing a sock w
          ]
            ≡ ok w'
          → Keeps sock w w'
      by_type tcp run = elim (Bool-cases (sock == lc_sock)) [
        | inl e ↦ accept_new-Keeps a sock w w' f (rw e at run)
        | inr e ↦ IsAlone-Keeps sock w w' (read_client-IsAlone a sock w w' (rw e at run))
      ]
      by_type udp run =
          let (r, got, is_last) = bind-eq-ok (receive (current a w) w.inbox w.daemon) _ run in
          let is : w' ≡ record w {
            inbox = r.0;
            daemon = (r.1).1;
            wrset = if (r.1).0 then fd_set sock w.wrset else w.wrset;
          } =
            cc in
          rw is ((λ i ne h. h), refl)

  -- No socket with something to read waits for a later call: in a call of `process_read` that nothing
  -- stops, where accept gives no socket that is open, each socket from the position on and below
  -- FD_SETSIZE that select reported and that is open has its turn, in ascending order, so that none
  -- has two.
  pub process_read-AllServed :
      (answers : ℕ → Answers A) (lc_sock : ℕ) (tmp : FdSet) (w w' : World A)
      → ((sock : ℕ) → IsFaithful (answers sock))
      → w.pos ≤ fd_setsize
      → process_read answers lc_sock tmp w ≡ ok w'
      → AllServed (λ sock t. read_one (answers sock) lc_sock sock t) tmp w w'
  unfolding process_read
  process_read-AllServed answers lc_sock tmp w w' f at run =
      pass-AllServed (λ sock t. read_one (answers sock) lc_sock sock t) tmp
        (λ sock t t' step. read_one-Keeps (answers sock) lc_sock sock t t' (f sock) step)
        (fd_setsize + 1) w w' at run
