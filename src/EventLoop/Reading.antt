-- ===== src/EventLoop/Reading.antt =====
-- src/rt_ctrl.c, the body of `process_read`: it keeps what holds between two calls.
use dhttp.Base.{
  ℕ, ◌≡◌, ◌≢◌, refl, ◌∙◌, arith, Bool, true, false, Bool-cases, inl, inr, Option-cases, ◌==◌,
  ==_iff, if◌then◌else◌, Run, ok, fault, assertion_failed, bind-eq-ok, List,
}
use dhttp.BufCtrl.{new_buf}
use dhttp.ClientTable.Buffers.{IsSound, recv_clnt_data-IsExtended}
use dhttp.ClientTable.Records.{create_clnt_info-IsSound}
use dhttp.ClientTable.{
  SocketType, tcp, udp, Client, Arrival, arrived, closed, would_block, broken, create_clnt_info,
}
use dhttp.EventLoop.Serving.{
  IsFaithful, IsServing, tcp-ne, other-IsServing, put-IsServing, read_set-IsServing,
  write_set-IsServing, write_if-IsServing, hang_up-IsServing,
}
use dhttp.EventLoop.{
  World, Answers, fd_set, put_client, current, accept_new, hang_up, read_client, read_routing,
  read_one,
}
use dhttp.Router.Datagrams.{receive}

-- a record that was made exists; one that was not exists no more than before
create-exists :
    (granted send_granted : Bool) (junk : List ℕ) (type : SocketType) (c : Client)
    → (create_clnt_info granted send_granted junk type c).0 ≡ true
    → (create_clnt_info granted send_granted junk type c).1.is_exist ≡ true
unfolding create_clnt_info new_buf
create-exists true true junk type c h = refl
create-exists true false junk type c h = cc
create-exists false send_granted junk type c h = cc

create_fails :
    (granted send_granted : Bool) (junk : List ℕ) (type : SocketType) (c : Client)
    → (create_clnt_info granted send_granted junk type c).0 ≡ false
    → (create_clnt_info granted send_granted junk type c).1.is_exist ≡ c.is_exist
unfolding create_clnt_info new_buf
create_fails true true junk type c h = cc
create_fails true false junk type c h = refl
create_fails false send_granted junk type c h = refl

module _ {A : Type 0} (rd : ℕ) where
  -- a record that does not exist may hold anything
  put_absent-IsServing :
      (w : World A) (fd : ℕ) (c : Client)
      → IsServing rd w
      → (w.clnt_set fd).is_exist ≡ false
      → c.is_exist ≡ false
      → IsServing rd (put_client fd c w)
  put_absent-IsServing w fd c v absent gone =
      let ne : fd ≢ rd = λ e. (let r = v.routing in cc) in
      let other : (fd == rd) ≡ false = ground (arith, ==_iff fd rd) in
      record {
        reads = λ i h. elim (Bool-cases (fd == i)) [
          | inl e ↦ (let same : fd ≡ i = (==_iff fd i).0 e in let r = v.reads i h in cc)
          | inr e ↦ rw e (v.reads i h)
        ];
        writes = λ i h. elim (Bool-cases (fd == i)) [
          | inl e ↦ (let same : fd ≡ i = (==_iff fd i).0 e in let r = v.writes i h in cc)
          | inr e ↦ rw e (v.writes i h)
        ];
        sound =
            λ i. elim (Bool-cases (fd == i)) [ inl e ↦ rw e (λ h. cc) | inr e ↦ rw e (v.sound i) ];
        routing = rw other v.routing;
        is_udp = rw other v.is_udp;
      }

  accept_new-IsServing :
      (a : Answers A) (w w' : World A)
      → IsFaithful a
      → IsServing rd w
      → accept_new a w ≡ ok w'
      → IsServing rd w' × (w'.pos ≡ w.pos)
  unfolding accept_new
  accept_new-IsServing a w w' f v run =
      elim (Option-cases (a.accepted (λ i. (w.clnt_set i).is_exist))) [
        | inl e ↦ (let is : w' ≡ w = ground (arith, e) in rw is (v, refl))
        | inr (fd, e) ↦
            let absent = f.is_new (λ i. (w.clnt_set i).is_exist) fd e in
            let ne : fd ≢ rd = λ same. (let r = v.routing in cc) in
            let made = create_clnt_info a.buf_granted a.send_granted a.junk tcp (w.clnt_set fd) in
            let w1 = put_client fd made.1 w in
            elim (Bool-cases made.0) [
              | inl done ↦
                  let is : w' ≡ record w1 { rdset = fd_set fd w.rdset } = ground (arith, e, done) in
                  let v1 =
                    put-IsServing rd w fd made.1 v ne (create-exists _ _ _ _ _ done)
                      (create_clnt_info-IsSound _ _ _ _ _ f.size done) in
                  let own : (w1.clnt_set fd).is_exist ≡ true =
                    ground (arith, create-exists _ _ _ _ _ done) in
                  rw is (read_set-IsServing rd w1 fd v1 own, refl)
              | inr fails ↦
                  let is : w' ≡ w1 = ground (arith, e, fails) in
                  rw is (
                    put_absent-IsServing w fd made.1 v absent
                        (create_fails _ _ _ _ _ fails ∙ absent),
                    refl,
                  )
            ]
      ]

  read_routing-IsServing :
      (a : Answers A) (fd : ℕ) (w w' : World A)
      → IsServing rd w
      → (w.clnt_set fd).is_exist ≡ true
      → read_routing a fd w ≡ ok w'
      → IsServing rd w' × (w'.pos ≡ w.pos)
  unfolding read_routing
  read_routing-IsServing a fd w w' v exists run =
      let (r, got, is_last) = bind-eq-ok (receive (current a w) w.inbox w.daemon) _ run in
      let v' = other-IsServing rd w w.pos (r.1).1 w.objects r.0 w.sent v in
      let after : World A = record w { inbox = r.0; daemon = (r.1).1 } in
      let is : w' ≡ record after { wrset = if (r.1).0 then fd_set fd w.wrset else w.wrset } = cc in
      rw is (write_if-IsServing rd after fd (r.1).0 v' exists, refl)

  read_client-IsServing :
      (a : Answers A) (fd : ℕ) (w w' : World A)
      → IsFaithful a
      → IsServing rd w
      → (w.clnt_set fd).is_exist ≡ true
      → fd ≢ rd
      → read_client a fd w ≡ ok w'
      → IsServing rd w' × (w'.pos ≡ w.pos)
  unfolding read_client
  read_client-IsServing a fd w w' f v exists ne run =
      let c = w.clnt_set fd in
      let (r, received, (taken, (sound, stream, freed, exist, parser, send_buf, send_len, type))) =
        recv_clnt_data-IsExtended a.buf_granted a.junk a.arrival c (v.sound fd exists) f.size in
      by_result r.0 r.1 sound (exist ∙ exists) (rw received at run)
    where
      by_result :
          (r : Arrival) (c' : Client)
          → IsSound c'
          → c'.is_exist ≡ true
          → elim r as (λ x. Run (World A)) [
            | arrived bs ↦ ok (record (put_client fd c' w) { wrset = fd_set fd w.wrset })
            | closed ↦ hang_up fd c' w
            | would_block ↦ ok w
            | broken ↦ fault assertion_failed
          ]
            ≡ ok w'
          → IsServing rd w' × (w'.pos ≡ w.pos)
      by_result (arrived bs) c' sound exist last =
          let w1 = put_client fd c' w in
          let v1 = put-IsServing rd w fd c' v ne exist sound in
          let own : (w1.clnt_set fd).is_exist ≡ true = ground arith in
          let is : w' ≡ record w1 { wrset = fd_set fd w.wrset } = cc in
          rw is (write_set-IsServing rd w1 fd v1 own, refl)
      by_result closed c' sound exist last = hang_up-IsServing rd w w' fd c' v ne last
      by_result would_block c' sound exist last = (let is : w' ≡ w = cc in rw is (v, refl))
      by_result broken c' sound exist last = absurd (cc)

  -- One socket that is read, if nothing fails, keeps what holds between two calls, and the position.
  pub read_one-IsServing :
      (a : Answers A) (lc_sock sock : ℕ) (w w' : World A)
      → IsFaithful a
      → IsServing rd w
      → (w.clnt_set sock).is_exist ≡ true
      → read_one a lc_sock sock w ≡ ok w'
      → IsServing rd w' × (w'.pos ≡ w.pos)
  unfolding read_one
  read_one-IsServing a lc_sock sock w w' f v exists run =
      by_type (w.clnt_set sock).sock_type refl run
    where
      by_type :
          (type : SocketType)
          → (w.clnt_set sock).sock_type ≡ type
          → elim type as (λ x. Run (World A)) [
            | tcp ↦ if sock == lc_sock then accept_new a w else read_client a sock w
            | udp ↦ read_routing a sock w
          ]
            ≡ ok w'
          → IsServing rd w' × (w'.pos ≡ w.pos)
      by_type tcp is_tcp run = elim (Bool-cases (sock == lc_sock)) [
        | inl e ↦ accept_new-IsServing a w w' f v (rw e at run)
        | inr e ↦
            read_client-IsServing a sock w w' f v exists (tcp-ne rd w sock v is_tcp) (rw e at run)
      ]
      by_type udp is_udp run = read_routing-IsServing a sock w w' v exists run
