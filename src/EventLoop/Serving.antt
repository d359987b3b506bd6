-- ===== src/EventLoop/Serving.antt =====
-- src/rt_ctrl.c: what holds between two calls: the sockets that select waits for are open, the routing
-- socket among them, and the buffers of all clients are sound.
use dhttp.Base.{
  ℕ, ◌≡◌, ◌≢◌, refl, arith, Bool, true, false, Bool-cases, inl, inr, some, List, length, ◌==◌,
  ==_iff, if◌then◌else◌, ok, bind-eq-ok,
}
use dhttp.BufCtrl.{bufblk_size}
use dhttp.ClientTable.Buffers.{IsSound}
use dhttp.ClientTable.{tcp, udp, Client, remove_clnt_info}
use dhttp.Config.{Files}
use dhttp.Router.{Daemon}
use dhttp.Router.Datagrams.{Datagram}
use dhttp.EventLoop.{World, Answers, fd_set, fd_clr, put_client, hang_up}

-- What the system answers: accept gives a socket that is not open, and a block has its size.
pub record IsFaithful {A : Type 0} (a : Answers A) : Type 0 where
  pub size : length a.junk ≡ bufblk_size
  pub is_new : (opened : ℕ → Bool) (fd : ℕ) → a.accepted opened ≡ some fd → opened fd ≡ false

pub record IsServing {A : Type 0} (rd : ℕ) (w : World A) : Type 0 where
  pub reads : (fd : ℕ) → w.rdset fd ≡ true → (w.clnt_set fd).is_exist ≡ true
  pub writes : (fd : ℕ) → w.wrset fd ≡ true → (w.clnt_set fd).is_exist ≡ true
  pub sound : (fd : ℕ) → (w.clnt_set fd).is_exist ≡ true → IsSound (w.clnt_set fd)
  pub routing : (w.clnt_set rd).is_exist ≡ true
  pub is_udp : (w.clnt_set rd).sock_type ≡ udp

module _ {A : Type 0} (rd : ℕ) where
  -- a client's socket is not the routing socket
  pub tcp-ne : (w : World A) (fd : ℕ) → IsServing rd w → (w.clnt_set fd).sock_type ≡ tcp → fd ≢ rd
  tcp-ne w fd v is_tcp same = (let u = v.is_udp in cc)

  -- what the sockets do not stand in may change
  pub other-IsServing :
      (w : World A) (pos : ℕ) (daemon : Daemon A) (objects : Files) (inbox : List (Datagram A))
      (sent : List (ℕ × List ℕ))
      → IsServing rd w
      → IsServing rd
          (record w { pos = pos; daemon = daemon; objects = objects; inbox = inbox; sent = sent })
  other-IsServing w pos daemon objects inbox sent v = record {
    reads = v.reads;
    writes = v.writes;
    sound = v.sound;
    routing = v.routing;
    is_udp = v.is_udp;
  }

  -- another record for a socket, which exists and has sound buffers
  pub put-IsServing :
      (w : World A) (fd : ℕ) (c : Client)
      → IsServing rd w
      → fd ≢ rd
      → c.is_exist ≡ true
      → IsSound c
      → IsServing rd (put_client fd c w)
  put-IsServing w fd c v ne exists sound =
      let other : (fd == rd) ≡ false = ground (arith, ==_iff fd rd) in
      record {
        reads =
            λ i h. elim (Bool-cases (fd == i)) [ inl e ↦ rw e exists | inr e ↦ rw e (v.reads i h) ];
        writes = λ i h. elim (Bool-cases (fd == i)) [
          | inl e ↦ rw e exists
          | inr e ↦ rw e (v.writes i h)
        ];
        sound = λ i. elim (Bool-cases (fd == i)) [
          | inl e ↦ rw e (λ h. sound)
          | inr e ↦ rw e (v.sound i)
        ];
        routing = rw other v.routing;
        is_udp = rw other v.is_udp;
      }

  -- a socket that exists enters a set, or one leaves it
  pub read_set-IsServing :
      (w : World A) (fd : ℕ)
      → IsServing rd w
      → (w.clnt_set fd).is_exist ≡ true
      → IsServing rd (record w { rdset = fd_set fd w.rdset })
  read_set-IsServing w fd v exists = record {
    reads = λ i. elim (Bool-cases (fd == i)) [
      | inl e ↦ (let same : fd ≡ i = (==_iff fd i).0 e in rw (← same) (λ h. exists))
      | inr e ↦ rw e (v.reads i)
    ];
    writes = v.writes;
    sound = v.sound;
    routing = v.routing;
    is_udp = v.is_udp;
  }

  pub write_set-IsServing :
      (w : World A) (fd : ℕ)
      → IsServing rd w
      → (w.clnt_set fd).is_exist ≡ true
      → IsServing rd (record w { wrset = fd_set fd w.wrset })
  write_set-IsServing w fd v exists = record {
    reads = v.reads;
    writes = λ i. elim (Bool-cases (fd == i)) [
      | inl e ↦ (let same : fd ≡ i = (==_iff fd i).0 e in rw (← same) (λ h. exists))
      | inr e ↦ rw e (v.writes i)
    ];
    sound = v.sound;
    routing = v.routing;
    is_udp = v.is_udp;
  }

  pub write_clr-IsServing :
      (w : World A) (fd : ℕ)
      → IsServing rd w
      → IsServing rd (record w { wrset = fd_clr fd w.wrset })
  write_clr-IsServing w fd v = record {
    reads = v.reads;
    writes =
        λ i. elim (Bool-cases (fd == i)) [ inl e ↦ rw e (λ h. cc) | inr e ↦ rw e (v.writes i) ];
    sound = v.sound;
    routing = v.routing;
    is_udp = v.is_udp;
  }

  -- a socket is set where there is something to send
  pub write_if-IsServing :
      (w : World A) (fd : ℕ) (b : Bool)
      → IsServing rd w
      → (w.clnt_set fd).is_exist ≡ true
      → IsServing rd (record w { wrset = if b then fd_set fd w.wrset else w.wrset })
  write_if-IsServing w fd true v exists = write_set-IsServing w fd v exists
  write_if-IsServing w fd false v exists =
      other-IsServing w w.pos w.daemon w.objects w.inbox w.sent v

  -- A closed socket leaves both sets with its record.
  pub hang_up-IsServing :
      (w w' : World A) (fd : ℕ) (c : Client)
      → IsServing rd w
      → fd ≢ rd
      → hang_up fd c w ≡ ok w'
      → IsServing rd w' × (w'.pos ≡ w.pos)
  unfolding hang_up remove_clnt_info
  hang_up-IsServing w w' fd c v ne run =
      let (c', removed, is_last) = bind-eq-ok (remove_clnt_info c) _ run in
      let gone : c'.is_exist ≡ false = ground arith in
      let other : (fd == rd) ≡ false = ground (arith, ==_iff fd rd) in
      let w_is : w'
          ≡ record (put_client fd c' w) { rdset = fd_clr fd w.rdset; wrset = fd_clr fd w.wrset } =
        cc in
      rw w_is (
        record {
          reads = λ i. elim (Bool-cases (fd == i)) [
            | inl e ↦ rw e (λ h. cc)
            | inr e ↦ rw e (v.reads i)
          ];
          writes = λ i. elim (Bool-cases (fd == i)) [
            | inl e ↦ rw e (λ h. cc)
            | inr e ↦ rw e (v.writes i)
          ];
          sound = λ i. elim (Bool-cases (fd == i)) [
            | inl e ↦ rw e (λ h. cc)
            | inr e ↦ rw e (v.sound i)
          ];
          routing = rw other v.routing;
          is_udp = rw other v.is_udp;
        },
        refl,
      )
