-- ===== src/EventLoop/Turns.antt =====
-- src/rt_ctrl.c, `process_write`: which sockets have a turn in one call.
use dhttp.Base.{
  ℕ, zero, suc, ◌+◌, ◌≤◌, ◌<◌, ◌≡◌, ◌≢◌, refl, sym, ap, subst, ◌∙◌, arith, true, false, Bool-cases,
  Option-cases, inl, inr, dec_lt, ℕ_discrete, ◌==◌, ==_iff, Option, none, some, List, [], ◌∷◌, Run,
  ok, bind-eq-ok, ◌>>=◌,
}
use dhttp.Clients.{process_clnt_request}
use dhttp.ClientTable.Visits.{IsNext, get_next_fd-IsNext}
use dhttp.ClientTable.{
  SocketType, tcp, udp, Client, fd_setsize, get_next_fd, is_ready, get_clnt_full_req,
  need_close_clnt, send_clnt_resp, remove_clnt_info, update_clnt_info,
}
use dhttp.EventLoop.Passes.{pass_more}
use dhttp.EventLoop.{
  World, Answers, FdSet, fd_clr, put_client, current, hang_up, finish, with_response, answer,
  write_client, write_routing, write_one, pass, process_write,
}

-- the turns of one pass, in order: each socket is ready when its turn comes
pub data Turns {A : Type 0} (handle : ℕ → World A → Run (World A)) (tmp : FdSet)
    : World A → List ℕ → World A → Type 0 where
  over : {w w' : World A} → w' ≡ record w { pos = 0 } → Turns handle tmp w [] w'
  turn :
      {w t w' : World A} {sock pos : ℕ} {socks : List ℕ}
      → is_ready w.clnt_set tmp sock ≡ true
      → pos ≡ sock + 1
      → handle sock (record w { pos = pos }) ≡ ok t
      → Turns handle tmp t socks w'
      → Turns handle tmp w (sock ∷ socks) w'

-- in ascending order from a position on, so that none has two turns
abbrev pub Ascend : ℕ → List ℕ → Type 0
Ascend pos [] = Unit {0}
Ascend pos (sock ∷ socks) = (pos ≤ sock) × Ascend (sock + 1) socks

pub data Has (sock : ℕ) : List ℕ → Type 0 where
  now : {socks : List ℕ} → Has sock (sock ∷ socks)
  later : {x : ℕ} {socks : List ℕ} → Has sock socks → Has sock (x ∷ socks)

-- one socket's turn leaves the others' records, and the position
abbrev pub IsAlone : {A : Type 0} → ℕ → World A → World A → Type 0
IsAlone fd w w' = ((i : ℕ) → i ≢ fd → w'.clnt_set i ≡ w.clnt_set i) × (w'.pos ≡ w.pos)

-- the others that were open still are
abbrev pub Keeps : {A : Type 0} → ℕ → World A → World A → Type 0
Keeps fd w w' =
    ((i : ℕ) → i ≢ fd → (w.clnt_set i).is_exist ≡ true → (w'.clnt_set i).is_exist ≡ true)
    × (w'.pos ≡ w.pos)

pub IsAlone-Keeps : {A : Type 0} (fd : ℕ) (w w' : World A) → IsAlone fd w w' → Keeps fd w w'
IsAlone-Keeps fd w w' (others, same) = (λ i ne is. rw (others i ne) is, same)

ready-kept :
    (c c' : ℕ → Client) (tmp : FdSet) (fd : ℕ)
    → is_ready c tmp fd ≡ true
    → ((c fd).is_exist ≡ true → (c' fd).is_exist ≡ true)
    → is_ready c' tmp fd ≡ true
ready-kept c c' tmp fd is kept = ground arith

-- every socket that is ready from the position on has a turn
pub record AllServed {A : Type 0} (handle : ℕ → World A → Run (World A)) (tmp : FdSet)
    (w w' : World A) : Type 0 where
  pub socks : List ℕ
  pub turns : Turns handle tmp w socks w'
  pub ascend : Ascend w.pos socks
  pub all :
      (fd : ℕ) → w.pos ≤ fd → fd < fd_setsize → is_ready w.clnt_set tmp fd ≡ true → Has fd socks

module _ {A : Type 0} (handle : ℕ → World A → Run (World A)) (tmp : FdSet)
    (alone : (sock : ℕ) (w w' : World A) → handle sock w ≡ ok w' → Keeps sock w w') where
  next-AllServed :
      (fuel : ℕ) (w w' : World A) (r : Option ℕ × ℕ)
      → ((t : World A)
          → t.pos ≤ fd_setsize
          → pass handle tmp fuel t ≡ ok w'
          → AllServed handle tmp t w')
      → IsNext (is_ready w.clnt_set tmp) w.pos r
      → elim r.0 as (λ x. Run (World A)) [
        | none ↦ ok (record w { pos = r.1 })
        | some sock ↦ handle sock (record w { pos = r.1 }) >>= λ t. pass handle tmp fuel t
      ]
        ≡ ok w'
      → AllServed handle tmp w w'
  next-AllServed fuel w w' (none, pos) ih (at, nobody) run = record {
    socks = [];
    turns =
        over (
          let is : w' ≡ record w { pos = pos } = cc in
          is ∙ ap (λ (p : ℕ). record w { pos = p }) at);
    ascend = tt;
    all = λ fd le lt ready. absurd (let no = nobody fd le lt in cc);
  }
  next-AllServed fuel w w' (some sock, pos) ih (at, from, lt, ready, before) run =
      let w1 : World A = record w { pos = pos } in
      let (t, handled, last) = bind-eq-ok (handle sock w1) _ run in
      let (others, same) = alone sock w1 t handled in
      let served = ih t (omega (arith, same)) last in
      record {
        socks = sock ∷ served.socks;
        turns = turn ready at handled served.turns;
        ascend = (from, subst (λ p. Ascend p served.socks) (same ∙ at) served.ascend);
        all = λ fd le lt' is. elim (ℕ_discrete fd sock) [
          | yes e ↦ subst (λ x. Has x (sock ∷ served.socks)) (sym e) now
          | no ne ↦ elim (dec_lt fd sock) [
            | yes below ↦ absurd (let no_turn = before fd le below in cc)
            | no above ↦ later (
                served.all fd (omega (arith, same)) lt'
                  (ready-kept w.clnt_set t.clnt_set tmp fd is (others fd ne)))
          ]
        ];
      }

  pub pass-AllServed :
      (fuel : ℕ) (w w' : World A)
      → w.pos ≤ fd_setsize
      → pass handle tmp fuel w ≡ ok w'
      → AllServed handle tmp w w'
  unfolding pass
  pass-AllServed zero w w' at run = absurd (cc)
  pass-AllServed (suc fuel) w w' at run =
      next-AllServed fuel w w' (get_next_fd w.clnt_set tmp w.pos) (λ t. pass-AllServed fuel t w')
        (get_next_fd-IsNext w.clnt_set tmp w.pos at) run

pub put-IsAlone :
    {A : Type 0} (fd : ℕ) (c : Client) (w : World A) → IsAlone fd w (put_client fd c w)
put-IsAlone fd c w =
    (λ i ne. let other : (fd == i) ≡ false = ground (arith, ==_iff fd i) in rw other refl, refl)

module _ {A : Type 0} where
  pub hang_up-IsAlone :
      (fd : ℕ) (c : Client) (w w' : World A) → hang_up fd c w ≡ ok w' → IsAlone fd w w'
  unfolding hang_up
  hang_up-IsAlone fd c w w' run =
      let (c', removed, is_last) = bind-eq-ok (remove_clnt_info c) _ run in
      let is : w'
          ≡ record (put_client fd c' w) { rdset = fd_clr fd w.rdset; wrset = fd_clr fd w.wrset } =
        cc in
      rw is (put-IsAlone fd c' w)

  finish-IsAlone : (fd : ℕ) (c : Client) (w w' : World A) → finish fd c w ≡ ok w' → IsAlone fd w w'
  unfolding finish
  finish-IsAlone fd c w w' run =
      let (text, sends, last) = bind-eq-ok (send_clnt_resp c) _ run in
      let w1 : World A = record w { sent = (fd, text) ∷ w.sent } in
      elim (Bool-cases (need_close_clnt c)) [
        | inl bad ↦ hang_up-IsAlone fd c w1 w' (rw bad at last)
        | inr good ↦
            let is : w' ≡ put_client fd (update_clnt_info c) w1 = cc (rw good at last) in
            rw is (put-IsAlone fd (update_clnt_info c) w1)
      ]

module _ {A : Type 0} (rd : ℕ) where
  answer-IsAlone :
      (a : Answers A) (fd : ℕ) (c : Client) (w w' : World A)
      → answer a rd fd c w ≡ ok w'
      → IsAlone fd w w'
  unfolding answer
  answer-IsAlone a fd c w w' run = elim (Option-cases c.send_buf) [
    | inl e ↦ absurd (cc (rw e at run))
    | inr (old, e) ↦
        let ((status, (text, (objects, (need_flood, daemon)))), processed, last) =
          bind-eq-ok (process_clnt_request (current a w) a.desk c.parser_inf.req w.objects w.daemon)
            _ (rw e at run) in
        finish-IsAlone fd (with_response status text c) _ w' last
  ]

  write_client-IsAlone :
      (a : Answers A) (fd : ℕ) (w w' : World A) → write_client a rd fd w ≡ ok w' → IsAlone fd w w'
  unfolding write_client
  write_client-IsAlone a fd w w' run =
      let (r, parsed, last) = bind-eq-ok (get_clnt_full_req a.errno (w.clnt_set fd)) _ run in
      elim (Bool-cases r.0) [
        | inl e ↦ answer-IsAlone a fd r.1 w w' (rw e at last)
        | inr e ↦
            let w1 = put_client fd r.1 w in
            let is : w' ≡ record w1 { wrset = fd_clr fd w.wrset } = cc (rw e at last) in
            rw is (put-IsAlone fd r.1 w)
      ]

  write_one-IsAlone :
      (a : Answers A) (sock : ℕ) (w w' : World A)
      → write_one a rd sock w ≡ ok w'
      → IsAlone sock w w'
  unfolding write_one write_routing
  write_one-IsAlone a sock w w' run = by_type (w.clnt_set sock).sock_type run
    where
      by_type :
          (type : SocketType)
          → elim type as (λ x. Run (World A)) [
            | tcp ↦ write_client a rd sock w
            | udp ↦ ok (write_routing sock w)
          ]
            ≡ ok w'
          → IsAlone sock w w'
      by_type tcp run = write_client-IsAlone a sock w w' run
      by_type udp run = let is : w' ≡ write_routing sock w = cc in rw is ((λ i ne. refl), refl)

  -- No socket that is ready to be written waits for a later call: in a call of `process_write` that
  -- nothing stops, each socket from the position on and below FD_SETSIZE that select reported and that is
  -- open has its turn, in ascending order, so that none has two; and the loop ends by its own test,
  -- since any number of further rounds of the model gives the same run.
  pub process_write-AllServed :
      (answers : ℕ → Answers A) (tmp : FdSet) (w w' : World A)
      → w.pos ≤ fd_setsize
      → process_write answers rd tmp w ≡ ok w'
      → AllServed (λ sock t. write_one (answers sock) rd sock t) tmp w w'
        × ((more : ℕ)
            → pass (λ sock t. write_one (answers sock) rd sock t) tmp (more + (fd_setsize + 1)) w
              ≡ process_write answers rd tmp w)
  unfolding process_write
  process_write-AllServed answers tmp w w' at run = (
    pass-AllServed (λ sock t. write_one (answers sock) rd sock t) tmp
        (λ sock t t' step.
          IsAlone-Keeps sock t t' (write_one-IsAlone (answers sock) sock t t' step))
        (fd_setsize + 1) w w' at run,
    enough,
  )
    where
      enough :
          (more : ℕ)
          → pass (λ sock t. write_one (answers sock) rd sock t) tmp (more + (fd_setsize + 1)) w
            ≡ process_write answers rd tmp w
      enough zero = refl
      enough (suc more) =
          let e : suc more + (fd_setsize + 1) ≡ suc (more + (fd_setsize + 1)) = omega arith in
          rw e (
            pass_more (λ sock t. write_one (answers sock) rd sock t) tmp (λ t. Unit {0})
              (λ t pos v. tt)
              (λ sock t t' v exists step. (tt, (write_one-IsAlone (answers sock) sock t t' step).1))
              (more + (fd_setsize + 1)) w at (omega arith) tt
            ∙ enough more)
