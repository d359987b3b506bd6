-- ===== src/Routed/Served.antt =====
-- src/routed.c: from the start of the daemon on, in every round of its loop.
use dhttp.Base.{
  ℕ, ◌≡◌, arith, ◌&&◌, Bool-cases, inl, inr, List, [], ◌∷◌, if◌then◌else◌, Run, ok, fault,
  assertion_failed, bind-eq-ok, ◌>>=◌,
}
use dhttp.EventLoop.Passes.{process_read-IsServing, process_write-IsServing}
use dhttp.EventLoop.Serving.{IsFaithful, IsServing, other-IsServing, write_if-IsServing}
use dhttp.EventLoop.{World, Answers, fd_set, current, process_read, process_write}
use dhttp.Router.{handle_time_out}
use dhttp.Routed.{
  Selected, ready, idle, failed, Round, check_time, check_interval, is_timeout, round, rounds,
}

-- the system's answers while sockets are read
abbrev pub AllFaithful : {A : Type 0} → List (Round A) → Type 0
AllFaithful [] = Unit {0}
AllFaithful (r ∷ rs) = ((sock : ℕ) → IsFaithful (r.reads sock)) × AllFaithful rs

module _ {A : Type 0} (lc rd : ℕ) where
  check_time-IsServing :
      (a : Answers A) (tv_usec : ℕ) (w w' : World A)
      → IsServing rd w × (w.pos ≡ 0)
      → check_time lc rd a tv_usec w ≡ ok w'
      → IsServing rd w' × (w'.pos ≡ 0)
  unfolding check_time
  check_time-IsServing a tv_usec w w' (v, at) run = elim (Bool-cases (is_timeout tv_usec)) [
    | inr e ↦ (let is : w' ≡ w = cc (rw e at run) in rw is (v, at))
    | inl e ↦
        let (t, handled, last) =
          bind-eq-ok (handle_time_out (current a w) check_interval w.daemon) _ (rw e at run) in
        let w1 : World A = record w { daemon = t.1 } in
        let v1 = other-IsServing rd w w.pos t.1 w.objects w.inbox w.sent v in
        let is : w' ≡ record w1 { wrset = if t.0 then fd_set rd w.wrset else w.wrset } = cc in
        rw is (write_if-IsServing rd w1 rd t.0 v1 v.routing, at)
  ]

  round-IsServing :
      (r : Round A) (w w' : World A)
      → ((sock : ℕ) → IsFaithful (r.reads sock))
      → IsServing rd w × (w.pos ≡ 0)
      → round lc rd r w ≡ ok w'
      → IsServing rd w' × (w'.pos ≡ 0)
  unfolding round
  round-IsServing r w w' f v run = by_selected r.selected run
    where
      by_selected :
          (s : Selected)
          → elim s as (λ x. Run (World A)) [
            | ready rs ws tv_usec ↦ process_read r.reads lc (λ i. rs i && w.rdset i) w >>= λ w1.
                process_write r.writes rd (λ i. ws i && w.wrset i) w1 >>= λ w2.
                check_time lc rd r.late tv_usec w2
            | idle tv_usec ↦ check_time lc rd r.late tv_usec w
            | failed ↦ fault assertion_failed
          ]
            ≡ ok w'
          → IsServing rd w' × (w'.pos ≡ 0)
      by_selected (ready rs ws tv_usec) run =
          let (w1, did_read, after) =
            bind-eq-ok (process_read r.reads lc (λ i. rs i && w.rdset i) w) _ run in
          let (w2, did_write, last) =
            bind-eq-ok (process_write r.writes rd (λ i. ws i && w.wrset i) w1) _ after in
          let v1 =
            process_read-IsServing rd r.reads lc _ w w1 f (omega (arith, v.1)) v.0 did_read in
          let v2 =
            process_write-IsServing rd r.writes _ w1 w2 (omega (arith, v1.1)) v1.0 did_write in
          check_time-IsServing r.late tv_usec w2 w' v2 last
      by_selected (idle tv_usec) run = check_time-IsServing r.late tv_usec w w' v run
      by_selected failed run = absurd (cc)

  pub rounds-IsServing :
      (rs : List (Round A)) (w w' : World A)
      → AllFaithful rs
      → IsServing rd w × (w.pos ≡ 0)
      → rounds lc rd rs w ≡ ok w'
      → IsServing rd w' × (w'.pos ≡ 0)
  unfolding rounds
  rounds-IsServing [] w w' f v run = (let is : w' ≡ w = cc in rw is v)
  rounds-IsServing (r ∷ rs) w w' f v run =
      let (w1, first, rest) = bind-eq-ok (round lc rd r w) _ run in
      rounds-IsServing rs w1 w' f.1 (round-IsServing r w w1 f.0 v first) rest
