-- ===== src/EventLoop/Passes.antt =====
-- src/rt_ctrl.c, `process_read` and `process_write`: the loop over the sockets of a set.
use dhttp.Base.{
  ℕ, zero, suc, ◌+◌, ◌-◌, ◌≤◌, ◌<◌, ◌≡◌, refl, arith, true, Option, none, some, Run, Fault, ok,
  fault, bind-eq-ok, ◌>>=◌,
}
use dhttp.ClientTable.Visits.{IsNext, get_next_fd-IsNext}
use dhttp.ClientTable.{fd_setsize, get_next_fd, is_ready}
use dhttp.EventLoop.Reading.{read_one-IsServing}
use dhttp.EventLoop.Serving.{IsFaithful, IsServing, other-IsServing}
use dhttp.EventLoop.Writing.{write_one-IsServing}
use dhttp.EventLoop.{World, Answers, FdSet, pass, read_one, write_one, process_read, process_write}

-- The finite runs of the loop over the sockets of `tmp`, with no bound on the rounds.
pub data Ran {A : Type 0} (handle : ℕ → World A → Run (World A)) (tmp : FdSet)
    : World A → Run (World A) → Type 0 where
  -- no socket is ready from the position on
  over :
      {w : World A} {pos : ℕ}
      → get_next_fd w.clnt_set tmp w.pos ≡ (none, pos)
      → Ran handle tmp w (ok (record w { pos = pos }))
  -- serving the next socket stops the program
  stopped :
      {w : World A} {sock pos : ℕ} {why : Fault}
      → get_next_fd w.clnt_set tmp w.pos ≡ (some sock, pos)
      → handle sock (record w { pos = pos }) ≡ fault why
      → Ran handle tmp w (fault why)
  -- the next socket is served, and the loop goes on
  went_on :
      {w t : World A} {r : Run (World A)} {sock pos : ℕ}
      → get_next_fd w.clnt_set tmp w.pos ≡ (some sock, pos)
      → handle sock (record w { pos = pos }) ≡ ok t
      → Ran handle tmp t r
      → Ran handle tmp w r

module _ {A : Type 0} (handle : ℕ → World A → Run (World A)) (tmp : FdSet) (P : World A → Type 0)
    (moves : (w : World A) (pos : ℕ) → P w → P (record w { pos = pos }))
    (keeps : (sock : ℕ) (w w' : World A)
      → P w
      → (w.clnt_set sock).is_exist ≡ true
      → handle sock w ≡ ok w'
      → P w' × (w'.pos ≡ w.pos)) where
  -- the rest of a round, for what `get_next_fd` gives
  abbrev goes_on : ℕ → World A → Option ℕ × ℕ → Run (World A)
  goes_on fuel w r = elim r.0 [
    | none ↦ ok (record w { pos = r.1 })
    | some sock ↦ handle sock (record w { pos = r.1 }) >>= λ t. pass handle tmp fuel t
  ]

  -- the socket that is handled exists
  exists_next :
      (w : World A) (sock : ℕ)
      → is_ready w.clnt_set tmp sock ≡ true
      → (w.clnt_set sock).is_exist ≡ true
  exists_next w sock h = ground arith

  next-keeps :
      (fuel : ℕ) (w w' : World A) (r : Option ℕ × ℕ)
      → ((t : World A)
          → t.pos ≤ fd_setsize
          → P t
          → pass handle tmp fuel t ≡ ok w'
          → P w' × (w'.pos ≡ 0))
      → P w
      → IsNext (is_ready w.clnt_set tmp) w.pos r
      → goes_on fuel w r ≡ ok w'
      → P w' × (w'.pos ≡ 0)
  next-keeps fuel w w' (none, pos) ih v next run =
      let is : w' ≡ record w { pos = pos } = cc in rw is (moves w pos v, next.0)
  next-keeps fuel w w' (some sock, pos) ih v next run =
      let w1 : World A = record w { pos = pos } in
      let (t, handled, last) = bind-eq-ok (handle sock w1) _ run in
      let (v', same) = keeps sock w1 t (moves w pos v) (exists_next w sock next.3) handled in
      let at = next.0 in let lt = next.2 in ih t (rw same (omega arith)) v' last

  -- What the body keeps for a socket that exists, the loop keeps; and it leaves the position at 0.
  pub pass-keeps :
      (fuel : ℕ) (w w' : World A)
      → w.pos ≤ fd_setsize
      → P w
      → pass handle tmp fuel w ≡ ok w'
      → P w' × (w'.pos ≡ 0)
  unfolding pass
  pass-keeps zero w w' at v run = absurd (cc)
  pass-keeps (suc fuel) w w' at v run =
      next-keeps fuel w w' (get_next_fd w.clnt_set tmp w.pos) (λ t. pass-keeps fuel t w') v
        (get_next_fd-IsNext w.clnt_set tmp w.pos at) run

  next-Ran :
      (fuel : ℕ) (w : World A) (r : Option ℕ × ℕ)
      → ((t : World A)
          → t.pos ≤ fd_setsize
          → fd_setsize - t.pos < fuel
          → P t
          → Ran handle tmp t (pass handle tmp fuel t))
      → P w
      → fd_setsize - w.pos < suc fuel
      → get_next_fd w.clnt_set tmp w.pos ≡ r
      → IsNext (is_ready w.clnt_set tmp) w.pos r
      → Ran handle tmp w (goes_on fuel w r)
  next-Ran fuel w (none, pos) ih v enough is next = over is
  next-Ran fuel w (some sock, pos) ih v enough is next =
      let w1 : World A = record w { pos = pos } in by_run (handle sock w1) refl
    where
      by_run :
          (h : Run (World A))
          → handle sock (record w { pos = pos }) ≡ h
          → Ran handle tmp w (h >>= λ t. pass handle tmp fuel t)
      by_run (fault why) handled = stopped is handled
      by_run (ok t) handled =
          let (v', same) =
            keeps sock (record w { pos = pos }) t (moves w pos v) (exists_next w sock next.3)
              handled in
          let at = next.0 in
          let from = next.1 in
          let lt = next.2 in
          went_on is handled (ih t (rw same (omega arith)) (rw same (omega arith)) v')

  -- With one round more than there are positions left, what the model gives is a finite run of the
  -- loop.
  pub pass-Ran :
      (fuel : ℕ) (w : World A)
      → w.pos ≤ fd_setsize
      → fd_setsize - w.pos < fuel
      → P w
      → Ran handle tmp w (pass handle tmp fuel w)
  unfolding pass
  pass-Ran zero w at enough v = absurd (omega arith)
  pass-Ran (suc fuel) w at enough v =
      next-Ran fuel w (get_next_fd w.clnt_set tmp w.pos) (λ t. pass-Ran fuel t) v enough refl
        (get_next_fd-IsNext w.clnt_set tmp w.pos at)

  next_more :
      (fuel : ℕ) (w : World A) (r : Option ℕ × ℕ)
      → ((t : World A)
          → t.pos ≤ fd_setsize
          → fd_setsize - t.pos < fuel
          → P t
          → pass handle tmp (suc fuel) t ≡ pass handle tmp fuel t)
      → P w
      → fd_setsize - w.pos < suc fuel
      → IsNext (is_ready w.clnt_set tmp) w.pos r
      → goes_on (suc fuel) w r ≡ goes_on fuel w r
  next_more fuel w (none, pos) ih v enough next = refl
  next_more fuel w (some sock, pos) ih v enough next =
      let w1 : World A = record w { pos = pos } in by_run (handle sock w1) refl
    where
      by_run :
          (h : Run (World A))
          → handle sock (record w { pos = pos }) ≡ h
          → (h >>= λ t. pass handle tmp (suc fuel) t) ≡ (h >>= λ t. pass handle tmp fuel t)
      by_run (fault why) handled = refl
      by_run (ok t) handled =
          let (v', same) =
            keeps sock (record w { pos = pos }) t (moves w pos v) (exists_next w sock next.3)
              handled in
          let at = next.0 in
          let from = next.1 in
          let lt = next.2 in ih t (rw same (omega arith)) (rw same (omega arith)) v'

  -- The loop ends by its own test: with one round more than there are positions left, a further round
  -- changes nothing.
  pub pass_more :
      (fuel : ℕ) (w : World A)
      → w.pos ≤ fd_setsize
      → fd_setsize - w.pos < fuel
      → P w
      → pass handle tmp (suc fuel) w ≡ pass handle tmp fuel w
  unfolding pass
  pass_more zero w at enough v = absurd (omega arith)
  pass_more (suc fuel) w at enough v =
      next_more fuel w (get_next_fd w.clnt_set tmp w.pos) (λ t. pass_more fuel t) v enough
        (get_next_fd-IsNext w.clnt_set tmp w.pos at)

module _ {A : Type 0} (rd : ℕ) where
  position : (w : World A) (pos : ℕ) → IsServing rd w → IsServing rd (record w { pos = pos })
  position w pos v = other-IsServing rd w pos w.daemon w.objects w.inbox w.sent v

  -- If accept gives no socket that is open and memory blocks have their size, a call of
  -- `process_read` that nothing stops keeps what holds between two calls: all sockets that select
  -- waits for are open, the routing socket among them, and all clients' buffers are sound.
  pub process_read-IsServing :
      (answers : ℕ → Answers A) (lc_sock : ℕ) (tmp : FdSet) (w w' : World A)
      → ((sock : ℕ) → IsFaithful (answers sock))
      → w.pos ≤ fd_setsize
      → IsServing rd w
      → process_read answers lc_sock tmp w ≡ ok w'
      → IsServing rd w' × (w'.pos ≡ 0)
  unfolding process_read
  process_read-IsServing answers lc_sock tmp w w' f at v run =
      pass-keeps (λ sock t. read_one (answers sock) lc_sock sock t) tmp (IsServing rd) position
        (λ sock t t' u exists step.
          read_one-IsServing rd (answers sock) lc_sock sock t t' (f sock) u exists step)
        (fd_setsize + 1) w w' at v run

  -- So does a call of `process_write`, whatever the system answers.
  pub process_write-IsServing :
      (answers : ℕ → Answers A) (tmp : FdSet) (w w' : World A)
      → w.pos ≤ fd_setsize
      → IsServing rd w
      → process_write answers rd tmp w ≡ ok w'
      → IsServing rd w' × (w'.pos ≡ 0)
  unfolding process_write
  process_write-IsServing answers tmp w w' at v run =
      pass-keeps (λ sock t. write_one (answers sock) rd sock t) tmp (IsServing rd) position
        (λ sock t t' u exists step. write_one-IsServing rd (answers sock) sock t t' u exists step)
        (fd_setsize + 1) w w' at v run

  -- The loop of `process_read` ends. If accept gives no socket that is open, memory blocks have their
  -- size, and the sockets that select waits for are open and the clients' buffers sound, then from a
  -- position in the set the run is a finite run of the loop, which ends where no further socket is
  -- ready or where serving one stops, whatever bound on the rounds the model has.
  pub process_read-Ran :
      (answers : ℕ → Answers A) (lc_sock : ℕ) (tmp : FdSet) (w : World A)
      → ((sock : ℕ) → IsFaithful (answers sock))
      → w.pos ≤ fd_setsize
      → IsServing rd w
      → Ran
          (λ sock t. read_one (answers sock) lc_sock sock t)
          tmp
          w
          (process_read answers lc_sock tmp w)
  unfolding process_read
  process_read-Ran answers lc_sock tmp w f at v =
      pass-Ran (λ sock t. read_one (answers sock) lc_sock sock t) tmp (IsServing rd) position
        (λ sock t t' u exists step.
          read_one-IsServing rd (answers sock) lc_sock sock t t' (f sock) u exists step)
        (fd_setsize + 1) w at (omega arith) v
