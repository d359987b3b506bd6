-- ===== src/Tests/Turns.antt =====
-- src/rt_ctrl.c: one call of `process_write` and one of `process_read` for the routing socket.
use dhttp.EventLoop.ReadTurns.{process_read-AllServed}
use dhttp.Router.Datagrams.{receive}
use dhttp.Base.{length-replicate, ℕ, ◌+◌, ◌≡◌, refl, arith, ◌==◌, Run, ok}
use dhttp.EventLoop.Turns.{AllServed, process_write-AllServed}
use dhttp.EventLoop.{
  World, FdSet, pass, process_write, process_read, read_one, read_routing, write_one, write_routing,
}
use dhttp.ClientTable.{fd_setsize, get_next_fd, next_from}
use dhttp.Tests.Clients.{answers, world}

abbrev after : Run (World ℕ) → World ℕ
after (ok w) = w
after _ = world

-- the routing socket alone is ready
abbrev ready : FdSet
ready fd = fd == 3

abbrev written : World ℕ
written = after (process_write (λ sock. answers) 3 ready world)

writes : process_write (λ sock. answers) 3 ready world ≡ ok written
unfolding process_write pass get_next_fd next_from write_one write_routing
writes = refl

process_write-AllServed_example :
    AllServed (λ sock t. write_one answers 3 sock t) ready world written
    × ((more : ℕ)
        → pass (λ sock t. write_one answers 3 sock t) ready (more + (fd_setsize + 1)) world
          ≡ process_write (λ sock. answers) 3 ready world)
process_write-AllServed_example =
    process_write-AllServed 3 (λ sock. answers) ready world written (omega arith) writes

abbrev was_read : World ℕ
was_read = after (process_read (λ sock. answers) 5 ready world)

reads : process_read (λ sock. answers) 5 ready world ≡ ok was_read
unfolding process_read pass get_next_fd next_from read_one read_routing receive
reads = refl

process_read-AllServed_example :
    AllServed (λ sock t. read_one answers 5 sock t) ready world was_read
process_read-AllServed_example =
    process_read-AllServed (λ sock. answers) 5 ready world was_read
      (λ sock. record { size = length-replicate {A = ℕ} 2048 0; is_new = λ opened fd e. cc })
      (omega arith) reads
