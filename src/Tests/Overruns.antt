-- ===== src/Tests/Overruns.antt =====
-- src/rt_ctrl.c on a client whose ADDFILE request has a path of 256 bytes.
use dhttp.Base.{
  ℕ, ◌≡◌, refl, arith, List, [], ◌∷◌, ◌==◌, if◌then◌else◌, replicate, fault, out_of_bounds,
}
use dhttp.BufCtrl.Reads.{Reads, Reads-block}
use dhttp.BufCtrl.{deref}
use dhttp.EventLoop.Overruns.{write_one-addfile_overrun}
use dhttp.EventLoop.{World, write_one}
use dhttp.Ht.Keys.{str_to_idx}
use dhttp.Ht.{ht_find}
use dhttp.Parser.Requests.{IsLength, addfile_request}
use dhttp.Tests.Clients.{answers, world}
use dhttp.Tests.Requests.{one, object, block, chain, at, one-IsLength}

abbrev long_path : List ℕ
long_path = replicate 256 112

-- "256"
abbrev long_length : List ℕ
long_length = 50 ∷ 53 ∷ 54 ∷ []

abbrev long_request : List ℕ
long_request = addfile_request one object long_length long_path

long-IsLength : IsLength long_length long_path 512
long-IsLength = record {
  first = 50;
  others = 53 ∷ 54 ∷ [];
  splits = refl;
  decimal = (omega arith, omega arith, (omega arith, omega arith, (omega arith, omega arith, tt)));
  short = omega arith;
  value = refl;
  some_bytes = omega arith;
  few_bytes = omega arith;
}

long-Reads : Reads (chain long_request) (at 272) (at 0) long_request
unfolding deref
long-Reads =
    Reads-block (chain long_request) 0 (block long_request) 272 0 272 refl refl refl (omega arith)
      (omega arith)

abbrev long_world : World ℕ
long_world = record world {
  clnt_set = λ fd.
      if fd == 4
      then record (world.clnt_set 4) { chain = chain long_request }
      else world.clnt_set fd;
}

write_one-addfile_overrun_example : write_one answers 3 4 long_world ≡ fault out_of_bounds
unfolding ht_find str_to_idx
write_one-addfile_overrun_example =
    write_one-addfile_overrun answers 3 4 long_world refl one object long_length long_path []
      (at 272) refl refl refl refl (omega arith) (one-IsLength object 9 refl (omega arith))
      long-IsLength long-Reads refl refl (omega arith)
