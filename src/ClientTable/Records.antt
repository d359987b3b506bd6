-- ===== src/ClientTable/Records.antt =====
-- src/client_info.c: the life of a client's record, from its creation to its removal.
use dhttp.Base.{
  ℕ, zero, suc, ◌<◌, ◌≡◌, refl, arith, Bool, true, false, List, length, ltb, bind-eq-ok, ok, fault,
  dangling,
}
use dhttp.BufCtrl.{
  Chain, Cursor, bufblk_size, deref, get_next_byte, skip_spaces, rounds, get_next_field, free_buf,
  new_buf,
}
use dhttp.ClientTable.Buffers.{IsSound}
use dhttp.ClientTable.{SocketType, Client, create_clnt_info, update_clnt_info, get_clnt_full_req}
use dhttp.Parser.{State, update_parser, parse_method, parse_step, parse_loop, parse_req, new}

next_byte-dangling :
    (ch : Chain) (cur : Cursor) → cur.node < ch.freed → get_next_byte ch cur ≡ fault dangling
unfolding get_next_byte deref
next_byte-dangling ch cur h = let gone : ltb cur.node ch.freed ≡ true = ground arith in rw gone refl

skip_spaces-dangling :
    (ch : Chain) (fuel : ℕ) (cur : Cursor)
    → 0 < fuel
    → cur.node < ch.freed
    → skip_spaces ch fuel cur ≡ fault dangling
unfolding skip_spaces
skip_spaces-dangling ch zero cur some_fuel h = absurd (omega arith)
skip_spaces-dangling ch (suc fuel) cur some_fuel h = rw (next_byte-dangling ch cur h) refl

-- a new request is read from a freed block
parse_new-dangling :
    (ch : Chain) (s : State)
    → s.status ≡ new
    → s.cur.node < ch.freed
    → ltb s.cur.node (length ch.blocks) ≡ true
    → parse_req ch s ≡ fault dangling
unfolding parse_req parse_loop parse_step parse_method get_next_field
parse_new-dangling ch s st h here =
    rw
      (
        parse_req,
        parse_loop,
        st,
        parse_step,
        parse_method,
        get_next_field,
        here,
        skip_spaces-dangling ch (rounds ch) s.cur (omega arith) h,
      )
      refl

-- After the answer to a request that ends in a block before the current one, which is in the chain, the next byte that the
-- parser wants is in a block that `update_clnt_info` has freed: whatever was received, the next
-- call of `get_clnt_full_req` reads freed memory.
pub update_clnt_info_dangling :
    (errno : Bool) (c : Client)
    → c.parser_inf.cur.node < c.curr_buf
    → c.curr_buf < length c.chain.blocks
    → get_clnt_full_req errno (update_clnt_info c) ≡ fault dangling
unfolding get_clnt_full_req update_clnt_info update_parser free_buf
update_clnt_info_dangling errno c h inside =
    let s = record (update_parser c.parser_inf) { errno = errno } in
    let read = parse_new-dangling (free_buf c.chain c.curr_buf) s refl h (ground arith) in
    rw read refl

-- A record that is made anew has an empty stream of bytes in sound buffers; if an allocation fails
-- it exists no more than before.
pub create_clnt_info-IsSound :
    (granted send_granted : Bool) (junk : List ℕ) (type : SocketType) (c : Client)
    → length junk ≡ bufblk_size
    → (create_clnt_info granted send_granted junk type c).0 ≡ true
    → IsSound (create_clnt_info granted send_granted junk type c).1
unfolding create_clnt_info new_buf
create_clnt_info-IsSound true true junk type c size h = record {
  last = refl;
  held = omega arith;
  all_whole = ((size, omega arith), tt);
}
create_clnt_info-IsSound true false junk type c size h = cc
create_clnt_info-IsSound false send_granted junk type c size h = cc

pub update_clnt_info-IsSound : (c : Client) → IsSound c → IsSound (update_clnt_info c)
unfolding update_clnt_info free_buf
update_clnt_info-IsSound c v = record { last = v.last; held = omega arith; all_whole = v.all_whole }

pub get_clnt_full_req-IsSound :
    (errno : Bool) (c : Client) (r : Bool × Client)
    → get_clnt_full_req errno c ≡ ok r
    → IsSound c
    → IsSound r.1
unfolding get_clnt_full_req
get_clnt_full_req-IsSound errno c r e v =
    let (t, read, same) =
      bind-eq-ok (parse_req c.chain (record (c.parser_inf) { errno = errno })) _ e in
    let is : r ≡ (t.0, record c { parser_inf = t.1 }) = cc in
    rw is (record { last = v.last; held = v.held; all_whole = v.all_whole })
