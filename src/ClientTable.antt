-- ===== src/ClientTable.antt =====
-- src/client_info.c: the record of one socket in `clnt_set`, and what is done with it.
-- The two pointers into the receive buffers are one Chain, whose first node that is not freed is
-- `first_buf`, and a position in it: a position past the last node is NULL. The list `pd_lsa_head`
-- of the routing socket is the outbox of the daemon; no other socket has one.
mod Blocks
pub mod Buffers
pub mod Visits
pub mod Records
use dhttp.Base.{
  ℕ, zero, suc, ◌+◌, ◌-◌, Bool, true, false, ◌&&◌, Option, none, some, List, [], ◌∷◌, ◌++◌, length,
  take, drop, set, ◌==◌, if◌then◌else◌, Run, ok, fault, assertion_failed, null_pointer, or_fault,
  ◌>>=◌,
}
use dhttp.BufCtrl.{Buf, Chain, bufblk_size, deref, new_buf, extend_buf, free_buf}
use dhttp.Parser.{RequestStatus, error_bad_request, State, init_parser, update_parser, parse_req}

abbrev pub fd_setsize : ℕ
fd_setsize = 1024

pub data SocketType : Type 0 where
  tcp udp : SocketType

-- `send_buf` holds what was written there, and is NULL where it is `none`
pub record Client : Type 0 where
  pub sock_type : SocketType
  pub is_exist : Bool
  pub chain : Chain
  pub curr_buf : ℕ
  pub send_buf : Option (List ℕ)
  pub send_len : ℕ
  pub parser_inf : State

-- all nodes are freed, and both pointers are NULL
abbrev pub without_buffers : Client → Client
without_buffers c =
    let n = length c.chain.blocks in record c { chain = free_buf c.chain n; curr_buf = n }

-- the answers of the two mallocs, and what is in the block
unfoldable pub create_clnt_info : Bool → Bool → List ℕ → SocketType → Client → Bool × Client
create_clnt_info buf_granted send_granted junk type c =
    let typed = record c { sock_type = type } in
    elim (new_buf buf_granted junk) [
      | none ↦ (false, typed)
      | some b ↦
          let fresh = record typed {
            chain = record { blocks = b ∷ []; freed = 0 };
            curr_buf = 0;
          } in
          if send_granted
          then (
            true,
            record fresh {
              send_buf = some [];
              parser_inf = init_parser 0 c.parser_inf;
              is_exist = true;
            },
          )
          else (false, without_buffers fresh)
    ]

unfoldable pub remove_clnt_info : Client → Run Client
remove_clnt_info c =
    if c.is_exist
    then ok (record (without_buffers c) { send_buf = none; is_exist = false })
    else fault assertion_failed

-- after a request that was answered: the nodes before `curr_buf` are freed
unfoldable pub update_clnt_info : Client → Client
update_clnt_info c = record c {
  parser_inf = update_parser c.parser_inf;
  chain = free_buf c.chain c.curr_buf;
}

-- What waits at the socket when `recv` is called: bytes, the end of the stream, nothing, or an error.
-- It is the result too: bytes for a positive number, `closed` for 0, and -1 with errno.
pub data Arrival : Type 0 where
  arrived : List ℕ → Arrival
  closed would_block broken : Arrival

-- no byte is 0, as at the end of the stream
abbrev pub given : List ℕ → Arrival
given [] = closed
given (c ∷ bs) = arrived (c ∷ bs)

-- `recv` into a place for `room` bytes, which takes no more than they
unfoldable pub recv : ℕ → Arrival → Arrival
recv room (arrived bs) = given (take room bs)
recv room a = a

-- the bytes behind the first `len`
unfoldable pub write_at : List ℕ → ℕ → List ℕ → List ℕ
write_at payload len bs = take len payload ++ (bs ++ drop (len + length bs) payload)

abbrev pub filled : Buf → List ℕ → Buf
filled b bs = record { len = b.len + length bs; payload = write_at b.payload b.len bs }

-- The bytes go into the current node, which is followed by a new one once it is full.
unfoldable pub store_bytes : Bool → List ℕ → Buf → List ℕ → Client → Client
store_bytes granted junk b bs c =
    let ch = record (c.chain) { blocks = set c.chain.blocks c.curr_buf (filled b bs) } in
    if b.len + length bs == bufblk_size
    then (let (done, ch') = extend_buf granted junk ch in
        record c { chain = ch'; curr_buf = if done then c.curr_buf + 1 else c.curr_buf })
    else record c { chain = ch }

unfoldable pub recv_clnt_data : Bool → List ℕ → Arrival → Client → Run (Arrival × Client)
recv_clnt_data granted junk a c = deref c.chain c.curr_buf >>= λ b.
    let r = recv (bufblk_size - b.len) a in
    ok (elim r [
      | arrived bs ↦ (arrived bs, store_bytes granted junk b bs c)
      | closed ↦ (closed, c)
      | would_block ↦ (would_block, c)
      | broken ↦ (broken, c)
    ])

-- whether there is a full request; errno is as the calls before left it
unfoldable pub get_clnt_full_req : Bool → Client → Run (Bool × Client)
get_clnt_full_req errno c = parse_req c.chain (record (c.parser_inf) { errno = errno }) >>= λ r.
    ok (r.0, record c { parser_inf = r.1 })

abbrev pub is_bad : RequestStatus → Bool
is_bad error_bad_request = true
is_bad _ = false

unfoldable pub need_close_clnt : Client → Bool
need_close_clnt c = is_bad c.parser_inf.req.req_status

-- the bytes that go to the peer
unfoldable pub send_clnt_resp : Client → Run (List ℕ)
send_clnt_resp c = or_fault null_pointer c.send_buf >>= λ text. ok (take c.send_len text)

-- `get_next_fd`, from the static position on: the socket and the position after it. The rounds are
-- the positions left.
unfoldable pub next_from : (ℕ → Bool) → ℕ → ℕ → Option ℕ × ℕ
next_from ready zero pos = (none, 0)
next_from ready (suc rounds) pos =
    let rest = next_from ready rounds (pos + 1) in if ready pos then (some pos, pos + 1) else rest

-- a socket that exists and is in the set
abbrev pub is_ready : (ℕ → Client) → (ℕ → Bool) → ℕ → Bool
is_ready clnt_set fdset fd = (clnt_set fd).is_exist && fdset fd

unfoldable pub get_next_fd : (ℕ → Client) → (ℕ → Bool) → ℕ → Option ℕ × ℕ
unfolding next_from
get_next_fd clnt_set fdset pos = next_from (is_ready clnt_set fdset) (fd_setsize - pos) pos
