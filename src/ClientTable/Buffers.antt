-- ===== src/ClientTable/Buffers.antt =====
-- src/client_info.c: the receive buffers of a client as one stream of bytes.
use mathlib.Core.List.{append-nil}
use dhttp.Base.{
  ℕ, suc, ◌+◌, ◌-◌, ◌≤◌, ◌≡◌, refl, sym, ◌∙◌, arith, inl, inr, Bool, true, false, Bool-cases, some,
  List, [], ◌∷◌, ◌++◌, length, get_elem?, set, take, drop, get_or, ltb, ◌==◌, if◌then◌else◌,
  length-append, length-take, length-set, take-append-drop, get_elem?-get_or, ok, Returns,
}
use dhttp.BufCtrl.{Buf, bufblk_size, deref, extend_buf}
use dhttp.ClientTable.{
  given, Client, Arrival, arrived, closed, would_block, broken, recv, filled, store_bytes,
  recv_clnt_data,
}
use dhttp.ClientTable.Blocks.{
  received_in, AllWhole, length-write_at, received_in-set, AllWhole-set, AllWhole-append,
  AllWhole-get_elem?, received_in-append_empty,
}

-- `curr_buf` is the last block and is not freed
pub record IsSound (c : Client) : Type 0 where
  pub last : suc c.curr_buf ≡ length c.chain.blocks
  pub held : c.chain.freed ≤ c.curr_buf
  pub all_whole : AllWhole c.chain.blocks

-- the bytes that a call of `recv` gave
abbrev pub bytes_of : Arrival → List ℕ
bytes_of (arrived bs) = bs
bytes_of _ = []

-- what a call leaves of the record: sound buffers with these bytes at their end, and the rest
abbrev pub IsExtended : Client → List ℕ → Client → Type 0
IsExtended c bs c' =
    IsSound c'
    × (received_in c'.chain.blocks ≡ received_in c.chain.blocks ++ bs)
    × (c'.chain.freed ≡ c.chain.freed)
    × (c'.is_exist ≡ c.is_exist)
    × (c'.parser_inf ≡ c.parser_inf)
    × (c'.send_buf ≡ c.send_buf)
    × (c'.send_len ≡ c.send_len)
    × (c'.sock_type ≡ c.sock_type)

store_bytes-IsExtended :
    (granted : Bool) (junk : List ℕ) (b : Buf) (bs : List ℕ) (c : Client)
    → IsSound c
    → length junk ≡ bufblk_size
    → get_elem? c.chain.blocks c.curr_buf ≡ some b
    → b.len + length bs ≤ bufblk_size
    → IsExtended c bs (store_bytes granted junk b bs c)
unfolding store_bytes extend_buf
store_bytes-IsExtended granted junk b bs c v size e fits =
    let size' = (AllWhole-get_elem? c.chain.blocks c.curr_buf b v.all_whole e).0 in
    let kept = length-set c.chain.blocks c.curr_buf (filled b bs) in
    let written = received_in-set c.chain.blocks c.curr_buf b bs v.last e v.all_whole in
    let w =
      AllWhole-set c.chain.blocks c.curr_buf (filled b bs) v.all_whole
        (omega (arith, length-write_at b.payload b.len bs)) fits in
    let blocks = set c.chain.blocks c.curr_buf (filled b bs) in
    let l = v.last in
    let f = v.held in
    elim (Bool-cases (b.len + length bs == bufblk_size)) [
      | inr part ↦ rw part (
        record { last = omega arith; held = f; all_whole = w },
        written,
        refl,
        refl,
        refl,
        refl,
        refl,
        refl,
      )
      | inl full ↦ rw full (by_grant granted blocks w kept written l f)
    ]
  where
    by_grant :
        (granted : Bool) (blocks : List Buf)
        → AllWhole blocks
        → length blocks ≡ length c.chain.blocks
        → received_in blocks ≡ received_in c.chain.blocks ++ bs
        → suc c.curr_buf ≡ length c.chain.blocks
        → c.chain.freed ≤ c.curr_buf
        → IsExtended c bs (
            let (done, ch') = extend_buf granted junk (record (c.chain) { blocks = blocks }) in
            record c { chain = ch'; curr_buf = if done then c.curr_buf + 1 else c.curr_buf })
    by_grant true blocks w kept written l f = (
      record {
        last = omega (arith, length-append blocks (record { len = 0; payload = junk } ∷ []));
        held = omega arith;
        all_whole = AllWhole-append blocks _ w size (omega arith);
      },
      received_in-append_empty blocks junk ∙ written,
      refl,
      refl,
      refl,
      refl,
      refl,
      refl,
    )
    by_grant false blocks w kept written l f = (
      record { last = omega arith; held = f; all_whole = w },
      written,
      refl,
      refl,
      refl,
      refl,
      refl,
      refl,
    )

-- what `recv` gives is the beginning of what arrived, or the other answer
abbrev pub IsTaken : Arrival → Arrival → Type 0
IsTaken (arrived bs) r = (rest : List ℕ) × (bs ≡ bytes_of r ++ rest)
IsTaken a r = r ≡ a

bytes_of-given : (bs : List ℕ) → bytes_of (given bs) ≡ bs
bytes_of-given [] = refl
bytes_of-given (c ∷ bs) = refl

recv-IsTaken :
    (room : ℕ) (a : Arrival) → IsTaken a (recv room a) × (length (bytes_of (recv room a)) ≤ room)
unfolding recv
recv-IsTaken room (arrived bs) =
    rw (bytes_of-given (take room bs))
      ((drop room bs, sym (take-append-drop room bs)), omega (arith, length-take room bs))
recv-IsTaken room closed = (refl, omega arith)
recv-IsTaken room would_block = (refl, omega arith)
recv-IsTaken room broken = (refl, omega arith)

curr_buf-deref :
    (c : Client)
    → IsSound c
    → (b : Buf) × (get_elem? c.chain.blocks c.curr_buf ≡ some b) × (deref c.chain c.curr_buf ≡ ok b)
unfolding deref
curr_buf-deref c v =
    let nothing : Buf = record { len = 0; payload = [] } in
    let l = v.last in
    let f = v.held in
    let e = get_elem?-get_or c.chain.blocks c.curr_buf nothing (omega arith) in
    let live : ltb c.curr_buf c.chain.freed ≡ false = ground arith in
    (get_or c.chain.blocks c.curr_buf nothing, e, rw (live, e) refl)

-- no bytes leave the record as it is
IsExtended-nil : (c : Client) → IsSound c → IsExtended c [] c
IsExtended-nil c v =
    (v, sym (append-nil (received_in c.chain.blocks)), refl, refl, refl, refl, refl, refl)

-- With sound buffers and blocks of BUFBLK_SIZE bytes, `recv_clnt_data` returns: the bytes that it
-- reports are the beginning of those that waited, and they are appended to the stream of the bytes
-- received, in whichever block they stand and whether or not a new block is granted; the buffers
-- stay sound, nothing is freed, and the parser and the record's other marks are left alone.
pub recv_clnt_data-IsExtended :
    (granted : Bool) (junk : List ℕ) (a : Arrival) (c : Client)
    → IsSound c
    → length junk ≡ bufblk_size
    → Returns (recv_clnt_data granted junk a c) λ r. IsTaken a r.0 × IsExtended c (bytes_of r.0) r.1
unfolding recv_clnt_data
recv_clnt_data-IsExtended granted junk a c v size =
    let (b, e, at_curr) = curr_buf-deref c v in
    let room = (AllWhole-get_elem? c.chain.blocks c.curr_buf b v.all_whole e).1 in
    let (took, fits) = recv-IsTaken (bufblk_size - b.len) a in
    rw at_curr (by_result b e room (recv (bufblk_size - b.len) a) took fits)
  where
    by_result :
        (b : Buf)
        → get_elem? c.chain.blocks c.curr_buf ≡ some b
        → b.len ≤ bufblk_size
        → (r : Arrival) → IsTaken a r
        → length (bytes_of r) ≤ bufblk_size - b.len
        → Returns
            (ok (elim r as (λ x. Arrival × Client) [
              | arrived bs ↦ (arrived bs, store_bytes granted junk b bs c)
              | closed ↦ (closed, c)
              | would_block ↦ (would_block, c)
              | broken ↦ (broken, c)
            ]))
            λ q. IsTaken a q.0 × IsExtended c (bytes_of q.0) q.1
    by_result b e room (arrived bs) took fits =
        (_, refl, (took, store_bytes-IsExtended granted junk b bs c v size e (omega arith)))
    by_result b e room closed took fits = (_, refl, (took, IsExtended-nil c v))
    by_result b e room would_block took fits = (_, refl, (took, IsExtended-nil c v))
    by_result b e room broken took fits = (_, refl, (took, IsExtended-nil c v))
