-- ===== src/BufCtrl/Reads.antt =====
-- src/buf_ctrl.c: the bytes that the reader gives, as a relation, and `get_bytes` on them.
use dhttp.Base.{
  ℕ, zero, suc, ◌+◌, ◌≤◌, ◌<◌, ◌≡◌, refl, sym, ◌∙◌, length-take, length-drop, get_elem?-eq-none, ap,
  subst, arith, false, some, List, [], ◌∷◌, ◌++◌, length, get_or, get_elem?-get_or, take, drop, ltb,
  ok, fault, null_pointer,
}
use dhttp.BufCtrl.{Buf, Chain, Cursor, bufblk_size, deref, advance, get_next_byte, get_bytes}

-- From `cur` the reader gives the bytes one after the other, and is then at `end`.
pub data Reads (ch : Chain) (end : Cursor) : Cursor → List ℕ → Type 0 where
  stop : {cur : Cursor} → cur ≡ end → Reads ch end cur []
  more :
      {cur next : Cursor} {c : ℕ} {bs : List ℕ}
      → get_next_byte ch cur ≡ ok (some (c, next))
      → Reads ch end next bs
      → Reads ch end cur (c ∷ bs)

pub Reads-append :
    {ch : Chain} {mid end cur : Cursor} {bs cs : List ℕ}
    → Reads ch mid cur bs
    → Reads ch end mid cs
    → Reads ch end cur (bs ++ cs)
Reads-append {ch} {mid} {end} {cs = cs} (stop e) r = subst (λ c. Reads ch end c cs) (sym e) r
Reads-append (more step rest) r = more step (Reads-append rest r)

pub Reads-split :
    {ch : Chain} {end cur : Cursor} (bs cs : List ℕ)
    → Reads ch end cur (bs ++ cs)
    → (mid : Cursor) × Reads ch mid cur bs × Reads ch end mid cs
Reads-split {cur = cur} [] cs r = (cur, stop refl, r)
Reads-split (b ∷ bs) cs (more step rest) =
    let (mid, before, after) = Reads-split bs cs rest in (mid, more step before, after)

-- Bytes that the reader gives are what `get_bytes` returns, with the location behind them.
pub get_bytes-Reads :
    {ch : Chain} {end cur : Cursor} {bs : List ℕ}
    → Reads ch end cur bs
    → get_bytes ch (length bs) cur ≡ ok (some (bs, end))
unfolding get_bytes
get_bytes-Reads (stop e) = rw e
get_bytes-Reads (more step rest) = rw (step, get_bytes-Reads rest)

get_next_byte-get_or :
    (ch : Chain) (cur : Cursor) (b : Buf)
    → deref ch cur.node ≡ ok b
    → cur.idx ≤ b.len
    → cur.idx < length b.payload
    → get_next_byte ch cur ≡ ok (some (get_or b.payload cur.idx 0, advance cur))
unfolding get_next_byte
get_next_byte-get_or ch cur b e h k =
    let inside : ltb b.len cur.idx ≡ false = ground arith in
    rw (e, inside, get_elem?-get_or b.payload cur.idx 0 k)

get_next_byte_next :
    (ch : Chain) (node idx : ℕ) (b : Buf)
    → deref ch node ≡ ok b
    → idx ≤ b.len
    → idx < length b.payload
    → idx + 1 < bufblk_size
    → get_next_byte ch (record { node = node; idx = idx })
      ≡ ok (some (get_or b.payload idx 0, record { node = node; idx = idx + 1 }))
unfolding advance
get_next_byte_next ch node idx b e h k small =
    rw (get_next_byte-get_or ch (record { node = node; idx = idx }) b e h k) (ground arith)

drop_next : (xs : List ℕ) (i : ℕ) → i < length xs → drop i xs ≡ get_or xs i 0 ∷ drop (i + 1) xs
drop_next [] i h = absurd (omega arith)
drop_next (x ∷ xs) zero h = ground arith
drop_next (x ∷ xs) (suc i) h = ground (arith, drop_next xs i)

-- The bytes of one block are given in order: all those received, and the one behind them.
pub Reads-block :
    (ch : Chain) (node : ℕ) (b : Buf) (k idx end : ℕ)
    → deref ch node ≡ ok b
    → length b.payload ≡ bufblk_size
    → idx + k ≡ end
    → end ≤ b.len + 1
    → end < bufblk_size
    → Reads ch
        (record { node = node; idx = end })
        (record { node = node; idx = idx })
        (take k (drop idx b.payload))
Reads-block ch node b zero idx end e size last h small =
    let same : idx ≡ end = omega arith in
    stop (ap (λ (i : ℕ). record { node = node; idx = i }) same)
Reads-block ch node b (suc k) idx end e size last h small =
    rw (drop_next b.payload idx (omega arith)) (
      more (get_next_byte_next ch node idx b e (omega arith) (omega arith) (omega arith))
        (Reads-block ch node b k (idx + 1) end e size (omega arith) h small))

-- The test in `get_next_byte` is off by one: in a block that is not full, `size` more bytes are
-- returned as read although only `size - 1` of them were received. The last is whatever the
-- memory held.
pub get_bytes_one_short :
    (ch : Chain) (node : ℕ) (b : Buf) (idx size : ℕ)
    → deref ch node ≡ ok b
    → length b.payload ≡ bufblk_size
    → idx + size ≡ b.len + 1
    → b.len + 1 < bufblk_size
    → get_bytes ch size (record { node = node; idx = idx })
      ≡ ok (some (take size (drop idx b.payload), record { node = node; idx = b.len + 1 }))
get_bytes_one_short ch node b idx size e full sum small =
    let bytes = take size (drop idx b.payload) in
    let count : length bytes ≡ size =
      omega (arith, length-take size (drop idx b.payload), length-drop idx b.payload) in
    let read = Reads-block ch node b size idx (b.len + 1) e full sum (omega arith) small in
    rw count at (get_bytes-Reads read)

-- In the last block of the chain, with 2047 bytes received, the reader gives the byte that was
-- not received, and then follows the null pointer of the next block.
pub get_next_byte_past_end :
    (ch : Chain) (node : ℕ) (b : Buf)
    → deref ch node ≡ ok b
    → length b.payload ≡ bufblk_size
    → b.len + 1 ≡ bufblk_size
    → length ch.blocks ≡ node + 1
    → (get_next_byte ch (record { node = node; idx = b.len })
        ≡ ok (some (get_or b.payload b.len 0, record { node = node + 1; idx = 0 })))
      × (get_next_byte ch (record { node = node + 1; idx = 0 }) ≡ fault null_pointer)
unfolding get_next_byte advance deref
get_next_byte_past_end ch node b e full last at_end = (
  get_next_byte-get_or ch (record { node = node; idx = b.len }) b e (omega arith) (omega arith)
      ∙ ground arith,
  (let live : ltb node ch.freed ≡ false = ground arith in
      let past : ltb (node + 1) ch.freed ≡ false = ground arith in
      rw (past, get_elem?-eq-none ch.blocks (node + 1) (omega arith))),
)
