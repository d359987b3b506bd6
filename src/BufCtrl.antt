-- ===== src/BufCtrl.antt =====
-- src/buf_ctrl.c: the chain of receive buffers and the reader on it.
-- A node pointer is the node's position in the order of allocation: `next` is the position plus
-- one, a position past the last node is NULL, and a position below `freed` is a freed node.
pub mod Reads
pub mod Fields
pub mod Bounds
use mathlib.Core.Option
use dhttp.Base.{
  ℕ, zero, suc, ◌+◌, ◌-◌, ◌*◌, Bool, true, false, Option, none, some, List, [], ◌∷◌, ◌++◌, length,
  get_elem?, get_or, set, replicate, ltb, leb, ◌==◌, if◌then◌else◌, Run, ok, fault, or_fault,
  dangling, null_pointer, null_location, out_of_bounds, out_of_fuel, ◌>>=◌,
}

abbrev pub bufblk_size : ℕ
bufblk_size = 2048

-- `payload` is the whole block: what stands behind the first `len` bytes was never written
pub record Buf : Type 0 where
  pub len : ℕ
  pub payload : List ℕ

pub record Chain : Type 0 where
  pub blocks : List Buf
  pub freed : ℕ

-- a location: the node and the index of the next byte
pub record Cursor : Type 0 where
  pub node : ℕ
  pub idx : ℕ

-- `*buf_node`
unfoldable pub deref : Chain → ℕ → Run Buf
deref ch node =
    if ltb node ch.freed then fault dangling else or_fault null_pointer (get_elem? ch.blocks node)

advance : Cursor → Cursor
advance cur =
    if cur.idx + 1 == bufblk_size
    then record { node = cur.node + 1; idx = 0 }
    else record cur { idx = cur.idx + 1 }

-- The byte and the new location; `none` is NXT_BYTE_NO_MORE. The test is `>`, as in the source.
unfoldable pub get_next_byte : Chain → Cursor → Run (Option (ℕ × Cursor))
unfolding deref advance
get_next_byte ch cur = deref ch cur.node >>= λ b.
    if ltb b.len cur.idx
    then ok none
    else (or_fault out_of_bounds (get_elem? b.payload cur.idx) >>= λ c. ok (some (c, advance cur)))

push_byte : ℕ → Option (List ℕ × Cursor) → Option (List ℕ × Cursor)
push_byte c = Option.map (λ (bs, end). (c ∷ bs, end))

-- The bytes and the new location; `none` is GET_BYTES_FAILED, with the location as it was.
unfoldable pub get_bytes : Chain → ℕ → Cursor → Run (Option (List ℕ × Cursor))
unfolding push_byte
get_bytes ch zero cur = ok (some ([], cur))
get_bytes ch (suc size) cur = get_next_byte ch cur >>= elim [
  | none ↦ ok none
  | some (c, next) ↦ get_bytes ch size next >>= λ r. ok (push_byte c r)
]

-- NXT_FIELD_NOMORE, NXT_FIELD_FAILED, or the bytes of the field with the location behind the space
pub data Field : Type 0 where
  no_more too_long : Field
  got : List ℕ → Cursor → Field

-- The first loop of `get_next_field` on fuel: the first byte that is no space.
unfoldable pub skip_spaces : Chain → ℕ → Cursor → Run (Option (ℕ × Cursor))
skip_spaces ch zero cur = fault out_of_fuel
skip_spaces ch (suc fuel) cur = get_next_byte ch cur >>= elim [
  | none ↦ ok none
  | some (c, next) ↦ elim (c == b' ') [
    | true ↦ skip_spaces ch fuel next
    | false ↦ ok (some (c, next))
  ]
]

-- The second loop, with the `cnt` bytes of `buf` so far: up to the space that ends the field.
unfoldable pub read_word : Chain → ℕ → ℕ → List ℕ → Cursor → Run Field
read_word ch buf_size zero buf cur = fault out_of_fuel
read_word ch buf_size (suc fuel) buf cur = get_next_byte ch cur >>= elim [
  | none ↦ ok no_more
  | some (c, next) ↦ elim (ltb buf_size (length buf + 1)) [
    | true ↦ ok too_long
    | false ↦ elim (c == b' ') [
      | true ↦ ok (got buf next)
      | false ↦ read_word ch buf_size fuel (buf ++ c ∷ []) next
    ]
  ]
]

-- more rounds than bytes that the chain can give
abbrev pub rounds : Chain → ℕ
rounds ch = bufblk_size * length ch.blocks + 1

-- The location must not be NULL, which is behind the last node. If the first loop reads no byte but
-- spaces, the second finds nothing to read either.
unfoldable pub get_next_field : Chain → ℕ → Cursor → Run Field
get_next_field ch buf_size cur = elim (ltb cur.node (length ch.blocks)) [
  | false ↦ fault null_location
  | true ↦ skip_spaces ch (rounds ch) cur >>= elim [
    | none ↦ ok no_more
    | some (c, next) ↦ read_word ch buf_size (rounds ch) (c ∷ []) next
  ]
]

-- `malloc` leaves the payload as it finds it: `junk`
unfoldable pub new_buf : Bool → List ℕ → Option Buf
new_buf granted junk = if granted then some (record { len = 0; payload = junk }) else none

-- Append to the chain whose last node is `curr_buf`: the result is `true` for 0.
unfoldable pub extend_buf : Bool → List ℕ → Chain → Bool × Chain
unfolding new_buf
extend_buf granted junk ch = elim (new_buf granted junk) [
  | none ↦ (false, ch)
  | some b ↦ (true, record ch { blocks = ch.blocks ++ b ∷ [] })
]

-- Free the nodes from `*head` up to `delim`, where `*head` is the first that is not freed.
unfoldable pub free_buf : Chain → ℕ → Chain
free_buf ch delim = record ch { freed = delim }
