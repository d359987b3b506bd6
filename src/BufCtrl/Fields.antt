-- ===== src/BufCtrl/Fields.antt =====
-- src/buf_ctrl.c: `get_next_field` on a word between spaces.
use dhttp.Base.{
  ℕ, zero, suc, ◌+◌, ◌≤◌, ◌<◌, ◌≡◌, ap, ◌∙◌, arith, Bool-cases, inl, inr, true, false, some, List,
  [], ◌∷◌, ◌++◌, length, length-append, ltb, ◌==◌, ok, ◌>>=◌,
}
use mathlib.Core.List.{append_assoc, append-nil}
use dhttp.BufCtrl.Bounds.{length-Reads, get_next_byte-lt}
use dhttp.BufCtrl.Reads.{Reads, stop, more}
use dhttp.BufCtrl.{
  Chain, Cursor, too_long, got, bufblk_size, skip_spaces, read_word, rounds, get_next_field,
}

-- only spaces, and no space
abbrev pub Spaces : List ℕ → Type 0
Spaces [] = Unit {0}
Spaces (c ∷ s) = (c ≡ b' ') × Spaces s

abbrev pub NoSpace : List ℕ → Type 0
NoSpace [] = Unit {0}
NoSpace (c ∷ s) = ((c == b' ') ≡ false) × NoSpace s

-- the word with its first byte, and the space behind it
read_word-Reads :
    {ch : Chain} {end cur : Cursor} (buf_size fuel : ℕ) (buf w : List ℕ)
    → Reads ch end cur (w ++ b' ' ∷ [])
    → NoSpace w
    → length buf + length w < buf_size
    → length w < fuel
    → read_word ch buf_size fuel buf cur ≡ ok (got (buf ++ w) end)
unfolding read_word
read_word-Reads buf_size zero buf w r n fits f = absurd (omega arith)
read_word-Reads buf_size (suc fuel) buf [] (more step (stop e)) n fits f =
    let room : ltb buf_size (length buf + 1) ≡ false = ground arith in
    rw (step, ◌>>=◌, room, append-nil, e)
read_word-Reads {end = end} buf_size (suc fuel) buf (c ∷ w) (more step rest) n fits f =
    let room : ltb buf_size (length buf + 1) ≡ false = ground arith in
    let longer = length-append buf (c ∷ []) in
    rw (step, ◌>>=◌, room, n.0)
      (read_word-Reads buf_size fuel (buf ++ c ∷ []) w rest n.1 (omega arith) (omega arith)
        ∙ ap (λ l. ok (got l end)) (append_assoc buf (c ∷ []) w))

-- more bytes than the caller's buffer holds, and no space among them
read_word_too_long :
    {ch : Chain} {end cur : Cursor} (buf_size fuel : ℕ) (buf w : List ℕ)
    → Reads ch end cur w
    → NoSpace w
    → length buf ≤ buf_size
    → buf_size < length buf + length w
    → length w < fuel
    → read_word ch buf_size fuel buf cur ≡ ok too_long
unfolding read_word
read_word_too_long buf_size zero buf w r n fits long f = absurd (omega arith)
read_word_too_long buf_size (suc fuel) buf [] r n fits long f = absurd (omega arith)
read_word_too_long buf_size (suc fuel) buf (c ∷ w) (more step rest) n fits long f =
    elim (Bool-cases (ltb buf_size (length buf + 1))) [
      | inl over ↦ rw (step, ◌>>=◌, over)
      | inr room ↦
          let longer = length-append buf (c ∷ []) in
          rw (step, ◌>>=◌, room, n.0)
            (read_word_too_long buf_size fuel (buf ++ c ∷ []) w rest n.1
              (ground (arith, room, longer)) (omega arith) (omega arith))
    ]

skip_spaces-Reads :
    {ch : Chain} {end cur : Cursor} (fuel : ℕ) (sp : List ℕ) (c : ℕ) (bs : List ℕ)
    → Reads ch end cur (sp ++ c ∷ bs)
    → Spaces sp
    → (c == b' ') ≡ false
    → length sp < fuel
    → (next : Cursor) × (skip_spaces ch fuel cur ≡ ok (some (c, next))) × Reads ch end next bs
unfolding skip_spaces
skip_spaces-Reads zero sp c bs r s n f = absurd (omega arith)
skip_spaces-Reads (suc fuel) [] c bs (more {next = next} step rest) s n f =
    (next, rw (step, ◌>>=◌, n), rest)
skip_spaces-Reads (suc fuel) (x ∷ sp) c bs (more step rest) s n f =
    let (next, run, later) = skip_spaces-Reads fuel sp c bs rest s.1 n (omega arith) in
    let space : (x == b' ') ≡ true = ground (arith, s.0) in
    (next, rw (step, ◌>>=◌, space) run, later)

-- where a byte is read, the location is not NULL
Reads-lt :
    {ch : Chain} {end cur : Cursor} (sp : List ℕ) (c : ℕ) (bs : List ℕ)
    → Reads ch end cur (sp ++ c ∷ bs)
    → ltb cur.node (length ch.blocks) ≡ true
Reads-lt {ch} [] c bs (more {cur = cur} {next = next} step rest) =
    get_next_byte-lt ch cur next c step
Reads-lt {ch} (x ∷ sp) c bs (more {cur = cur} {next = next} step rest) =
    get_next_byte-lt ch cur next x step

module _ {ch : Chain} {end cur : Cursor} (inside : cur.idx < bufblk_size) where
  -- A word that fits the caller's buffer with its terminating 0 is returned without the spaces
  -- around it, wherever the blocks of the chain end, and the location is behind one space.
  pub get_next_field-word :
      (buf_size : ℕ) (sp : List ℕ) (c : ℕ) (w : List ℕ)
      → Reads ch end cur (sp ++ (c ∷ (w ++ b' ' ∷ [])))
      → Spaces sp
      → NoSpace (c ∷ w)
      → length (c ∷ w) < buf_size
      → get_next_field ch buf_size cur ≡ ok (got (c ∷ w) end)
  unfolding get_next_field
  get_next_field-word buf_size sp c w r s n fits =
      let bound = length-Reads inside r in
      let sizes = length-append sp (c ∷ (w ++ b' ' ∷ [])) in
      let sizes' = length-append w (b' ' ∷ []) in
      let (next, run, rest) =
        skip_spaces-Reads (rounds ch) sp c (w ++ b' ' ∷ []) r s n.0 (omega arith) in
      rw (get_next_field, Reads-lt sp c _ r, run, ◌>>=◌)
        (read_word-Reads buf_size (rounds ch) (c ∷ []) w rest n.1 (omega arith) (omega arith))

  -- A word that does not fit is refused as soon as it is too long, whatever follows.
  pub get_next_field_too_long :
      (buf_size : ℕ) (sp : List ℕ) (c : ℕ) (w : List ℕ)
      → Reads ch end cur (sp ++ c ∷ w)
      → Spaces sp
      → NoSpace (c ∷ w)
      → 0 < buf_size
      → buf_size < length (c ∷ w)
      → get_next_field ch buf_size cur ≡ ok too_long
  unfolding get_next_field
  get_next_field_too_long buf_size sp c w r s n some_room long =
      let bound = length-Reads inside r in
      let sizes = length-append sp (c ∷ w) in
      let (next, run, rest) = skip_spaces-Reads (rounds ch) sp c w r s n.0 (omega arith) in
      rw (get_next_field, Reads-lt sp c _ r, run, ◌>>=◌)
        (read_word_too_long buf_size (rounds ch) (c ∷ []) w rest n.1 (omega arith) (omega arith)
          (omega arith))
