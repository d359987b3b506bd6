-- ===== src/BufCtrl/Bounds.antt =====
-- src/buf_ctrl.c: the reader moves towards the end of the chain, so its loops end.
use dhttp.Base.{
  ℕ, zero, suc, ◌+◌, ◌-◌, ◌*◌, ◌≤◌, ◌<◌, ◌≡◌, refl, Fault, bind-eq-ok, arith, ◌⊎◌, inl, inr,
  Bool-cases, true, false, Option, none, some, List, [], ◌∷◌, ◌++◌, length, ltb, ◌==◌, Run, ok,
  fault, dangling, null_pointer, null_location, ◌>>=◌, get_elem?-eq-none, get_elem?-get_or, dec_lt,
}
use dhttp.BufCtrl.Reads.{Reads, stop, more}
use dhttp.BufCtrl.{
  Buf, Chain, Cursor, Field, got, bufblk_size, deref, advance, get_next_byte, push_byte, get_bytes,
  skip_spaces, read_word, rounds, get_next_field,
}

-- the bytes from `cur` to the end of the last block
abbrev pub left : Chain → Cursor → ℕ
left ch cur = bufblk_size * length ch.blocks - (bufblk_size * cur.node + cur.idx)

deref-lt : (ch : Chain) (node : ℕ) (b : Buf) → deref ch node ≡ ok b → node < length ch.blocks
unfolding deref
deref-lt ch node b e = elim (dec_lt node (length ch.blocks)) [
  | yes p ↦ p
  | no p ↦
      let past = get_elem?-eq-none ch.blocks node (omega arith) in absurd (ground (arith, past))
]

get_next_byte-inv :
    (ch : Chain) (cur next : Cursor) (c : ℕ)
    → get_next_byte ch cur ≡ ok (some (c, next))
    → (cur.node < length ch.blocks) × (next ≡ advance cur)
unfolding get_next_byte
get_next_byte-inv ch cur next c e =
    let (b, at_node, rest) = bind-eq-ok (deref ch cur.node) _ e in
    (deref-lt ch cur.node b at_node, ground arith)

pub get_next_byte-lt :
    (ch : Chain) (cur next : Cursor) (c : ℕ)
    → get_next_byte ch cur ≡ ok (some (c, next))
    → ltb cur.node (length ch.blocks) ≡ true
get_next_byte-lt ch cur next c e =
    let (inside, at_next) = get_next_byte-inv ch cur next c e in ground arith

pub get_next_byte-left :
    (ch : Chain) (cur next : Cursor) (c : ℕ)
    → cur.idx < bufblk_size
    → get_next_byte ch cur ≡ ok (some (c, next))
    → (next.idx < bufblk_size) × (left ch next < left ch cur)
unfolding advance
get_next_byte-left ch cur next c h e =
    let (inside, at_next) = get_next_byte-inv ch cur next c e in
    rw at_next (ground (arith, inside), ground (arith, inside))

-- the chain gives at most the bytes of its blocks
pub length-Reads :
    {ch : Chain} {end cur : Cursor} {bs : List ℕ}
    → cur.idx < bufblk_size
    → Reads ch end cur bs
    → length bs ≤ left ch cur
length-Reads h (stop e) = omega arith
length-Reads {ch} h (more {cur = cur} {next = next} {c = c} step rest) =
    let (small, less) = get_next_byte-left ch cur next c h step in
    omega (arith, length-Reads small rest)

pub Reads-idx :
    {ch : Chain} {end cur : Cursor} {bs : List ℕ}
    → cur.idx < bufblk_size
    → Reads ch end cur bs
    → end.idx < bufblk_size
Reads-idx h (stop e) = rw (← e) h
Reads-idx {ch} h (more {cur = cur} {next = next} {c = c} step rest) =
    Reads-idx (get_next_byte-left ch cur next c h step).0 rest

-- every block that is not freed has its whole payload
abbrev pub IsChain : Chain → Type 0
IsChain ch = (node : ℕ) (b : Buf) → deref ch node ≡ ok b → length b.payload ≡ bufblk_size

-- the reader follows a pointer to a freed block, or the null pointer behind the last block
abbrev pub IsReaderFault : Fault → Type 0
IsReaderFault f = (f ≡ dangling) ⊎ (f ≡ null_pointer)

-- The run ends: with a value that satisfies `P`, or where the reader follows no pointer to a block.
abbrev pub ReadEnds : {A : Type 0} → (A → Type 0) → Run A → Type 0
ReadEnds P (fault f) = IsReaderFault f
ReadEnds P (ok a) = P a

pub ReadEnds-bind :
    {A B : Type 0} (P : A → Type 0) (Q : B → Type 0) (m : Run A) (f : A → Run B)
    → ReadEnds P m
    → ((a : A) → P a → ReadEnds Q (f a))
    → ReadEnds Q (m >>= f)
ReadEnds-bind P Q (fault e) f h k = h
ReadEnds-bind P Q (ok a) f h k = k a h

-- a location inside a block, and nearer to the end than `cur`
abbrev pub Nearer : Chain → Cursor → Cursor → Type 0
Nearer ch cur next = (next.idx < bufblk_size) × (left ch next < left ch cur)

abbrev pub NearerOpt : {A : Type 0} → Chain → Cursor → Option (A × Cursor) → Type 0
NearerOpt ch cur none = Unit {0}
NearerOpt ch cur (some (a, next)) = Nearer ch cur next

abbrev pub FieldEnds : Field → Type 0
FieldEnds (got w next) = next.idx < bufblk_size
FieldEnds _ = Unit {0}

module _ (ch : Chain) (whole : IsChain ch) where
  deref-Ends :
      (node : ℕ)
      → ReadEnds (λ b. (length b.payload ≡ bufblk_size) × (node < length ch.blocks)) (deref ch node)
  deref-Ends node = split (deref ch node) refl
    where
      split :
          (r : Run Buf)
          → deref ch node ≡ r
          → ReadEnds (λ b. (length b.payload ≡ bufblk_size) × (node < length ch.blocks)) r
      split (ok b) e = (whole node b e, deref-lt ch node b e)
      split (fault f) e = unfold deref in ground arith

  pub get_next_byte-Ends :
      (cur : Cursor) → cur.idx < bufblk_size → ReadEnds (NearerOpt ch cur) (get_next_byte ch cur)
  unfolding get_next_byte advance
  get_next_byte-Ends cur h =
      ReadEnds-bind _ (NearerOpt ch cur) (deref ch cur.node) _ (deref-Ends cur.node)
        (λ b (full, inside). elim (Bool-cases (ltb b.len cur.idx)) [
          | inl past ↦ rw past tt
          | inr here ↦
              rw (here, get_elem?-get_or b.payload cur.idx 0 (omega arith))
                (ground (arith, inside), ground (arith, inside))
        ])

  get_bytes-ReadEnds :
      (size : ℕ) (cur : Cursor)
      → cur.idx < bufblk_size
      → ReadEnds
          (λ r.
            (bs : List ℕ) (next : Cursor)
            → r ≡ some (bs, next)
            → (length bs ≡ size) × (next.idx < bufblk_size))
          (get_bytes ch size cur)
  unfolding get_bytes push_byte
  get_bytes-ReadEnds zero cur h = λ bs next e. (ground arith, ground arith)
  get_bytes-ReadEnds (suc size) cur h =
      ReadEnds-bind (NearerOpt ch cur) _ (get_next_byte ch cur) _ (get_next_byte-Ends cur h) (elim [
        | none ↦ λ p bs next e. cc
        | some (c, after) ↦ λ p.
            ReadEnds-bind _ _ (get_bytes ch size after) _ (get_bytes-ReadEnds size after p.0)
              (elim [
                | none ↦ λ q bs next e. cc
                | some (cs, last) ↦ λ q bs next e.
                    let (count, small) = q cs last refl in (ground arith, ground arith)
              ])
      ])

  read_word-Ends :
      (buf_size fuel : ℕ) (buf : List ℕ) (cur : Cursor)
      → cur.idx < bufblk_size
      → left ch cur < fuel
      → ReadEnds FieldEnds (read_word ch buf_size fuel buf cur)
  unfolding read_word
  read_word-Ends buf_size zero buf cur h k = absurd (omega arith)
  read_word-Ends buf_size (suc fuel) buf cur h k =
      ReadEnds-bind (NearerOpt ch cur) FieldEnds (get_next_byte ch cur) _ (get_next_byte-Ends cur h)
        (elim [
          | none ↦ λ p. tt
          | some (c, next) ↦ λ p. elim (Bool-cases (ltb buf_size (length buf + 1))) [
            | inl long ↦ rw long tt
            | inr room ↦ rw room (elim (Bool-cases (c == b' ')) [
              | inl sp ↦ rw sp (p.0)
              | inr other ↦
                  rw other
                    (read_word-Ends buf_size fuel (buf ++ c ∷ []) next p.0 (omega (arith, p.1)))
            ])
          ]
        ])

  skip_spaces-Ends :
      (fuel : ℕ) (start cur : Cursor)
      → cur.idx < bufblk_size
      → left ch cur < fuel
      → left ch cur ≤ left ch start
      → ReadEnds (NearerOpt ch start) (skip_spaces ch fuel cur)
  unfolding skip_spaces
  skip_spaces-Ends zero start cur h k m = absurd (omega arith)
  skip_spaces-Ends (suc fuel) start cur h k m =
      ReadEnds-bind (NearerOpt ch cur) (NearerOpt ch start) (get_next_byte ch cur) _
        (get_next_byte-Ends cur h)
        (elim [
          | none ↦ λ p. tt
          | some (c, next) ↦ λ p. elim (Bool-cases (c == b' ')) [
            | inl sp ↦
                rw sp
                  (skip_spaces-Ends fuel start next p.0 (omega (arith, p.1)) (omega (arith, p.1)))
            | inr other ↦ rw other (p.0, omega (arith, p.1))
          ]
        ])

  pub get_next_field-Ends :
      (buf_size : ℕ) (cur : Cursor)
      → cur.idx < bufblk_size
      → (length ch.blocks ≤ cur.node) × (get_next_field ch buf_size cur ≡ fault null_location)
        ⊎ (cur.node < length ch.blocks) × ReadEnds FieldEnds (get_next_field ch buf_size cur)
  unfolding get_next_field
  get_next_field-Ends buf_size cur h = elim (dec_lt cur.node (length ch.blocks)) [
    | no past ↦
        let t : ltb cur.node (length ch.blocks) ≡ false = ground arith in
        inl (omega arith, rw (get_next_field, t) refl)
    | yes inside ↦
        let t : ltb cur.node (length ch.blocks) ≡ true = ground arith in
        inr (
          inside,
          rw (get_next_field, t)
              (ReadEnds-bind (NearerOpt ch cur) FieldEnds (skip_spaces ch (rounds ch) cur) _
                (skip_spaces-Ends (rounds ch) cur cur h (omega arith) (omega arith))
                (elim [
                  | none ↦ λ p. tt
                  | some (c, next) ↦ λ p.
                      read_word-Ends buf_size (rounds ch) (c ∷ []) next p.0 (omega (arith, p.1))
                ])),
        )
  ]

-- The run ends: with a value that satisfies `P`, or with a fault of the reader, its assertion on the
-- location among them.
abbrev pub Ends : {A : Type 0} → (A → Type 0) → Run A → Type 0
Ends P (fault f) = IsReaderFault f ⊎ (f ≡ null_location)
Ends P (ok a) = P a

pub Ends-bind :
    {A B : Type 0} (P : A → Type 0) (Q : B → Type 0) (m : Run A) (f : A → Run B)
    → Ends P m
    → ((a : A) → P a → Ends Q (f a))
    → Ends Q (m >>= f)
Ends-bind P Q (fault e) f h k = h
Ends-bind P Q (ok a) f h k = k a h

ReadEnds-Ends : {A : Type 0} (P : A → Type 0) (m : Run A) → ReadEnds P m → Ends P m
ReadEnds-Ends P (fault e) h = inl h
ReadEnds-Ends P (ok a) h = h

module _ (ch : Chain) (whole : IsChain ch) where
  pub field-Ends :
      (buf_size : ℕ) (cur : Cursor)
      → cur.idx < bufblk_size
      → Ends FieldEnds (get_next_field ch buf_size cur)
  field-Ends buf_size cur h = elim (get_next_field-Ends ch whole buf_size cur h) [
    | inl (past, e) ↦ rw e (inr refl)
    | inr (inside, ends) ↦ ReadEnds-Ends FieldEnds (get_next_field ch buf_size cur) ends
  ]

  pub get_bytes-Ends :
      (size : ℕ) (cur : Cursor)
      → cur.idx < bufblk_size
      → Ends
          (λ r.
            (bs : List ℕ) (next : Cursor)
            → r ≡ some (bs, next)
            → (length bs ≡ size) × (next.idx < bufblk_size))
          (get_bytes ch size cur)
  get_bytes-Ends size cur h =
      ReadEnds-Ends _ (get_bytes ch size cur) (get_bytes-ReadEnds ch whole size cur h)
