-- ===== src/ClientTable/Blocks.antt =====
-- src/client_info.c: the bytes in a list of receive blocks, and what writing into the last one does.
use mathlib.Core.List.{append-nil, append_assoc}
use dhttp.Base.{
  ℕ, zero, suc, ◌+◌, ◌≤◌, ◌≡◌, refl, sym, ap, arith, some, List, [], ◌∷◌, ◌++◌, length, get_elem?,
  set, take, drop, length-append, length-take, length-drop,
}
use dhttp.BufCtrl.{Buf, bufblk_size}
use dhttp.ClientTable.{write_at, filled}

-- the bytes that were received into the blocks
abbrev pub received_in : List Buf → List ℕ
received_in [] = []
received_in (b ∷ bs) = take b.len b.payload ++ received_in bs

-- each block has its whole payload, and no more bytes than it can hold
abbrev pub AllWhole : List Buf → Type 0
AllWhole [] = Unit {0}
AllWhole (b ∷ bs) = ((length b.payload ≡ bufblk_size) × (b.len ≤ bufblk_size)) × AllWhole bs

pub take-append_length : (xs ys : List ℕ) → take (length xs) (xs ++ ys) ≡ xs
take-append_length [] ys = refl
take-append_length (x ∷ xs) ys = ap (◌∷◌ x) (take-append_length xs ys)

pub take-write_at :
    (payload : List ℕ) (len : ℕ) (bs : List ℕ)
    → len ≤ length payload
    → take (len + length bs) (write_at payload len bs) ≡ take len payload ++ bs
unfolding write_at
take-write_at payload len bs h =
    let front : length (take len payload ++ bs) ≡ len + length bs =
      omega (arith, length-append (take len payload) bs, length-take len payload) in
    rw (← append_assoc (take len payload) bs (drop (len + length bs) payload), ← front)
      (take-append_length (take len payload ++ bs) _)

pub length-write_at :
    (payload : List ℕ) (len : ℕ) (bs : List ℕ)
    → len + length bs ≤ length payload
    → length (write_at payload len bs) ≡ length payload
unfolding write_at
length-write_at payload len bs h = omega (
  arith,
  length-append (take len payload) (bs ++ drop (len + length bs) payload),
  length-append bs (drop (len + length bs) payload),
  length-take len payload,
  length-drop (len + length bs) payload,
)

-- writing into the last block
pub received_in-set :
    (xs : List Buf) (k : ℕ) (b : Buf) (bs : List ℕ)
    → suc k ≡ length xs
    → get_elem? xs k ≡ some b
    → AllWhole xs
    → received_in (set xs k (filled b bs)) ≡ received_in xs ++ bs
received_in-set [] k b bs h e w = absurd (omega arith)
received_in-set (x ∷ []) zero b bs h e w =
    let same : x ≡ b = cc in
    let room : b.len ≤ length b.payload = rw (← same) (omega (arith, w.0.0, w.0.1)) in
    rw (append-nil (take (b.len + length bs) (write_at b.payload b.len bs)), same)
      (simp (append-nil) (take-write_at b.payload b.len bs room))
received_in-set (x ∷ y ∷ xs) zero b bs h e w = absurd (omega arith)
received_in-set (x ∷ xs) (suc k) b bs h e w =
    rw (received_in-set xs k b bs (omega arith) e w.1)
      (sym (append_assoc (take x.len x.payload) (received_in xs) bs))

pub AllWhole-set :
    (xs : List Buf) (k : ℕ) (b : Buf)
    → AllWhole xs
    → length b.payload ≡ bufblk_size
    → b.len ≤ bufblk_size
    → AllWhole (set xs k b)
AllWhole-set [] k b w p q = tt
AllWhole-set (x ∷ xs) zero b w p q = ((p, q), w.1)
AllWhole-set (x ∷ xs) (suc k) b w p q = (w.0, AllWhole-set xs k b w.1 p q)

pub AllWhole-append :
    (xs : List Buf) (b : Buf)
    → AllWhole xs
    → length b.payload ≡ bufblk_size
    → b.len ≤ bufblk_size
    → AllWhole (xs ++ b ∷ [])
AllWhole-append [] b w p q = ((p, q), tt)
AllWhole-append (x ∷ xs) b w p q = (w.0, AllWhole-append xs b w.1 p q)

pub AllWhole-get_elem? :
    (xs : List Buf) (k : ℕ) (b : Buf)
    → AllWhole xs
    → get_elem? xs k ≡ some b
    → (length b.payload ≡ bufblk_size) × (b.len ≤ bufblk_size)
AllWhole-get_elem? [] k b w e = cc
AllWhole-get_elem? (x ∷ xs) zero b w e = (let same : x ≡ b = cc in rw (← same) w.0)
AllWhole-get_elem? (x ∷ xs) (suc k) b w e = AllWhole-get_elem? xs k b w.1 e

pub received_in-append_empty :
    (xs : List Buf) (junk : List ℕ)
    → received_in (xs ++ record { len = 0; payload = junk } ∷ []) ≡ received_in xs
received_in-append_empty [] junk = refl
received_in-append_empty (x ∷ xs) junk = rw (received_in-append_empty xs junk)
