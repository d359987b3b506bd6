-- ===== src/Parser/Steps.antt =====
-- src/parser.c: what each step makes of the piece of a well-formed request that it expects.
use dhttp.Base.{
  ℕ, ◌≤◌, ◌<◌, ◌≡◌, refl, arith, true, false, some, List, [], ◌∷◌, ◌++◌, length, ltb, ok, ◌>>=◌,
}
use dhttp.Base.Int.{pos}
use dhttp.BufCtrl.Fields.{Spaces, NoSpace, get_next_field-word}
use dhttp.BufCtrl.Reads.{Reads, get_bytes-Reads}
use dhttp.BufCtrl.{Chain, Cursor, bufblk_size}
use dhttp.Parser.{
  method_done, len1_done, len2_done, addfile, getrd, State, c_str, addfile_word, getrd_word,
  method_list, method_max_len, field1_max_len, field2_max_len, parse_method, take_len, parse_len,
  get_data, store_field, next_status, data_len, parse_data,
}
use dhttp.StrHelper.Numbers.{IsDecimal, decimal_value, str_to_num-decimal}
use dhttp.StrHelper.{str_match}

-- the words of the two methods are found
match-getrd : str_match method_list 2 getrd_word method_max_len ≡ some (some 1)
unfolding str_match
match-getrd = refl

match-addfile : str_match method_list 2 addfile_word method_max_len ≡ some (some 0)
unfolding str_match
match-addfile = refl

NoSpace-decimal : (s : List ℕ) → IsDecimal s → NoSpace s
NoSpace-decimal [] h = tt
NoSpace-decimal (c ∷ s) (lo, hi, h) = (ground arith, NoSpace-decimal s h)

c_str-decimal : (s : List ℕ) → IsDecimal s → c_str s ≡ s
c_str-decimal [] h = refl
c_str-decimal (c ∷ s) (lo, hi, h) = ground (arith, c_str-decimal s h)

pub length-c_str : (s : List ℕ) → length (c_str s) ≤ length s
length-c_str [] = omega arith
length-c_str (c ∷ s) = ground (arith, length-c_str s)

NoSpace-getrd : NoSpace getrd_word
NoSpace-getrd = (refl, (refl, (refl, (refl, (refl, tt)))))

NoSpace-addfile : NoSpace addfile_word
NoSpace-addfile = (refl, (refl, (refl, (refl, (refl, (refl, (refl, tt)))))))

module _ {ch : Chain} {end : Cursor} (s : State) (inside : s.cur.idx < bufblk_size) where
  pub parse_method-getrd :
      (sp : List ℕ)
      → Reads ch end s.cur (sp ++ (getrd_word ++ b' ' ∷ []))
      → Spaces sp
      → parse_method ch s
        ≡ ok (
          true,
          record s { status = method_done; cur = end; req = record (s.req) { method = getrd } },
        )
  unfolding parse_method
  parse_method-getrd sp r h =
      let found =
        get_next_field-word inside 8 sp b'G' (b'E' ∷ b'T' ∷ b'R' ∷ b'D' ∷ []) r h NoSpace-getrd
          (omega arith) in
      rw (found, ◌>>=◌, match-getrd)

  pub parse_method-addfile :
      (sp : List ℕ)
      → Reads ch end s.cur (sp ++ (addfile_word ++ b' ' ∷ []))
      → Spaces sp
      → parse_method ch s
        ≡ ok (
          true,
          record s { status = method_done; cur = end; req = record (s.req) { method = addfile } },
        )
  unfolding parse_method
  parse_method-addfile sp r h =
      let word : List ℕ = b'D' ∷ b'D' ∷ b'F' ∷ b'I' ∷ b'L' ∷ b'E' ∷ [] in
      let found = get_next_field-word inside 8 sp b'A' word r h NoSpace-addfile (omega arith) in
      rw (found, ◌>>=◌, match-addfile)

  -- a numeral is read as its value
  pub parse_len-decimal :
      (sp : List ℕ) (c : ℕ) (w : List ℕ)
      → Reads ch end s.cur (sp ++ (c ∷ (w ++ b' ' ∷ [])))
      → Spaces sp
      → IsDecimal (c ∷ w)
      → length (c ∷ w) < 10
      → s.errno ≡ false
      → decimal_value 0 (c ∷ w) < 1024
      → parse_len ch s ≡ take_len s.status (record s { cur = end }) (pos (decimal_value 0 (c ∷ w)))
  unfolding parse_len
  parse_len-decimal sp c w r h dec short clear small =
      let found = get_next_field-word inside 10 sp c w r h (NoSpace-decimal (c ∷ w) dec) short in
      rw (found, ◌>>=◌, c_str-decimal (c ∷ w) dec, clear, str_to_num-decimal c w dec (omega arith))

  -- the bytes of the first field are stored up to a 0
  pub parse_data-field1 :
      (bs : List ℕ)
      → Reads ch end s.cur bs
      → s.status ≡ len1_done
      → (s.req).field1_len ≡ pos (length bs)
      → length bs ≤ field1_max_len
      → parse_data ch s
        ≡ ok (
          true,
          record s {
            status = next_status (s.req).method len1_done;
            cur = end;
            req = record (s.req) { field1 = c_str bs };
          },
        )
  unfolding parse_data
  parse_data-field1 bs r st len fits =
      let short : ltb field2_max_len (length bs) ≡ false = ground arith in
      let room : ltb field1_max_len (length (c_str bs)) ≡ false = ground (arith, length-c_str bs) in
      rw (st, data_len, len, get_data, short, get_bytes-Reads r, st, store_field, room, len)

  pub parse_data-field2 :
      (bs : List ℕ)
      → Reads ch end s.cur bs
      → s.status ≡ len2_done
      → (s.req).field2_len ≡ pos (length bs)
      → length bs ≤ field2_max_len
      → parse_data ch s
        ≡ ok (
          true,
          record s {
            status = next_status (s.req).method len2_done;
            cur = end;
            req = record (s.req) { field2 = c_str bs };
          },
        )
  unfolding parse_data
  parse_data-field2 bs r st len fits =
      let short : ltb field2_max_len (length bs) ≡ false = ground arith in
      let room : ltb field2_max_len (length (c_str bs)) ≡ false = ground (arith, length-c_str bs) in
      rw (st, data_len, len, get_data, short, get_bytes-Reads r, st, store_field, room, len)
