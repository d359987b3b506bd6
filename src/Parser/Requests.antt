-- ===== src/Parser/Requests.antt =====
-- src/parser.c: `parse_req` reads back the requests of the protocol,
--   GETRD <len> <object>   and   ADDFILE <len> <object> <len> <path>.
use dhttp.Base.{
  ℕ, suc, ◌≤◌, ◌<◌, ◌≡◌, refl, subst, ap, ◌∙◌, arith, true, false, List, [], ◌∷◌, ◌++◌, length, ok,
  ◌>>=◌,
}
use dhttp.Base.Int.{pos}
use dhttp.BufCtrl.Bounds.{Reads-idx}
use dhttp.BufCtrl.Reads.{Reads, Reads-split}
use dhttp.BufCtrl.{Chain, Cursor, bufblk_size}
use dhttp.Parser.Steps.{
  parse_method-getrd, parse_method-addfile, parse_len-decimal, parse_data-field1, parse_data-field2,
}
use dhttp.Parser.{
  new, method_done, len1_done, field1_done, len2_done, done, addfile, getrd, State, c_str,
  addfile_word, getrd_word, field1_max_len, field2_max_len, in_range, take_len, next_status,
  parse_step, is_done, parse_loop, parse_req,
}
use dhttp.StrHelper.Numbers.{IsDecimal, decimal_value}

-- `num` is a numeral for the length of `bytes`, short enough for the parser's buffer
pub record IsLength (num bytes : List ℕ) (max : ℕ) : Type 0 where
  pub first : ℕ
  pub others : List ℕ
  pub splits : num ≡ first ∷ others
  pub decimal : IsDecimal (first ∷ others)
  pub short : length (first ∷ others) < 10
  pub value : decimal_value 0 (first ∷ others) ≡ length bytes
  pub some_bytes : 1 ≤ length bytes
  pub few_bytes : length bytes ≤ max

abbrev pub space : List ℕ
space = b' ' ∷ []

-- each word with the space behind it, so that the pieces stand side by side
abbrev pub getrd_request : List ℕ → List ℕ → List ℕ
getrd_request num object = (getrd_word ++ space) ++ ((num ++ space) ++ object)

abbrev pub addfile_request : List ℕ → List ℕ → List ℕ → List ℕ → List ℕ
addfile_request num object num' path =
    (addfile_word ++ space) ++ ((num ++ space) ++ (object ++ ((space ++ (num' ++ space)) ++ path)))

-- one round of the loop that does not end it
loop-next :
    (ch : Chain) (fuel : ℕ) (s t : State)
    → parse_step s.status ch s ≡ ok (true, t)
    → is_done t.status ≡ false
    → parse_loop (suc fuel) ch s ≡ parse_loop fuel ch t
unfolding parse_loop
loop-next ch fuel s t e d = rw (e, ◌>>=◌, d)

loop-last :
    (ch : Chain) (fuel : ℕ) (s t : State)
    → parse_step s.status ch s ≡ ok (true, t)
    → is_done t.status ≡ true
    → parse_loop (suc fuel) ch s ≡ ok t
unfolding parse_loop
loop-last ch fuel s t e d = rw (e, ◌>>=◌, d)

module _ {ch : Chain} {end : Cursor} (s : State) (inside : s.cur.idx < bufblk_size) where
  -- The number before the first field.
  len1_step :
      (num bytes : List ℕ)
      → IsLength num bytes field1_max_len
      → Reads ch end s.cur (num ++ space)
      → s.status ≡ method_done
      → s.errno ≡ false
      → parse_step s.status ch s
        ≡ ok (
          true,
          record s {
            status = len1_done;
            cur = end;
            req = record (s.req) { field1_len = pos (length bytes) };
          },
        )
  unfolding parse_step take_len
  len1_step num bytes n r st clear =
      let r' = subst (λ l. Reads ch end s.cur (l ++ space)) n.splits r in
      let found =
        parse_len-decimal s inside [] n.first n.others r' tt n.decimal n.short clear
          (omega (arith, n.value, n.few_bytes)) in
      let fits : in_range field1_max_len (pos (length bytes)) ≡ true =
        ground (arith, n.some_bytes, n.few_bytes) in
      ap (λ m. parse_step m ch s) st ∙ found ∙ rw (n.value, st, take_len, fits)

  -- The number before the second field, behind the space that follows the first.
  len2_step :
      (num bytes : List ℕ)
      → IsLength num bytes field2_max_len
      → Reads ch end s.cur (space ++ (num ++ space))
      → s.status ≡ field1_done
      → s.errno ≡ false
      → parse_step s.status ch s
        ≡ ok (
          true,
          record s {
            status = len2_done;
            cur = end;
            req = record (s.req) { field2_len = pos (length bytes) };
          },
        )
  unfolding parse_step take_len
  len2_step num bytes n r st clear =
      let r' = subst (λ l. Reads ch end s.cur (space ++ (l ++ space))) n.splits r in
      let found =
        parse_len-decimal s inside space n.first n.others r' (refl, tt) n.decimal n.short clear
          (omega (arith, n.value, n.few_bytes)) in
      let fits : in_range field2_max_len (pos (length bytes)) ≡ true =
        ground (arith, n.some_bytes, n.few_bytes) in
      ap (λ m. parse_step m ch s) st ∙ found ∙ rw (n.value, st, take_len, fits)

  field1_step :
      (bs : List ℕ)
      → Reads ch end s.cur bs
      → s.status ≡ len1_done
      → (s.req).field1_len ≡ pos (length bs)
      → length bs ≤ field1_max_len
      → parse_step s.status ch s
        ≡ ok (
          true,
          record s {
            status = next_status (s.req).method len1_done;
            cur = end;
            req = record (s.req) { field1 = c_str bs };
          },
        )
  unfolding parse_step
  field1_step bs r st len fits =
      ap (λ m. parse_step m ch s) st ∙ parse_data-field1 s inside bs r st len fits

  field2_step :
      (bs : List ℕ)
      → Reads ch end s.cur bs
      → s.status ≡ len2_done
      → (s.req).field2_len ≡ pos (length bs)
      → length bs ≤ field2_max_len
      → parse_step s.status ch s
        ≡ ok (
          true,
          record s {
            status = next_status (s.req).method len2_done;
            cur = end;
            req = record (s.req) { field2 = c_str bs };
          },
        )
  unfolding parse_step
  field2_step bs r st len fits =
      ap (λ m. parse_step m ch s) st ∙ parse_data-field2 s inside bs r st len fits

module _ {ch : Chain} {end : Cursor} (s : State) (inside : s.cur.idx < bufblk_size)
    (fresh : s.status ≡ new) (clear : s.errno ≡ false) where
  -- A whole GETRD request whose object has 1 to 9 bytes is read in one call, however its bytes lie
  -- in the buffers: the request is done, its object is stored, and the location is behind it.
  pub parse_req-getrd :
      (num object : List ℕ)
      → IsLength num object field1_max_len
      → Reads ch end s.cur (getrd_request num object)
      → parse_req ch s
        ≡ ok (
          true,
          record s {
            status = done;
            cur = end;
            req = record (s.req) {
              method = getrd;
              field1_len = pos (length object);
              field1 = c_str object;
            };
          },
        )
  unfolding parse_req parse_step next_status
  parse_req-getrd num object n r =
      let (c1, r1, rest) = Reads-split (getrd_word ++ space) ((num ++ space) ++ object) r in
      let (c2, r2, r3) = Reads-split (num ++ space) object rest in
      let i1 = Reads-idx inside r1 in
      let i2 = Reads-idx i1 r2 in
      let s1 = record s {
        status = method_done;
        cur = c1;
        req = record (s.req) { method = getrd };
      } in
      let s2 = record s1 {
        status = len1_done;
        cur = c2;
        req = record (s1.req) { field1_len = pos (length object) };
      } in
      let e1 = ap (λ m. parse_step m ch s) fresh ∙ parse_method-getrd s inside [] r1 tt in
      let e2 = len1_step s1 i1 num object n r2 refl clear in
      let e3 = field1_step s2 i2 object r3 refl refl n.few_bytes in
      let run =
        loop-next ch 5 s s1 e1 refl ∙ loop-next ch 4 s1 s2 e2 refl ∙ loop-last ch 3 s2 _ e3 refl in
      rw (run, ◌>>=◌)

  -- A whole ADDFILE request whose object has 1 to 9 bytes and whose path has 1 to 512 is read in
  -- one call, however its bytes lie in the buffers: both fields are stored, and the location is
  -- behind the path.
  pub parse_req-addfile :
      (num object num' path : List ℕ)
      → IsLength num object field1_max_len
      → IsLength num' path field2_max_len
      → Reads ch end s.cur (addfile_request num object num' path)
      → parse_req ch s
        ≡ ok (
          true,
          record s {
            status = done;
            cur = end;
            req = record (s.req) {
              method = addfile;
              field1_len = pos (length object);
              field1 = c_str object;
              field2_len = pos (length path);
              field2 = c_str path;
            };
          },
        )
  unfolding parse_req parse_step next_status
  parse_req-addfile num object num' path n n' r =
      let tail = (space ++ (num' ++ space)) ++ path in
      let (c1, r1, rest1) =
        Reads-split (addfile_word ++ space) ((num ++ space) ++ (object ++ tail)) r in
      let (c2, r2, rest2) = Reads-split (num ++ space) (object ++ tail) rest1 in
      let (c3, r3, rest3) = Reads-split object tail rest2 in
      let (c4, r4, r5) = Reads-split (space ++ (num' ++ space)) path rest3 in
      let i1 = Reads-idx inside r1 in
      let i2 = Reads-idx i1 r2 in
      let i3 = Reads-idx i2 r3 in
      let i4 = Reads-idx i3 r4 in
      let s1 = record s {
        status = method_done;
        cur = c1;
        req = record (s.req) { method = addfile };
      } in
      let s2 = record s1 {
        status = len1_done;
        cur = c2;
        req = record (s1.req) { field1_len = pos (length object) };
      } in
      let s3 = record s2 {
        status = field1_done;
        cur = c3;
        req = record (s2.req) { field1 = c_str object };
      } in
      let s4 = record s3 {
        status = len2_done;
        cur = c4;
        req = record (s3.req) { field2_len = pos (length path) };
      } in
      let e1 = ap (λ m. parse_step m ch s) fresh ∙ parse_method-addfile s inside [] r1 tt in
      let e2 = len1_step s1 i1 num object n r2 refl clear in
      let e3 = field1_step s2 i2 object r3 refl refl n.few_bytes in
      let e4 = len2_step s3 i3 num' path n' r4 refl clear in
      let e5 = field2_step s4 i4 path r5 refl refl n'.few_bytes in
      let run =
        loop-next ch 5 s s1 e1 refl
        ∙ loop-next ch 4 s1 s2 e2 refl
        ∙ loop-next ch 3 s2 s3 e3 refl
        ∙ loop-next ch 2 s3 s4 e4 refl
        ∙ loop-last ch 1 s4 _ e5 refl in
      rw (run, ◌>>=◌)
