-- ===== src/Parser/Moves.antt =====
-- src/parser.c: how far a step of the parser moves the machine, and that its copies fit.
use dhttp.Base.{
  ℕ, ◌≤◌, ◌<◌, ◌≡◌, ◌≢◌, refl, ap, arith, Bool, true, false, not, ◌||◌, Bool-cases, ◌⊎◌, inl, inr,
  Option, none, some, List, length, ltb, ok, ◌>>=◌,
}
use dhttp.Base.Int.{ℤ, pos, negsuc}
use dhttp.BufCtrl.{bufblk_size}
use dhttp.BufCtrl.Bounds.{Ends}
use dhttp.Parser.Steps.{length-c_str}
use dhttp.Parser.{
  refuse, ParserStatus, error, new, method_done, len1_done, field1_done, len2_done, done, Method,
  addfile, getrd, error_bad_request, ReqInfo, State, c_str, field1_max_len, field2_max_len,
  in_range, take_method, take_len, take_number, copy, store_field, next_status, data_len, is_done,
  is_over,
}

-- the length that was read is in its range, and an error of the parser is one of the request
abbrev pub Fits : ParserStatus → ReqInfo → Type 0
Fits len1_done r = in_range field1_max_len r.field1_len ≡ true
Fits len2_done r = in_range field2_max_len r.field2_len ≡ true
Fits error r = r.req_status ≡ error_bad_request
Fits _ r = Unit {0}

-- how far the machine has come
abbrev pub rank : ParserStatus → ℕ
rank new = 0
rank method_done = 1
rank len1_done = 2
rank field1_done = 3
rank len2_done = 4
rank done = 5
rank error = 5

-- A step that succeeds moves on; one that fails stays where it is or refuses the request.
pub record Moved (m : ParserStatus) (r : Bool × State) : Type 0 where
  pub inside : ((r.1).cur).idx < bufblk_size
  pub fits : Fits (r.1).status (r.1).req
  pub forth : r.0 ≡ true → (rank m < rank (r.1).status) × ((r.1).status ≢ error)
  pub stays : r.0 ≡ false → ((r.1).status ≡ m) ⊎ ((r.1).status ≡ error)

-- Too few bytes: the state stays as it is.
pub waits :
    (m : ParserStatus) (s : State)
    → s.cur.idx < bufblk_size
    → s.status ≡ m
    → Fits m s.req
    → Moved m (false, s)
waits m s h e f = record { inside = h; fits = rw e f; forth = λ q. cc; stays = λ q. inl e }

pub refused : (m : ParserStatus) (t : State) → t.cur.idx < bufblk_size → Ends (Moved m) (refuse t)
refused m t h = record { inside = h; fits = refl; forth = λ e. cc; stays = λ e. inr refl }

pub method-Ends :
    (t : State) (o : Option ℕ) → t.cur.idx < bufblk_size → Ends (Moved new) (take_method t (some o))
unfolding take_method
method-Ends t none h = refused new t h
method-Ends t (some i) h = record {
  inside = h;
  fits = tt;
  forth = λ e. (omega arith, λ q. cc);
  stays = λ e. cc;
}

pub number-Ends :
    (m : ParserStatus) (t : State) (n : Bool × Option ℤ)
    → t.cur.idx < bufblk_size
    → t.status ≡ m
    → (m ≡ method_done) ⊎ (m ≡ field1_done)
    → Ends (Moved m) (take_number t n)
unfolding take_number take_len
number-Ends m t (errno, none) h e k = refused m (record t { errno = errno }) h
number-Ends method_done t (errno, some len) h e k =
    rw e (elim (Bool-cases (in_range field1_max_len len)) [
      | inl ok_len ↦ rw ok_len (record {
        inside = h;
        fits = ok_len;
        forth = λ q. (omega arith, λ z. cc);
        stays = λ q. cc;
      })
      | inr bad ↦ rw bad (
          refused method_done
            (record t { errno = errno; req = record (t.req) { field1_len = len } }) h)
    ])
number-Ends field1_done t (errno, some len) h e k =
    rw e (elim (Bool-cases (in_range field2_max_len len)) [
      | inl ok_len ↦ rw ok_len (record {
        inside = h;
        fits = ok_len;
        forth = λ q. (omega arith, λ z. cc);
        stays = λ q. cc;
      })
      | inr bad ↦ rw bad (
          refused field1_done
            (record t { errno = errno; req = record (t.req) { field2_len = len } }) h)
    ])
number-Ends _ t (errno, some len) h e k = ground arith

-- both ways on from a field that was read
next_status-rank :
    (k : Method) (m : ParserStatus) (r : ReqInfo)
    → (m ≡ len1_done) ⊎ (m ≡ len2_done)
    → Fits (next_status k m) r × (rank m < rank (next_status k m)) × (next_status k m ≢ error)
unfolding next_status
next_status-rank getrd len1_done r h = (tt, omega arith, λ e. cc)
next_status-rank getrd len2_done r h = (tt, omega arith, λ e. cc)
next_status-rank addfile len1_done r h = (tt, omega arith, λ e. cc)
next_status-rank addfile len2_done r h = (tt, omega arith, λ e. cc)
next_status-rank _ m r h = ground arith

stored-Moved :
    (m : ParserStatus) (t : State)
    → t.cur.idx < bufblk_size
    → t.status ≡ m
    → (m ≡ len1_done) ⊎ (m ≡ len2_done)
    → Moved m (true, record t { status = next_status (t.req).method t.status })
stored-Moved m t h e k =
    let (fits, more, sound) = next_status-rank (t.req).method m t.req k in
    record { inside = h; fits = rw e fits; forth = λ q. (rw e more, rw e sound); stays = λ q. cc }

-- the copy of a field that was read whole fits
pub stored-Ends :
    (m : ParserStatus) (s : State) (bs : List ℕ) (n : ℕ)
    → s.cur.idx < bufblk_size
    → s.status ≡ m
    → data_len m s.req ≡ ok (pos n)
    → Fits m s.req
    → length bs ≡ n
    → Ends (Moved m) (
        store_field m s bs >>= λ s'.
        ok (true, record s' { status = next_status s'.req.method s'.status }))
unfolding store_field copy data_len next_status
stored-Ends len1_done s bs n h e len fits count =
    let is_n : (s.req).field1_len ≡ pos n = ground arith in
    let room : ltb field1_max_len (length (c_str bs)) ≡ false =
      ground (arith, length-c_str bs, is_n) in
    rw room (
      stored-Moved len1_done (record s { req = record (s.req) { field1 = c_str bs } }) h e
        (inl refl))
stored-Ends len2_done s bs n h e len fits count =
    let is_n : (s.req).field2_len ≡ pos n = ground arith in
    let room : ltb field2_max_len (length (c_str bs)) ≡ false =
      ground (arith, length-c_str bs, is_n) in
    rw room (
      stored-Moved len2_done (record s { req = record (s.req) { field2 = c_str bs } }) h e
        (inr refl))
stored-Ends _ s bs n h e len fits count = cc

pub rank_small : (m : ParserStatus) → rank m ≤ 5
rank_small m = ground arith

pub goes_on :
    (m : ParserStatus) (b : Bool)
    → not b || is_done m ≡ false
    → (b ≡ true) × (m ≢ error → is_over m ≡ false)
goes_on m false go = cc
goes_on done true go = cc
goes_on error true go = (refl, λ sound. absurd (sound refl))
goes_on _ true go = (refl, λ sound. refl)

ranged :
    (len : ℤ) {z : ℤ} (max : ℕ)
    → z ≡ len
    → in_range max len ≡ true
    → max ≤ field2_max_len
    → (n : ℕ) × ((ok z ≡ ok (pos n)) × (n ≤ field2_max_len))
ranged (pos n) max e h le = (n, (ap ok e, ground arith))
ranged (negsuc n) max e h le = ground arith

-- the length of the field that comes next
pub data_len-Fits :
    (m : ParserStatus) (r : ReqInfo)
    → (m ≡ len1_done) ⊎ (m ≡ len2_done)
    → Fits m r
    → (n : ℕ) × ((data_len m r ≡ ok (pos n)) × (n ≤ field2_max_len))
unfolding data_len
data_len-Fits len1_done r k f = ranged r.field1_len field1_max_len refl f (omega arith)
data_len-Fits len2_done r k f = ranged r.field2_len field2_max_len refl f (omega arith)
data_len-Fits _ r k f = ground arith
