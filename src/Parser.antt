-- ===== src/Parser.antt =====
-- src/parser.c: the request parser, a state machine that resumes where the received bytes ended.
-- The parser's place in the buffers is a `Cursor`; the chain is an argument, since `recv` extends
-- it between two calls. A result 0 is `true` and -1 is `false`.
pub mod Steps
pub mod Moves
pub mod Ends
pub mod Requests
use dhttp.Base.{
  ℕ, zero, suc, ◌+◌, Bool, true, false, not, ◌&&◌, ◌||◌, Option, none, some, List, [], ◌∷◌, length,
  ltb, leb, ◌==◌, if◌then◌else◌, Run, ok, fault, out_of_bounds, assertion_failed, out_of_fuel,
  ◌>>=◌,
}
use dhttp.Base.Int.{ℤ, pos, negsuc}
use dhttp.BufCtrl.{Chain, Cursor, Field, no_more, too_long, got, get_bytes, get_next_field}
use dhttp.StrHelper.{str_to_num, str_match}

abbrev pub field1_max_len : ℕ
field1_max_len = 9

abbrev pub field2_max_len : ℕ
field2_max_len = 512

abbrev pub method_max_len : ℕ
method_max_len = 7

pub data ParserStatus : Type 0 where
  error new method_done len1_done field1_done len2_done done : ParserStatus

pub data Method : Type 0 where
  addfile getrd : Method

pub data RequestStatus : Type 0 where
  status_ok error_not_found error_bad_request error_server_internal : RequestStatus
  error_record_exists : RequestStatus

pub record ReqInfo : Type 0 where
  pub method : Method
  pub req_status : RequestStatus
  pub field1_len : ℤ
  pub field2_len : ℤ
  pub field1 : List ℕ
  pub field2 : List ℕ

-- parser_info and req_info of one client, and whether errno is ERANGE
pub record State : Type 0 where
  pub status : ParserStatus
  pub cur : Cursor
  pub req : ReqInfo
  pub errno : Bool

unfoldable pub init_req_info : ReqInfo → ReqInfo
init_req_info r = record r { req_status = status_ok; field1_len = pos 0; field2_len = pos 0 }

-- a new client's parser starts at the first byte of the block
unfoldable pub init_parser : ℕ → State → State
unfolding init_req_info
init_parser node s = record s {
  status = new;
  cur = record { node = node; idx = 0 };
  req = init_req_info s.req;
}

-- `update_parser_info` and `update_req_info`: the next request begins where the last one ended
unfoldable pub update_parser : State → State
unfolding init_req_info
update_parser s = record s { status = new; req = init_req_info s.req }

-- a C string: the bytes before the first 0
abbrev pub c_str : List ℕ → List ℕ
c_str [] = []
c_str (c ∷ s) = let rest = c_str s in if c == 0 then [] else c ∷ rest

-- "ADDFILE" and "GETRD"
abbrev pub addfile_word : List ℕ
addfile_word = b'A' ∷ b'D' ∷ b'D' ∷ b'F' ∷ b'I' ∷ b'L' ∷ b'E' ∷ []

abbrev pub getrd_word : List ℕ
getrd_word = b'G' ∷ b'E' ∷ b'T' ∷ b'R' ∷ b'D' ∷ []

abbrev pub method_list : List (List ℕ)
method_list = addfile_word ∷ getrd_word ∷ []

-- every error of the parser
abbrev pub refuse : State → Run (Bool × State)
refuse s =
    ok (false, record s { status = error; req = record (s.req) { req_status = error_bad_request } })

abbrev pub method_at : ℕ → Method
method_at zero = addfile
method_at (suc i) = getrd

pub take_method : State → Option (Option ℕ) → Run (Bool × State)
take_method s none = fault out_of_fuel
take_method s (some none) = refuse s
take_method s (some (some i)) =
    ok (true, record s { status = method_done; req = record (s.req) { method = method_at i } })

unfoldable pub parse_method : Chain → State → Run (Bool × State)
unfolding take_method
parse_method ch s = get_next_field ch (method_max_len + 1) s.cur >>= elim [
  | too_long ↦ refuse s
  | no_more ↦ ok (false, s)
  | got w next ↦
      take_method (record s { cur = next }) (str_match method_list 2 (c_str w) method_max_len)
]

-- `!(len > max || len <= 0)`
abbrev pub in_range : ℕ → ℤ → Bool
in_range max (pos n) = leb 1 n && leb n max
in_range max (negsuc n) = false

-- the switch on the status, with the number that was read
unfoldable pub take_len : ParserStatus → State → ℤ → Run (Bool × State)
take_len method_done s len =
    let s' = record s { req = record (s.req) { field1_len = len } } in
    if in_range field1_max_len len then ok (true, record s' { status = len1_done }) else refuse s'
take_len field1_done s len =
    let s' = record s { req = record (s.req) { field2_len = len } } in
    if in_range field2_max_len len then ok (true, record s' { status = len2_done }) else refuse s'
take_len _ s len = fault assertion_failed

pub take_number : State → Bool × Option ℤ → Run (Bool × State)
unfolding take_len
take_number s (errno, none) = refuse (record s { errno = errno })
take_number s (errno, some len) = take_len s.status (record s { errno = errno }) len

unfoldable pub parse_len : Chain → State → Run (Bool × State)
unfolding take_number
parse_len ch s = get_next_field ch 10 s.cur >>= elim [
  | too_long ↦ refuse s
  | no_more ↦ ok (false, s)
  | got w next ↦ take_number (record s { cur = next }) (str_to_num s.errno (c_str w))
]

-- `strcpy` into a field of `max` bytes and the terminating 0
copy : ℕ → List ℕ → Run (List ℕ)
copy max bs = let s = c_str bs in if ltb max (length s) then fault out_of_bounds else ok s

-- `buff` has 513 bytes. With a length below 0 `get_bytes` fails at once.
pub get_data : Chain → ℤ → Cursor → Run (Option (List ℕ × Cursor))
get_data ch (negsuc n) cur = ok none
get_data ch (pos n) cur = if ltb field2_max_len n then fault out_of_bounds else get_bytes ch n cur

pub store_field : ParserStatus → State → List ℕ → Run State
unfolding copy
store_field len1_done s bs =
    copy field1_max_len bs >>= λ f. ok (record s { req = record (s.req) { field1 = f } })
store_field len2_done s bs =
    copy field2_max_len bs >>= λ f. ok (record s { req = record (s.req) { field2 = f } })
store_field _ s bs = fault assertion_failed

-- the last switch: GETRD has one field, ADDFILE has two
pub next_status : Method → ParserStatus → ParserStatus
next_status getrd st = done
next_status addfile len1_done = field1_done
next_status addfile _ = done

pub data_len : ParserStatus → ReqInfo → Run ℤ
data_len len1_done r = ok r.field1_len
data_len len2_done r = ok r.field2_len
data_len _ r = fault assertion_failed

unfoldable pub parse_data : Chain → State → Run (Bool × State)
unfolding data_len get_data store_field next_status
parse_data ch s = data_len s.status s.req >>= λ len. get_data ch len s.cur >>= elim [
  | none ↦ ok (false, s)
  | some (bs, next) ↦ store_field s.status (record s { cur = next }) bs >>= λ s'.
      ok (true, record s' { status = next_status s'.req.method s'.status })
]

-- the switch in the loop of `parse_req`
unfoldable pub parse_step : ParserStatus → Chain → State → Run (Bool × State)
parse_step new ch s = parse_method ch s
parse_step method_done ch s = parse_len ch s
parse_step field1_done ch s = parse_len ch s
parse_step len1_done ch s = parse_data ch s
parse_step len2_done ch s = parse_data ch s
parse_step _ ch s = fault assertion_failed

abbrev pub is_done : ParserStatus → Bool
is_done done = true
is_done _ = false

abbrev pub is_over : ParserStatus → Bool
is_over done = true
is_over error = true
is_over _ = false

-- The loop on fuel: one round for each state on the way from NEW to DONE is enough.
unfoldable pub parse_loop : ℕ → Chain → State → Run State
parse_loop zero ch s = fault out_of_fuel
parse_loop (suc fuel) ch s = parse_step s.status ch s >>= λ r.
    elim (not r.0 || is_done (r.1).status) [ true ↦ ok r.1 | false ↦ parse_loop fuel ch r.1 ]

-- `true` for a full request, well formed or not
unfoldable pub parse_req : Chain → State → Run (Bool × State)
parse_req ch s = parse_loop 6 ch s >>= λ t. ok (is_over t.status, t)
