-- ===== src/Tests/Requests.antt =====
-- src/buf_ctrl.c and src/parser.c on one buffer with a request.
use dhttp.Base.{
  ℕ, ◌+◌, ◌≤◌, ◌≡◌, refl, sym, ◌-◌, arith, true, false, some, List, [], ◌∷◌, ◌++◌, length,
  length-append, length-replicate, take, drop, replicate, Run, ok, fault,
}
use dhttp.Base.Int.{pos}
use dhttp.BufCtrl.Bounds.{Ends}
use dhttp.BufCtrl.Reads.{Reads, Reads-block, get_bytes_one_short}
use dhttp.BufCtrl.{Buf, Chain, Cursor, bufblk_size, deref, get_bytes}
use dhttp.Parser.Requests.{IsLength, getrd_request, addfile_request, parse_req-addfile}
use dhttp.Parser.{new, done, addfile, status_ok, State, getrd_word, c_str, parse_req}

-- "1", "a" and "p"
abbrev pub one : List ℕ
one = 49 ∷ []

abbrev pub object : List ℕ
object = 97 ∷ []

abbrev path : List ℕ
path = 112 ∷ []

-- a block that begins with the bytes, after which nothing was received
abbrev pub block : List ℕ → Buf
block bytes = record { len = length bytes; payload = bytes ++ replicate (2048 - length bytes) 0 }

abbrev pub chain : List ℕ → Chain
chain bytes = record { blocks = block bytes ∷ []; freed = 0 }

abbrev pub at : ℕ → Cursor
at i = record { node = 0; idx = i }

pub block-size : (bytes : List ℕ) → length bytes ≤ 48 → length (block bytes).payload ≡ bufblk_size
block-size bytes h = omega (
  arith,
  length-append bytes (replicate (2048 - length bytes) 0),
  length-replicate {A = ℕ} (2048 - length bytes) 0,
)

abbrev payload_length : Run Buf → ℕ
payload_length (ok b) = length b.payload
payload_length (fault f) = 0

abbrev pub fresh : State
fresh = record {
  status = new;
  cur = at 0;
  req = record {
    method = addfile;
    req_status = status_ok;
    field1_len = pos 0;
    field2_len = pos 0;
    field1 = [];
    field2 = [];
  };
  errno = false;
}

pub get_request : Reads (chain (getrd_request one object)) (at 9) (at 0) (getrd_request one object)
unfolding deref
get_request =
    Reads-block (chain (getrd_request one object)) 0 (block (getrd_request one object)) 9 0 9 refl
      (block-size (getrd_request one object) (omega arith)) refl (omega arith) (omega arith)

pub one-IsLength : (bytes : List ℕ) (max : ℕ) → length bytes ≡ 1 → 1 ≤ max → IsLength one bytes max
one-IsLength bytes max h k = record {
  first = 49;
  others = [];
  splits = refl;
  decimal = (omega arith, omega arith, tt);
  short = omega arith;
  value = sym h;
  some_bytes = omega arith;
  few_bytes = omega arith;
}

add_request :
    Reads
      (chain (addfile_request one object one path))
      (at 15)
      (at 0)
      (addfile_request one object one path)
unfolding deref
add_request =
    Reads-block (chain (addfile_request one object one path)) 0
      (block (addfile_request one object one path)) 15 0 15 refl
      (block-size (addfile_request one object one path) (omega arith)) refl (omega arith)
      (omega arith)

parse_req-addfile_example :
    parse_req (chain (addfile_request one object one path)) fresh
    ≡ ok (
      true,
      record fresh {
        status = done;
        cur = at 15;
        req = record (fresh.req) {
          method = addfile;
          field1_len = pos (length object);
          field1 = c_str object;
          field2_len = pos (length path);
          field2 = c_str path;
        };
      },
    )
parse_req-addfile_example =
    parse_req-addfile fresh (omega arith) refl refl one object one path
      (one-IsLength object 9 refl (omega arith)) (one-IsLength path 512 refl (omega arith))
      add_request

-- "GETRD " at the start of the request
word_request : Reads (chain (getrd_request one object)) (at 6) (at 0) (getrd_word ++ b' ' ∷ [])
unfolding deref
word_request =
    Reads-block (chain (getrd_request one object)) 0 (block (getrd_request one object)) 6 0 6 refl
      (block-size (getrd_request one object) (omega arith)) refl (omega arith) (omega arith)

-- the five letters alone, for a buffer of 3 bytes
long_word : Reads (chain (getrd_request one object)) (at 5) (at 0) getrd_word
unfolding deref
long_word =
    Reads-block (chain (getrd_request one object)) 0 (block (getrd_request one object)) 5 0 5 refl
      (block-size (getrd_request one object) (omega arith)) refl (omega arith) (omega arith)

-- one byte was received, and two are returned
get_bytes_one_short_example :
    get_bytes (chain object) 2 (at 0)
    ≡ ok (some (take 2 (drop 0 (block object).payload), record { node = 0; idx = 1 + 1 }))
unfolding deref
get_bytes_one_short_example =
    get_bytes_one_short (chain object) 0 (block object) 0 2 refl (block-size object (omega arith))
      refl (omega arith)

abbrev last_free : Buf
last_free = record { len = 2047; payload = replicate 2048 0 }

abbrev nearly_full : Chain
nearly_full = record { blocks = last_free ∷ []; freed = 0 }
