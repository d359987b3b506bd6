-- ===== src/Resp.antt =====
-- src/resp.c: the text of a response.
pub mod Fits
pub mod Digits
use dhttp.Base.{
  ℕ, zero, suc, ◌+◌, ◌-◌, ◌*◌, ◌/◌, ◌%◌, Bool, true, false, Option, none, some, List, [], ◌∷◌, ◌++◌,
  length, ltb, ◌==◌, if◌then◌else◌,
}
use dhttp.Base.Int.{ℤ, pos, negsuc}
use dhttp.Parser.{
  Method, addfile, getrd, RequestStatus, status_ok, error_not_found, error_bad_request,
  error_server_internal, error_record_exists,
}

-- the digits of "%d" and "%Zu"; 10 are enough for 32 bits
unfoldable pub digits : ℕ → ℕ → List ℕ
digits zero n = []
digits (suc fuel) n =
    let rest = digits fuel (n / 10) in
    if ltb n 10 then (b'0' + n) ∷ [] else rest ++ (b'0' + n % 10) ∷ []

unfoldable pub decimal : ℤ → List ℕ
decimal (pos n) = digits 10 n
decimal (negsuc n) = b'-' ∷ digits 10 (n + 1)

-- err_list
unfoldable pub err_text : RequestStatus → List ℕ
err_text status_ok = b'O' ∷ b'K' ∷ []
err_text error_not_found = b'N' ∷ b'o' ∷ b't' ∷ b' ' ∷ b'F' ∷ b'o' ∷ b'u' ∷ b'n' ∷ b'd' ∷ []
err_text error_bad_request =
    b'B' ∷ b'a' ∷ b'd' ∷ b' ' ∷ b'R' ∷ b'e' ∷ b'q' ∷ b'u' ∷ b'e' ∷ b's' ∷ b't' ∷ []
err_text error_server_internal =
    b'S' ∷ b'e' ∷ b'r' ∷ b'v' ∷ b'e' ∷ b'r' ∷ b' ' ∷ b'I' ∷ b'n' ∷ b't' ∷ b'e' ∷ b'r' ∷ b'n' ∷ b'a'
    ∷ b'l' ∷ b' ' ∷ b'E' ∷ b'r' ∷ b'r' ∷ b'o' ∷ b'r' ∷ []
err_text error_record_exists =
    b'R' ∷ b'e' ∷ b'c' ∷ b'o' ∷ b'r' ∷ b'd' ∷ b' ' ∷ b'E' ∷ b'x' ∷ b'i' ∷ b's' ∷ b't' ∷ b's' ∷ []

-- only a '/' at the start is escaped, as two backslashes
unfoldable pub escape_html_str : List ℕ → List ℕ
escape_html_str [] = []
escape_html_str (c ∷ s) = if c == b'/' then 92 ∷ 92 ∷ s else c ∷ s

-- "OK http://", "/rd/" and "ERROR "
abbrev pub ok_http : List ℕ
ok_http = b'O' ∷ b'K' ∷ b' ' ∷ b'h' ∷ b't' ∷ b't' ∷ b'p' ∷ b':' ∷ b'/' ∷ b'/' ∷ []

abbrev pub rd_path : List ℕ
rd_path = b'/' ∷ b'r' ∷ b'd' ∷ b'/' ∷ []

abbrev pub error_word : List ℕ
error_word = b'E' ∷ b'R' ∷ b'R' ∷ b'O' ∷ b'R' ∷ b' ' ∷ []

-- the part behind the server's port
unfoldable pub object_part : List ℕ → ℤ → List ℕ → List ℕ
object_part file_name (negsuc zero) local_file_path = b'/' ∷ local_file_path
object_part file_name remote_lc_port local_file_path =
    rd_path ++ (decimal remote_lc_port ++ b'/' ∷ escape_html_str file_name)

-- the text without its terminating 0; its length is the result of the function
unfoldable pub fill_local_resp : List ℕ → List ℕ → ℤ → ℤ → List ℕ → Method → RequestStatus → List ℕ
fill_local_resp file_name ip server_port remote_lc_port path addfile status_ok = b'O' ∷ b'K' ∷ []
fill_local_resp file_name ip server_port remote_lc_port path getrd status_ok =
    ok_http ++ (ip ++ b':' ∷ (decimal server_port ++ object_part file_name remote_lc_port path))
fill_local_resp file_name ip server_port remote_lc_port path method status =
    let text = err_text status in error_word ++ (digits 10 (length text) ++ b' ' ∷ text)
