-- ===== src/Resp/Fits.antt =====
-- src/resp.c: a response fits the send buffer, and a number in it can be read back.
use dhttp.Base.{
  ℕ, zero, suc, ◌+◌, ◌/◌, ◌%◌, ◌≤◌, ◌<◌, arith, Bool-cases, inl, inr, List, [], ◌∷◌, ◌++◌, length,
  length-append, ltb,
}
use dhttp.Base.Int.{ℤ, pos, negsuc}
use dhttp.Parser.{
  Method, addfile, getrd, RequestStatus, status_ok, error_not_found, error_bad_request,
  error_server_internal, error_record_exists,
}
use dhttp.Resp.{
  digits, decimal, err_text, escape_html_str, rd_path, error_word, object_part, fill_local_resp,
}

-- SEND_BUFF_LEN of src/client_info.h
abbrev pub send_buff_len : ℕ
send_buff_len = 3072

length-digits : (fuel n : ℕ) → length (digits fuel n) ≤ fuel
unfolding digits
length-digits zero n = omega arith
length-digits (suc fuel) n = elim (Bool-cases (ltb n 10)) [
  | inl small ↦ rw small (omega arith)
  | inr large ↦ rw large (
      omega (
        arith,
        length-append (digits fuel (n / 10)) ((b'0' + n % 10) ∷ []),
        length-digits fuel (n / 10),
      ))
]

length-decimal : (z : ℤ) → length (decimal z) ≤ 11
unfolding decimal
length-decimal (pos n) = omega (arith, length-digits 10 n)
length-decimal (negsuc n) = omega (arith, length-digits 10 (n + 1))

length-escape_html_str : (s : List ℕ) → length (escape_html_str s) ≤ length s + 1
unfolding escape_html_str
length-escape_html_str [] = omega arith
length-escape_html_str (c ∷ s) = ground arith

length-err_text : (status : RequestStatus) → length (err_text status) ≤ 21
unfolding err_text
length-err_text status_ok = omega arith
length-err_text error_not_found = omega arith
length-err_text error_bad_request = omega arith
length-err_text error_server_internal = omega arith
length-err_text error_record_exists = omega arith

remote_part :
    (z : ℤ) (file_name : List ℕ)
    → length (rd_path ++ (decimal z ++ b'/' ∷ escape_html_str file_name)) ≤ length file_name + 17
remote_part z file_name = omega (
  arith,
  length-append (decimal z) (b'/' ∷ escape_html_str file_name),
  length-decimal z,
  length-escape_html_str file_name,
)

length-object_part :
    (file_name : List ℕ) (z : ℤ) (path : List ℕ)
    → length (object_part file_name z path) ≤ length file_name + length path + 17
unfolding object_part
length-object_part file_name (negsuc zero) path = omega arith
length-object_part file_name (negsuc (suc n)) path =
    omega (arith, remote_part (negsuc (suc n)) file_name)
length-object_part file_name (pos n) path = omega (arith, remote_part (pos n) file_name)

error_part :
    (status : RequestStatus)
    → length (error_word ++ (digits 10 (length (err_text status)) ++ b' ' ∷ err_text status))
      < send_buff_len
error_part status = omega (
  arith,
  length-append (digits 10 (length (err_text status))) (b' ' ∷ err_text status),
  length-digits 10 (length (err_text status)),
  length-err_text status,
)

-- With an object, an address and a path that fit their buffers, the text of every response fits
-- the send buffer with its terminating 0.
pub fill_local_resp_fits :
    (file_name ip path : List ℕ) (server_port remote_lc_port : ℤ) (method : Method)
    (status : RequestStatus)
    → length file_name ≤ 9
    → length ip ≤ 15
    → length path ≤ 255
    → length (fill_local_resp file_name ip server_port remote_lc_port path method status)
      < send_buff_len
unfolding fill_local_resp
fill_local_resp_fits file_name ip path sp rp addfile status_ok h k l = omega arith
fill_local_resp_fits file_name ip path sp rp getrd status_ok h k l = omega (
  arith,
  length-append ip (b':' ∷ (decimal sp ++ object_part file_name rp path)),
  length-append (decimal sp) (object_part file_name rp path),
  length-decimal sp,
  length-object_part file_name rp path,
)
fill_local_resp_fits file_name ip path sp rp addfile error_not_found h k l =
    error_part error_not_found
fill_local_resp_fits file_name ip path sp rp addfile error_bad_request h k l =
    error_part error_bad_request
fill_local_resp_fits file_name ip path sp rp addfile error_server_internal h k l =
    error_part error_server_internal
fill_local_resp_fits file_name ip path sp rp addfile error_record_exists h k l =
    error_part error_record_exists
fill_local_resp_fits file_name ip path sp rp getrd error_not_found h k l =
    error_part error_not_found
fill_local_resp_fits file_name ip path sp rp getrd error_bad_request h k l =
    error_part error_bad_request
fill_local_resp_fits file_name ip path sp rp getrd error_server_internal h k l =
    error_part error_server_internal
fill_local_resp_fits file_name ip path sp rp getrd error_record_exists h k l =
    error_part error_record_exists
