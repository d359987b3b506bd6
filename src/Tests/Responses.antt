-- ===== src/Tests/Responses.antt =====
-- src/resp.c at concrete inputs.
use dhttp.Base.{ℕ, ◌<◌, ◌≡◌, arith, false, some, List, [], ◌∷◌, length}
use dhttp.Base.Int.{pos}
use dhttp.Parser.{getrd, status_ok}
use dhttp.Resp.Digits.{str_to_num-digits}
use dhttp.Resp.Fits.{send_buff_len, fill_local_resp_fits}
use dhttp.Resp.{digits, fill_local_resp}
use dhttp.StrHelper.{str_to_num}

abbrev name : List ℕ
name = b'a' ∷ []

abbrev address : List ℕ
address = b'h' ∷ []

fill_local_resp_fits_example :
    length (fill_local_resp name address (pos 80) (pos 9001) [] getrd status_ok) < send_buff_len
fill_local_resp_fits_example =
    fill_local_resp_fits name address [] (pos 80) (pos 9001) getrd status_ok (omega arith)
      (omega arith) (omega arith)

str_to_num-digits_example : str_to_num false (digits 10 9001) ≡ (false, some (pos 9001))
str_to_num-digits_example = str_to_num-digits 9001 (omega arith) (omega arith)
