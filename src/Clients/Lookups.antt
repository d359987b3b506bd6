-- ===== src/Clients/Lookups.antt =====
-- src/client_info.c, `process_clnt_request`: the answer to a GETRD request.
use dhttp.Base.{
  ℕ, zero, suc, ◌⊎◌, inl, inr, ◌≢◌, ◌≡◌, refl, false, Option, none, some, List, [], ok,
}
use dhttp.Base.Int.{ℤ, pos, negsuc}
use dhttp.Clients.{Desk, path_read, get_rd, respond, process_clnt_request}
use dhttp.Config.{Files}
use dhttp.Forward.{Location, lookup_file}
use dhttp.Parser.{getrd, RequestStatus, status_ok, error_not_found, ReqInfo}
use dhttp.Resp.{fill_local_resp}
use dhttp.Router.{Daemon, Setting}

-- the answer for what the lookup of the object found
abbrev pub status_of : Option Location → RequestStatus
status_of none = error_not_found
status_of (some at) = status_ok

-- the location found is that of another node's server, or has the path of an object of this one
abbrev pub HasPath : Option Location → Type 0
HasPath none = Unit {0}
HasPath (some at) =
    (at.remote_lc_port ≢ negsuc 0) ⊎ ((path : List ℕ) × (at.local_file_path ≡ some path))

abbrev pub text_of : List ℕ → Option Location → List ℕ
text_of name none = fill_local_resp name [] (pos 0) (pos 0) [] getrd error_not_found
text_of name (some at) =
    fill_local_resp name at.ip at.server_port at.remote_lc_port
      (elim at.local_file_path [ none ↦ [] | some path ↦ path ]) getrd status_ok

path_read-path :
    (port : ℤ) (local_file_path : Option (List ℕ))
    → (port ≢ negsuc 0) ⊎ ((path : List ℕ) × (local_file_path ≡ some path))
    → path_read port local_file_path ≡ ok (elim local_file_path [ none ↦ [] | some path ↦ path ])
path_read-path port (some path) set = refl
path_read-path (pos n) none set = refl
path_read-path (negsuc (suc n)) none set = refl
path_read-path (negsuc zero) none (inl other) = absurd (other refl)
path_read-path (negsuc zero) none (inr (path, e)) = cc

pub process_clnt_request-getrd :
    {A : Type 0} (g : Setting A) (k : Desk) (r : ReqInfo) (fs : Files) (s : Daemon A)
    (o : Option Location)
    → r.req_status ≡ status_ok
    → r.method ≡ getrd
    → lookup_file g.pft_grants g.g_nid k.g_server_port s.nodes fs.table s.table s.tree k.al_pre
        r.field1
      ≡ ok o
    → HasPath o
    → process_clnt_request g k r fs s ≡ ok (status_of o, (text_of r.field1 o, (fs, (false, s))))
unfolding process_clnt_request get_rd respond fill_local_resp
process_clnt_request-getrd g k r fs s none fine is_getrd looked set =
    rw (process_clnt_request, fine, is_getrd, get_rd, looked) (rw is_getrd refl)
process_clnt_request-getrd g k r fs s (some at) fine is_getrd looked set =
    rw (process_clnt_request, fine, is_getrd, get_rd, looked)
      (rw is_getrd (rw (path_read-path at.remote_lc_port at.local_file_path set) refl))
