-- ===== src/Clients.antt =====
-- src/client_info.c, `process_clnt_request`: what a request that was read does, and its response.
pub mod Answers
pub mod Lookups
use dhttp.Base.{
  ℕ, zero, suc, Bool, true, false, Option, none, some, List, [], Run, ok, fault, uninitialised,
  ◌>>=◌,
}
use dhttp.Base.Int.{ℤ, pos, negsuc}
use dhttp.Config.{Files, added, entry_exists, failed, add_localfile}
use dhttp.Darr.{Darr}
use dhttp.Forward.{Location, lookup_file}
use dhttp.Lsa.{reload_local_lsa}
use dhttp.Parser.{
  Method, addfile, getrd, RequestStatus, status_ok, error_not_found, error_server_internal,
  error_bad_request, error_record_exists, ReqInfo,
}
use dhttp.Resp.{fill_local_resp}
use dhttp.Router.{Daemon, Setting, add_stored, flood_local}

-- the answers of malloc and fopen in `add_localfile`, the port of the server, and what the local
-- variables hold before they are set
pub record Desk : Type 0 where
  pub entry_granted : Bool
  pub opens : Bool
  pub g_server_port : ℤ
  pub al_pre : Darr
  pub unset : Location

-- the path that the response reads: that of an object of the node, for a location with port -1
abbrev pub path_read : ℤ → Option (List ℕ) → Run (List ℕ)
path_read port (some path) = ok path
path_read (negsuc zero) none = fault uninitialised
path_read (negsuc (suc n)) none = ok []
path_read (pos n) none = ok []

abbrev pub local_path : Method → RequestStatus → Location → Run (List ℕ)
local_path getrd status_ok at = path_read at.remote_lc_port at.local_file_path
local_path _ _ at = ok []

-- `fill_local_resp` with the local variables; a path that was not set must not be read
unfoldable pub respond : ReqInfo → RequestStatus → Location → Run (List ℕ)
respond r status at = local_path r.method status at >>= λ path.
    ok (fill_local_resp r.field1 at.ip at.server_port at.remote_lc_port path r.method status)

module _ {A : Type 0} (g : Setting A) (k : Desk) where
  -- GETRD: the location, or the status Not Found
  unfoldable pub get_rd : ReqInfo → Files → Daemon A → Run (RequestStatus × Location)
  get_rd r fs s =
      lookup_file g.pft_grants g.g_nid k.g_server_port s.nodes fs.table s.table s.tree k.al_pre
        r.field1
      >>= elim [ none ↦ ok (error_not_found, k.unset) | some at ↦ ok (status_ok, at) ]

  -- a new object: the local announcement is made anew, entered into the tree and flooded
  unfoldable pub announce : Files → Daemon A → Run (Bool × Daemon A)
  announce fs s = reload_local_lsa g.iv g.g_nid s.nodes fs.table g.reload_granted s.lsas >>= λ r.
      elim r.0 [
        | none ↦ ok (false, record s { lsas = r.1 })
        | some l ↦
            add_stored g (some l) (record s { lsas = r.1 }) >>= flood_local g >>= λ t. ok (true, t)
      ]

  -- ADDFILE: the status, the objects, and whether there is something to flood
  unfoldable pub add_file :
      ReqInfo → Files → Daemon A → Run (RequestStatus × (Files × (Bool × Daemon A)))
  add_file r fs s = add_localfile k.entry_granted k.opens r.field1 r.field2 fs >>= λ a. elim a.0 [
    | failed ↦ ok (error_server_internal, (a.1, (false, s)))
    | entry_exists ↦ ok (error_record_exists, (a.1, (false, s)))
    | added ↦ announce a.1 s >>= λ t. ok (status_ok, (a.1, t))
  ]

  -- the new status, the text of the response, the objects and the daemon
  unfoldable pub process_clnt_request :
      ReqInfo → Files → Daemon A → Run (RequestStatus × (List ℕ × (Files × (Bool × Daemon A))))
  process_clnt_request r fs s = elim r.req_status [
    | status_ok ↦ elim r.method [
      | getrd ↦
          get_rd r fs s >>= λ q. respond r q.0 q.1 >>= λ text. ok (q.0, (text, (fs, (false, s))))
      | addfile ↦ add_file r fs s >>= λ q. respond r q.0 k.unset >>= λ text. ok (q.0, (text, q.1))
    ]
    | _ ↦ respond r r.req_status k.unset >>= λ text. ok (r.req_status, (text, (fs, (false, s))))
  ]
