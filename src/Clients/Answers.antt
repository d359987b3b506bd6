-- ===== src/Clients/Answers.antt =====
-- src/client_info.c, `process_clnt_request`: what a request changes, and what its answer says.
use dhttp.Base.Int.{ℤ}
use dhttp.Base.{
  ℕ, ◌≡◌, ◌≢◌, refl, sym, ap, ◌∙◌, subst, arith, Bool, false, List, ◌∷◌, ◌++◌, length, Run, ok,
  ◌>>=◌, bind-eq-ok,
}
use dhttp.Clients.{Desk, get_rd, announce, add_file, process_clnt_request, respond, local_path}
use dhttp.Config.{Files, Added, added, entry_exists, failed, add_localfile}
use dhttp.Forward.{Location}
use dhttp.Parser.{
  Method, addfile, getrd, RequestStatus, status_ok, error_not_found, error_bad_request,
  error_server_internal, error_record_exists, ReqInfo,
}
use dhttp.Resp.{digits, err_text, error_word, fill_local_resp}
use dhttp.Router.{Daemon, Setting}

-- "ERROR", the length of the text of the error, and the text
abbrev pub IsError : RequestStatus → List ℕ → Type 0
IsError status text =
    let e = err_text status in text ≡ error_word ++ (digits 10 (length e) ++ b' ' ∷ e)

IsError-resp :
    (name ip : List ℕ) (server_port remote_lc_port : ℤ) (path : List ℕ) (m : Method)
    (status : RequestStatus)
    → status ≢ status_ok
    → IsError status (fill_local_resp name ip server_port remote_lc_port path m status)
unfolding fill_local_resp
IsError-resp name ip server_port remote_lc_port path addfile status_ok ne = absurd (ne refl)
IsError-resp name ip server_port remote_lc_port path addfile error_not_found ne = refl
IsError-resp name ip server_port remote_lc_port path addfile error_bad_request ne = refl
IsError-resp name ip server_port remote_lc_port path addfile error_server_internal ne = refl
IsError-resp name ip server_port remote_lc_port path addfile error_record_exists ne = refl
IsError-resp name ip server_port remote_lc_port path getrd status_ok ne = absurd (ne refl)
IsError-resp name ip server_port remote_lc_port path getrd error_not_found ne = refl
IsError-resp name ip server_port remote_lc_port path getrd error_bad_request ne = refl
IsError-resp name ip server_port remote_lc_port path getrd error_server_internal ne = refl
IsError-resp name ip server_port remote_lc_port path getrd error_record_exists ne = refl

-- a new object is refused, or its name is there: the objects are as they were
add_localfile_fails :
    (granted opens : Bool) (name path : List ℕ) (fs fs' : Files) (a : Added)
    → a ≢ added
    → add_localfile granted opens name path fs ≡ ok (a, fs')
    → fs' ≡ fs
unfolding add_localfile
add_localfile_fails granted opens name path fs fs' a ne run = ground arith

module _ {A : Type 0} (g : Setting A) (k : Desk) where
  -- all that a request leaves: its status, its answer, the objects, the flag and the daemon
  abbrev pub Outcome : Type 0
  Outcome = RequestStatus × (List ℕ × (Files × (Bool × Daemon A)))

  -- where the status is an error, the answer says so and nothing has changed
  abbrev pub IsRefusal : Files → Daemon A → Outcome → Type 0
  IsRefusal fs s o = IsError o.0 o.1.0 × (o.1.1.0 ≡ fs) × (o.1.1.1.0 ≡ false) × (o.1.1.1.1 ≡ s)

  add_file-fails :
      (r : ReqInfo) (fs : Files) (s : Daemon A) (status : RequestStatus)
      (o : Files × (Bool × Daemon A))
      → status ≢ status_ok
      → add_file g k r fs s ≡ ok (status, o)
      → o ≡ (fs, (false, s))
  unfolding add_file
  add_file-fails r fs s status o ne run =
      let (a, added_it, last) =
        bind-eq-ok (add_localfile k.entry_granted k.opens r.field1 r.field2 fs) _ run in
      by_result a.0 a.1 added_it last
    where
      by_result :
          (a : Added) (fs1 : Files)
          → add_localfile k.entry_granted k.opens r.field1 r.field2 fs ≡ ok (a, fs1)
          → elim a as (λ x. Run (RequestStatus × (Files × (Bool × Daemon A)))) [
            | failed ↦ ok (error_server_internal, (fs1, (false, s)))
            | entry_exists ↦ ok (error_record_exists, (fs1, (false, s)))
            | added ↦ announce g k fs1 s >>= λ t. ok (status_ok, (fs1, t))
          ]
            ≡ ok (status, o)
          → o ≡ (fs, (false, s))
      by_result failed fs1 did last =
          let same = add_localfile_fails _ _ _ _ fs fs1 failed (λ e. cc) did in
          let is : o ≡ (fs1, (false, s)) = cc in is ∙ ap (λ x. (x, (false, s))) same
      by_result entry_exists fs1 did last =
          let same = add_localfile_fails _ _ _ _ fs fs1 entry_exists (λ e. cc) did in
          let is : o ≡ (fs1, (false, s)) = cc in is ∙ ap (λ x. (x, (false, s))) same
      by_result added fs1 did last =
          let (t, announced, done) = bind-eq-ok (announce g k fs1 s) _ last in absurd (ne (cc))

  refused :
      (r : ReqInfo) (fs : Files) (s : Daemon A) (o : Outcome) (status : RequestStatus)
      (at : Location)
      → (respond r status at >>= λ text. ok (status, (text, (fs, (false, s))))) ≡ ok o
      → o.0 ≢ status_ok
      → IsRefusal fs s o
  unfolding respond
  refused r fs s o status at run ne =
      let (text, said, last) = bind-eq-ok (respond r status at) _ run in
      let (path, had, filled) = bind-eq-ok (local_path r.method status at) _ said in
      let is : (status, (text, (fs, (false, s)))) ≡ o = cc in
      let is_text : fill_local_resp r.field1 at.ip at.server_port at.remote_lc_port path r.method
            status
          ≡ text =
        cc in
      subst (λ t. t.0 ≢ status_ok → IsRefusal fs s t) is
        (λ n. (
          subst (IsError status) is_text
              (IsError-resp r.field1 at.ip at.server_port at.remote_lc_port path r.method status n),
          refl,
          refl,
          refl,
        ))
        ne

  by_method :
      (r : ReqInfo) (fs : Files) (s : Daemon A) (o : Outcome) (m : Method)
      → elim m as (λ x. Run Outcome) [
        | getrd ↦ get_rd g k r fs s >>= λ q.
            respond r q.0 q.1 >>= λ text. ok (q.0, (text, (fs, (false, s))))
        | addfile ↦
            add_file g k r fs s >>= λ q. respond r q.0 k.unset >>= λ text. ok (q.0, (text, q.1))
      ]
        ≡ ok o
      → o.0 ≢ status_ok
      → IsRefusal fs s o
  by_method r fs s o getrd run ne =
      let (q, looked, last) = bind-eq-ok (get_rd g k r fs s) _ run in
      refused r fs s o q.0 q.1 last ne
  by_method r fs s o addfile run ne =
      let (q, tried, last) = bind-eq-ok (add_file g k r fs s) _ run in
      let (text, said, done) = bind-eq-ok (respond r q.0 k.unset) _ last in
      let is : (q.0, (text, q.1)) ≡ o = cc in
      let n : q.0 ≢ status_ok = λ e. ne (subst (λ t. t.0 ≡ status_ok) is e) in
      let same = add_file-fails r fs s q.0 q.1 n tried in
      refused r fs s o q.0 k.unset
        (ap (λ x. respond r q.0 k.unset >>= λ text. ok (q.0, (text, x))) (sym same) ∙ last) ne

  -- A request that fails is answered by the text of its error, and changes nothing: whatever went
  -- wrong, the objects and the daemon are as they were and there is nothing to flood.
  pub process_clnt_request-IsRefusal :
      (r : ReqInfo) (fs : Files) (s : Daemon A) (o : Outcome)
      → process_clnt_request g k r fs s ≡ ok o
      → o.0 ≢ status_ok
      → IsRefusal fs s o
  unfolding process_clnt_request
  process_clnt_request-IsRefusal r fs s o run ne = by_status r.req_status run
    where
      by_status :
          (status : RequestStatus)
          → elim status as (λ x. Run Outcome) [
            | status_ok ↦ elim r.method [
              | getrd ↦ get_rd g k r fs s >>= λ q.
                  respond r q.0 q.1 >>= λ text. ok (q.0, (text, (fs, (false, s))))
              | addfile ↦ add_file g k r fs s >>= λ q.
                  respond r q.0 k.unset >>= λ text. ok (q.0, (text, q.1))
            ]
            | _ ↦ respond r r.req_status k.unset >>= λ text.
                ok (r.req_status, (text, (fs, (false, s))))
          ]
            ≡ ok o
          → IsRefusal fs s o
      by_status status_ok run = by_method r fs s o r.method run ne
      by_status error_not_found run = refused r fs s o r.req_status k.unset run ne
      by_status error_bad_request run = refused r fs s o r.req_status k.unset run ne
      by_status error_server_internal run = refused r fs s o r.req_status k.unset run ne
      by_status error_record_exists run = refused r fs s o r.req_status k.unset run ne
