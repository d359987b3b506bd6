-- ===== src/Routed/Started.antt =====
-- src/routed.c: a start that succeeds, and the rounds of the loop after it.
use dhttp.Base.{
  ℕ, ◌≡◌, ◌≢◌, refl, subst, arith, Bool, true, false, not, ◌&&◌, Bool-cases, inl, inr, Option, none,
  some, List, length, ltb, ◌==◌, if◌then◌else◌, Run, ok, bind-eq-ok,
}
use dhttp.BufCtrl.{bufblk_size, new_buf}
use dhttp.ClientTable.Buffers.{IsSound}
use dhttp.ClientTable.Records.{create_clnt_info-IsSound}
use dhttp.ClientTable.{SocketType, tcp, udp, Client, fd_setsize, create_clnt_info}
use dhttp.Config.{NodeInfo, nb_nodes_ht}
use dhttp.EventLoop.Serving.{IsServing}
use dhttp.EventLoop.{World, fd_set}
use dhttp.Ht.{ht_find}
use dhttp.Router.{Daemon, Setting, flood}
use dhttp.Routed.Served.{AllFaithful, rounds-IsServing}
use dhttp.Routed.{
  Platform, Running, Round, args_of, or_exit, configure, announce_first, create, begun,
  open_routing, open_sockets, start, rounds,
}

or_exit-eq-some :
    {X Y : Type 0} (o : Option X) (next : X → Run (Option Y)) {y : Y}
    → or_exit o next ≡ ok (some y)
    → (x : X) × (o ≡ some x) × (next x ≡ ok (some y))
or_exit-eq-some none next e = absurd (cc)
or_exit-eq-some (some x) next e = (x, refl, e)

unless-eq-some :
    {Y : Type 0} (b : Bool) (next : Run (Option Y)) {y : Y}
    → (if b then ok none else next) ≡ ok (some y)
    → next ≡ ok (some y)
unless-eq-some true next e = absurd (cc)
unless-eq-some false next e = e

create-made :
    (granted send_granted : Bool) (junk : List ℕ) (type : SocketType) (c : Client)
    → (create_clnt_info granted send_granted junk type c).0 ≡ true
    → ((create_clnt_info granted send_granted junk type c).1.is_exist ≡ true)
      × ((create_clnt_info granted send_granted junk type c).1.sock_type ≡ type)
unfolding create_clnt_info new_buf
create-made true true junk type c h = (refl, refl)
create-made true false junk type c h = absurd (cc)
create-made false send_granted junk type c h = absurd (cc)

-- the record of a socket that was made, among the others
abbrev IsMade : ℕ → SocketType → (ℕ → Client) → (ℕ → Client) → Type 0
IsMade fd type old new =
    (c : Client) × (new ≡ (λ i. if fd == i then c else old i))
    × (c.is_exist ≡ true)
    × (c.sock_type ≡ type)
    × IsSound c

module _ {A : Type 0} (p : Platform A) (size : length p.junk ≡ bufblk_size) where
  create-IsMade :
      (fd : ℕ) (type : SocketType) (old new : ℕ → Client)
      → create p fd type old ≡ ok new
      → IsMade fd type old new
  unfolding create
  create-IsMade fd type old new run = elim (Bool-cases (ltb fd fd_setsize)) [
    | inr e ↦ absurd (cc (rw e at run))
    | inl e ↦
        let made = create_clnt_info p.buf_granted p.send_granted p.junk type (old fd) in
        elim (Bool-cases made.0) [
          | inr fails ↦ (let r = rw e at run in absurd (cc (rw fails at r)))
          | inl done ↦
              let r = rw e at run in
              let is : new ≡ (λ i. if fd == i then made.1 else old i) = cc (rw done at r) in
              let (exists, typed) = create-made _ _ _ _ _ done in
              (made.1, is, exists, typed, create_clnt_info-IsSound _ _ _ _ _ size done)
        ]
  ]

  -- the two sockets, where no other exists
  made-IsServing :
      (lc rd : ℕ) (one both : ℕ → Client) (w : World A)
      → lc ≢ rd
      → ((i : ℕ) → (p.memory i).is_exist ≡ false)
      → IsMade lc tcp p.memory one
      → IsMade rd udp one both
      → w.clnt_set ≡ both
      → w.rdset ≡ fd_set rd (fd_set lc (λ i. false))
      → w.wrset ≡ fd_set rd (λ i. false)
      → IsServing rd w
  made-IsServing lc rd one both w ne clear (c, one_is, exists, typed, sound)
        (d, both_is, exists', typed', sound') at reads writes =
      let same : (rd == rd) ≡ true = ground arith in
      let held : (i : ℕ)
          → w.clnt_set i ≡ (if rd == i then d else if lc == i then c else p.memory i) =
        λ i. rw (at, both_is, one_is) refl in
      record {
        reads = λ i. elim (Bool-cases (rd == i)) [
          | inl e ↦ rw (held i, e) (λ h. exists')
          | inr e ↦ elim (Bool-cases (lc == i)) [
            | inl f ↦ rw (held i, e, f) (λ h. exists)
            | inr f ↦ rw (reads, e, f) (λ h. cc)
          ]
        ];
        writes = λ i. elim (Bool-cases (rd == i)) [
          | inl e ↦ rw (held i, e) (λ h. exists')
          | inr e ↦ rw (writes, e) (λ h. cc)
        ];
        sound = λ i. elim (Bool-cases (rd == i)) [
          | inl e ↦ rw (held i, e) (λ h. sound')
          | inr e ↦ elim (Bool-cases (lc == i)) [
            | inl f ↦ rw (held i, e, f) (λ h. sound)
            | inr f ↦ rw (held i, e, f) (λ h. (let no = clear i in cc))
          ]
        ];
        routing = rw (held rd, same) exists';
        is_udp = rw (held rd, same) typed';
      }

  open_routing-IsServing :
      (g : Setting A) (own : NodeInfo) (s : Daemon A) (lc : ℕ) (one : ℕ → Client) (r : Running A)
      → ((i : ℕ) → (p.memory i).is_exist ≡ false)
      → IsMade lc tcp p.memory one
      → open_routing p g own s lc one ≡ ok (some r)
      → r.lc_sock ≢ r.rd_sock
      → IsServing r.rd_sock r.world × (r.world.pos ≡ 0)
  unfolding open_routing
  open_routing-IsServing g own s lc one r clear made run ne =
      let (rd, rd_is, at_rd) = or_exit-eq-some p.rd_sock _ run in
      let (both, made', after) =
        bind-eq-ok (create p rd udp one) _ (unless-eq-some (not p.rd_bound) _ at_rd) in
      let (s', flooded, last) = bind-eq-ok (flood g g.g_nid g.no_addr s) _ after in
      let is : begun p g own lc rd both s' ≡ r = cc in
      subst (λ t. IsServing t.rd_sock t.world × (t.world.pos ≡ 0)) is
        (
          made-IsServing lc rd one both (begun p g own lc rd both s').world
              (λ e. ne (subst (λ t. t.lc_sock ≡ t.rd_sock) is e)) clear made
              (create-IsMade rd udp one both made') refl refl refl,
          refl,
        )

  open_sockets-IsServing :
      (g : Setting A) (own : NodeInfo) (s : Daemon A) (r : Running A)
      → ((i : ℕ) → (p.memory i).is_exist ≡ false)
      → open_sockets p g own s ≡ ok (some r)
      → r.lc_sock ≢ r.rd_sock
      → IsServing r.rd_sock r.world × (r.world.pos ≡ 0)
  unfolding open_sockets
  open_sockets-IsServing g own s r clear run ne =
      let (lc, lc_is, at_lc) = or_exit-eq-some p.lc_sock _ run in
      let (one, made, after) =
        bind-eq-ok (create p lc tcp p.memory) _
          (unless-eq-some (not (p.lc_bound && p.lc_listens)) _ at_lc) in
      open_routing-IsServing g own s lc one r clear (create-IsMade lc tcp p.memory one made) after
        ne

  start-IsServing :
      (args : List (List ℕ)) (r : Running A)
      → ((i : ℕ) → (p.memory i).is_exist ≡ false)
      → start p args ≡ ok (some r)
      → r.lc_sock ≢ r.rd_sock
      → IsServing r.rd_sock r.world × (r.world.pos ≡ 0)
  unfolding start
  start-IsServing args r clear run ne =
      let (a, a_is, at_a) = or_exit-eq-some (args_of args) _ run in
      let (c, configured, at_c) = bind-eq-ok (configure p a) _ at_a in
      let (gn, c_is, at_g) = or_exit-eq-some c _ at_c in
      let (own, found, at_own) = or_exit-eq-some (ht_find nb_nodes_ht gn.0.g_nid gn.1) _ at_g in
      let (s, announced, last) = bind-eq-ok (announce_first gn.0 gn.1) _ at_own in
      open_sockets-IsServing gn.0 own s r clear last ne

  -- From a start that succeeds, in memory that holds no client, with two different sockets and
  -- blocks of BUFBLK_SIZE bytes, every sequence of rounds that nothing stops and in which accept
  -- gives no socket that is open leaves the daemon serving: each socket that select will wait for is
  -- open, the routing socket is open and is a UDP socket, and the buffers of every client are sound.
  pub rounds-start-IsServing :
      (args : List (List ℕ)) (r : Running A) (rs : List (Round A)) (w : World A)
      → ((i : ℕ) → (p.memory i).is_exist ≡ false)
      → AllFaithful rs
      → start p args ≡ ok (some r)
      → r.lc_sock ≢ r.rd_sock
      → rounds r.lc_sock r.rd_sock rs r.world ≡ ok w
      → IsServing r.rd_sock w
  rounds-start-IsServing args r rs w clear f run ne served =
      (rounds-IsServing r.lc_sock r.rd_sock rs r.world w f (start-IsServing args r clear run ne)
        served).0
