-- ===== src/Router/Datagrams.antt =====
-- src/client_info.c, `clnt_process_rt_inf`: how a datagram is read from the routing socket. The
-- header is read with MSG_PEEK, which leaves the datagram where it is.
use mathlib.Core.List.{append-nil, append_assoc}
use dhttp.Base.{
  ◌≡◌, refl, ◌∙◌, ◌⊎◌, inl, inr, Bool, false, List, [], ◌∷◌, ◌++◌, Run, ok, ◌>>=◌, if◌then◌else◌,
}
use dhttp.Lsa.{type_ad, type_ack, type_seq}
use dhttp.Router.{Daemon, Setting, Packet, clnt_process_rt_inf}

-- What waits at the socket: less than a header; a header of a type that the code does not know; a
-- header that announces more than follows; a whole packet.
pub data Datagram (A : Type 0) : Type 0 where
  short : A → Datagram A
  unknown : A → Datagram A
  torn : Packet A → Datagram A
  whole : Packet A → Datagram A

abbrev pub Served : Type 0 → Type 0
Served A = List (Datagram A) × (Bool × Daemon A)

module _ {A : Type 0} (g : Setting A) where
  -- of an announcement that is cut off, all is read and nothing is done
  unfoldable pub read_torn : Packet A → List (Datagram A) → Daemon A → Run (Served A)
  read_torn p q s = elim p.head.type [
    | type_ad ↦ ok (if g.buff_granted then q else torn p ∷ q, (false, s))
    | type_ack ↦ clnt_process_rt_inf g p s >>= λ r. ok (q, r)
    | type_seq ↦ clnt_process_rt_inf g p s >>= λ r. ok (q, r)
  ]

  -- an announcement stays in the queue if there is no memory for it
  unfoldable pub read_whole : Packet A → List (Datagram A) → Daemon A → Run (Served A)
  read_whole p q s = clnt_process_rt_inf g p s >>= λ r. elim p.head.type [
    | type_ad ↦ ok (if g.buff_granted then q else whole p ∷ q, r)
    | type_ack ↦ ok (q, r)
    | type_seq ↦ ok (q, r)
  ]

  -- one call: what is left in the queue, whether there is something to send, and the daemon
  unfoldable pub receive : List (Datagram A) → Daemon A → Run (Served A)
  unfolding read_torn read_whole
  receive [] s = ok ([], (false, s))
  receive (short from ∷ q) s = ok (short from ∷ q, (false, s))
  receive (unknown from ∷ q) s = ok (unknown from ∷ q, (false, s))
  receive (torn p ∷ q) s = read_torn p q s
  receive (whole p ∷ q) s = read_whole p q s

  -- calls one after another, before each of which some datagrams arrive
  unfoldable pub receive_all :
      List (List (Datagram A)) → List (Datagram A) → Daemon A → Run (List (Datagram A) × Daemon A)
  receive_all [] q s = ok (q, s)
  receive_all (new ∷ later) q s = receive (q ++ new) s >>= λ r. receive_all later r.0 (r.1).1

  abbrev pub all_of : List (List (Datagram A)) → List (Datagram A)
  all_of [] = []
  all_of (new ∷ later) = new ++ all_of later

  -- too short for a header, or of a type that the code does not know
  abbrev pub IsRefused : Datagram A → Type 0
  IsRefused d = (from : A) × ((d ≡ short from) ⊎ (d ≡ unknown from))

  receive-IsRefused :
      (d : Datagram A) (q : List (Datagram A)) (s : Daemon A)
      → IsRefused d
      → receive (d ∷ q) s ≡ ok (d ∷ q, (false, s))
  unfolding receive
  receive-IsRefused d q s (from, inl e) = rw e refl
  receive-IsRefused d q s (from, inr e) = rw e refl

  -- A datagram that is too short for a header or of an unknown type is never taken from the socket:
  -- once it is the first, every later call leaves the queue as it is but for what arrives, and the
  -- daemon as it was, so that no packet of another node is handled any more.
  pub receive_all-IsRefused :
      (d : Datagram A) (q : List (Datagram A)) (s : Daemon A) (news : List (List (Datagram A)))
      → IsRefused d
      → receive_all news (d ∷ q) s ≡ ok (d ∷ (q ++ all_of news), s)
  unfolding receive_all
  receive_all-IsRefused d q s [] h = simp append-nil
  receive_all-IsRefused d q s (new ∷ later) h =
      rw (receive-IsRefused d (q ++ new) s h)
        (receive_all-IsRefused d (q ++ new) s later h ∙ simp append_assoc)
