-- ===== src/Router/Stale.antt =====
-- src/client_info.c: an announcement that is no news leaves the routes alone.
use dhttp.Base.{
  ◌≤◌, ◌≡◌, ◌⊎◌, refl, arith, true, false, ◌&&◌, Bool-cases, inl, inr, some, ltb, ◌==◌, ==_iff,
  Returns,
}
use dhttp.Ht.{ht_find}
use dhttp.Lsa.{Lsa, lsa_ht}
use dhttp.Pending.{prep_seq_pkt}
use dhttp.Router.{Daemon, Setting, Packet, process_ad, acknowledge}

-- the node's own announcement, or one with no higher number than the stored one
abbrev pub IsStale : {A : Type 0} → Setting A → Packet A → Daemon A → Type 0
IsStale g p s =
    (p.head.snder_id ≡ g.g_nid)
    ⊎ ((l : Lsa) × (ht_find lsa_ht p.head.snder_id s.lsas ≡ some l)
        × (p.head.seq_num ≤ l.head.seq_num))

-- An announcement of the node itself, or one of a sender whose stored entry has at least its number,
-- is handled without a fault whatever is allocated, and changes nothing of the daemon but the packets
-- that wait to be sent.
pub process_ad-IsStale :
    {A : Type 0} (g : Setting A) (p : Packet A) (s : Daemon A)
    → IsStale g p s
    → Returns (process_ad g p s) λ r. record (r.1) { outbox = s.outbox } ≡ s
unfolding process_ad acknowledge
process_ad-IsStale g p s (inl own) =
    let e : (p.head.snder_id == g.g_nid) ≡ true = (==_iff _ _).1 own in
    ((false, s), rw (process_ad, e) refl, refl)
process_ad-IsStale g p s (inr (l, old, low)) =
    let high : ltb l.head.seq_num p.head.seq_num ≡ false = ground arith in
    elim (Bool-cases (p.head.snder_id == g.g_nid)) [
      | inl e ↦ ((false, s), rw (process_ad, e) refl, refl)
      | inr e ↦ elim (Bool-cases (p.head.seq_num == 0 && ltb 0 l.head.seq_num)) [
        | inl restart ↦ (
          (
            true,
            record s {
              outbox = prep_seq_pkt g.packet_granted g.junk p.head l.head.seq_num p.from s.outbox;
            },
          ),
          rw (process_ad, e, old, restart) refl,
          refl,
        )
        | inr other ↦ ((true, acknowledge g p s), rw (process_ad, e, old, other, high) refl, refl)
      ]
    ]
