-- ===== src/Pending/Flooding.antt =====
-- src/client_info.c: to whom an announcement is flooded.
use dhttp.Base.{ℕ, ◌⊎◌, ◌≡◌, ◌≢◌, refl, arith, true, false, Bool-cases, inl, inr, List, [], ◌∷◌}
use dhttp.Config.{NodeInfo}
use dhttp.Lsa.{Lsa, PendLsa, Intervals, type_ad}
use dhttp.Pending.{Addrs, floods_to, flood_over, lsa_create_ad_ann}

-- the list `ts` has those of `ns` of which `P` holds, in their order
pub data Selects {A : Type 0} (P : A → Type 0) : List A → List A → Type 0 where
  none_left : Selects P [] []
  taken : {n : A} {ns ts : List A} → P n → Selects P ns ts → Selects P (n ∷ ns) (n ∷ ts)
  dropped : {n : A} {ns ts : List A} → (P n → ⊥) → Selects P ns ts → Selects P (n ∷ ns) ts

-- A neighbour that is up, is not the node itself and not the sender of the announcement, and whose
-- address is not `except`.
abbrev pub IsTarget : {A : Type 0} → Addrs A → ℕ → ℕ → A → NodeInfo → Type 0
IsTarget addrs g_nid snder_id except n =
    (n.is_valid ≡ true)
    × (n.nid ≢ g_nid)
    × (n.nid ≢ snder_id)
    × (addrs.same except (addrs.addr_of n) ≡ false)

-- the announcement `l` for one neighbour, not acknowledged yet
abbrev pub announced : {A : Type 0} → Addrs A → Intervals → Lsa → NodeInfo → PendLsa A
announced addrs iv l n = record {
  snder_id = l.head.snder_id;
  seq_num = l.head.seq_num;
  addr = addrs.addr_of n;
  time_left = iv.retran_timeout;
  is_acked = false;
  type = type_ad;
  head = l.head;
  links = l.links;
  objs = l.objs;
}

-- the outbox after a packet for each of the neighbours, the last packet first
abbrev pub sent_to :
    {A : Type 0} → Addrs A → Intervals → Lsa → List NodeInfo → List (PendLsa A) → List (PendLsa A)
sent_to addrs iv l [] outbox = outbox
sent_to addrs iv l (n ∷ ns) outbox = sent_to addrs iv l ns (announced addrs iv l n ∷ outbox)

floods_to-cases :
    {A : Type 0} (addrs : Addrs A) (g_nid snder_id : ℕ) (except : A) (n : NodeInfo)
    → (floods_to addrs g_nid snder_id except n ≡ true) × IsTarget addrs g_nid snder_id except n
      ⊎ (floods_to addrs g_nid snder_id except n ≡ false)
        × (IsTarget addrs g_nid snder_id except n → ⊥)
unfolding floods_to
floods_to-cases addrs g_nid snder_id except n =
    elim (Bool-cases (floods_to addrs g_nid snder_id except n)) [
      | inl e ↦ inl (e, (ground arith, ground arith, ground arith, ground arith))
      | inr e ↦ inr (e, λ t. let (up, own, sender, address) = t in ground arith)
    ]

-- If every packet can be made, flooding adds one packet with the announcement for each neighbour
-- that is up, is not the node itself, not the sender of the announcement and not at the excepted
-- address, in their order, and none for any other.
pub flood_over-announced :
    {A : Type 0} (addrs : Addrs A) (iv : Intervals) (g_nid snder_id : ℕ) (except : A) (l : Lsa)
    (ns : List NodeInfo) (outbox : List (PendLsa A))
    → (ts : List NodeInfo) × Selects (IsTarget addrs g_nid snder_id except) ns ts
      × (flood_over addrs iv (λ n. true) g_nid snder_id except l ns outbox
          ≡ (true, sent_to addrs iv l ts outbox))
unfolding flood_over lsa_create_ad_ann
flood_over-announced addrs iv g_nid snder_id except l [] outbox = ([], none_left, refl)
flood_over-announced addrs iv g_nid snder_id except l (n ∷ ns) outbox =
    elim (floods_to-cases addrs g_nid snder_id except n) [
      | inl (e, target) ↦
          let (ts, rest, run) =
            flood_over-announced addrs iv g_nid snder_id except l ns
              (announced addrs iv l n ∷ outbox) in
          (n ∷ ts, taken target rest, rw e run)
      | inr (e, other) ↦
          let (ts, rest, run) = flood_over-announced addrs iv g_nid snder_id except l ns outbox in
          (ts, dropped other rest, rw e run)
    ]
