-- ===== src/Lsa.antt =====
-- src/lsa.c and src/lsa.h: the link state announcements and the table of them.
-- An announcement's payload is kept as its links and its objects, in order; the counts are those of
-- the header. A call that allocates takes the answer of malloc. A `long` is an integer of ℤ.
pub mod Updates
pub mod Numbers
use dhttp.Base.{
  ltb, ok, fault, assertion_failed, ℕ, zero, suc, ◌+◌, ◌-◌, ◌*◌, ◌%◌, ◌^◌, Bool, true, false, not,
  ◌&&◌, Option, none, some, List, [], ◌∷◌, ◌++◌, length, get_or, set, map, ltb, ◌==◌, if◌then◌else◌,
  Run, ok, fault, out_of_bounds, assertion_failed, replicate, ◌>>=◌,
}
use dhttp.Base.Int.{ℤ, pos, negsuc, to_int}
use dhttp.Config.{NodeInfo, nb_nodes_ht, FileEntry}
use dhttp.Ht.Keys.{uint_to_idx, cmp_int, cmp_int_iff, uint_to_idx-lt}
use dhttp.Ht.{Keyed, Ht, ht_find, ht_insert, ht_remove, change_at}

abbrev pub lsa_max_ttl : ℕ
lsa_max_ttl = 32

abbrev pub lsa_bucket_size : ℕ
lsa_bucket_size = 100

-- sizeof(lsa_header_t), sizeof(lnk_entr_t) and sizeof(obj_entr_t)
abbrev pub header_size : ℕ
header_size = 20

abbrev pub link_entry_len : ℕ
link_entry_len = 4

abbrev pub obj_entry_len : ℕ
obj_entry_len = 10

pub data LsaType : Type 0 where
  type_ad type_ack type_seq : LsaType

pub record LsaHeader : Type 0 where
  pub ver : ℕ
  pub ttl : ℕ
  pub type : LsaType
  pub snder_id : ℕ
  pub seq_num : ℕ
  pub num_lnk_entr : ℤ
  pub num_obj_entr : ℤ

-- lsa_t; `is_valid` is whether the field holds LSA_VALID
pub record Lsa : Type 0 where
  pub is_valid : Bool
  pub time_left : ℤ
  pub ann_size : ℕ
  pub head : LsaHeader
  pub links : List ℕ
  pub objs : List (List ℕ)

-- pend_lsa_t with an address of type `A`
pub record PendLsa (A : Type 0) : Type 0 where
  pub snder_id : ℕ
  pub seq_num : ℕ
  pub addr : A
  pub time_left : ℤ
  pub is_acked : Bool
  pub type : LsaType
  pub head : LsaHeader
  pub links : List ℕ
  pub objs : List (List ℕ)

-- g_lsa_ht
abbrev pub lsa_ht : Keyed ℕ Lsa
lsa_ht = record {
  key_of = λ l. l.head.snder_id;
  key_to_idx = uint_to_idx;
  same = cmp_int;
  same_iff = cmp_int_iff;
  key_to_idx-lt = uint_to_idx-lt;
}

-- the intervals that `main` sets
pub record Intervals : Type 0 where
  pub lsa_timeout : ℤ
  pub nb_timeout : ℤ
  pub retran_timeout : ℤ

abbrev pub is_positive : ℤ → Bool
is_positive (pos n) = ltb 0 n
is_positive (negsuc n) = false

unfoldable pub set_retran_timeout_interval : ℤ → Intervals → Run Intervals
set_retran_timeout_interval interval iv =
    if is_positive interval
    then ok (record iv { retran_timeout = interval })
    else fault assertion_failed

unfoldable pub set_nb_timeout_interval : ℤ → Intervals → Run Intervals
set_nb_timeout_interval interval iv =
    if is_positive interval
    then ok (record iv { nb_timeout = interval })
    else fault assertion_failed

unfoldable pub set_lsa_timeout_interval : ℤ → Intervals → Run Intervals
set_lsa_timeout_interval interval iv =
    if is_positive interval
    then ok (record iv { lsa_timeout = interval })
    else fault assertion_failed

-- one bucket of the neighbours: those that are up, without the node itself
abbrev pub links_in : ℕ → List NodeInfo → List ℕ
links_in g_nid [] = []
links_in g_nid (n ∷ c) =
    let rest = links_in g_nid c in if not (n.nid == g_nid) && n.is_valid then n.nid ∷ rest else rest

abbrev pub local_links : ℕ → List (List NodeInfo) → List ℕ
local_links g_nid [] = []
local_links g_nid (c ∷ cs) = links_in g_nid c ++ local_links g_nid cs

abbrev pub local_objs : List (List FileEntry) → List (List ℕ)
local_objs [] = []
local_objs (c ∷ cs) = map (λ p. p.file_name) c ++ local_objs cs

-- the announcement that `init_local_lsa` fills in
pub local_lsa : Intervals → ℕ → Ht NodeInfo → Ht FileEntry → ℕ → Lsa
local_lsa iv g_nid nodes files seq_num =
    let links = local_links g_nid nodes.buckets in
    let objs = local_objs files.buckets in
    record {
      is_valid = true;
      time_left = iv.lsa_timeout;
      ann_size = header_size + length links * link_entry_len + files.entr_cnt * obj_entry_len;
      head = record {
        ver = 1;
        ttl = lsa_max_ttl;
        type = type_ad;
        snder_id = g_nid;
        seq_num = seq_num;
        num_lnk_entr = to_int (pos (length links));
        num_obj_entr = to_int (pos files.entr_cnt);
      };
      links = links;
      objs = objs;
    }

unfoldable pub init_local_lsa :
    Intervals → ℕ → Ht NodeInfo → Ht FileEntry → Bool → ℕ → Ht Lsa → Option Lsa × Ht Lsa
unfolding local_lsa
init_local_lsa iv g_nid nodes files granted seq_num t =
    if granted
    then (let llsa = local_lsa iv g_nid nodes files seq_num in (some llsa, ht_insert lsa_ht llsa t))
    else (none, t)

abbrev pub empty_lsa_ht : Ht Lsa
empty_lsa_ht = record { buckets = replicate lsa_bucket_size []; entr_cnt = 0 }

unfoldable pub init_lsa : Intervals → ℕ → Ht NodeInfo → Ht FileEntry → Bool → Option Lsa × Ht Lsa
init_lsa iv g_nid nodes files granted = init_local_lsa iv g_nid nodes files granted 0 empty_lsa_ht

-- the local announcement anew, with its sequence number; if malloc fails the old one goes back
unfoldable pub reload_local_lsa :
    Intervals → ℕ → Ht NodeInfo → Ht FileEntry → Bool → Ht Lsa → Run (Option Lsa × Ht Lsa)
reload_local_lsa iv g_nid nodes files granted t = elim (ht_find lsa_ht g_nid t) [
  | none ↦ fault assertion_failed
  | some old ↦ ht_remove lsa_ht g_nid t >>= λ t'. elim granted [
    | true ↦ ok (init_local_lsa iv g_nid nodes files true old.head.seq_num t')
    | false ↦ ok (none, ht_insert lsa_ht old t')
  ]
]

-- the announcement that a packet brings; the ttl is of 8 bits
unfoldable pub stored_lsa : Intervals → Ht NodeInfo → LsaHeader → List ℕ → List (List ℕ) → Lsa
stored_lsa iv nodes h links objs = record {
  is_valid = true;
  time_left = elim (ht_find nb_nodes_ht h.snder_id nodes) [
    | none ↦ iv.lsa_timeout
    | some nb ↦ iv.nb_timeout
  ];
  ann_size = header_size + (length links * link_entry_len + length objs * obj_entry_len);
  head = record h { ttl = (h.ttl + 2 ^ 8 - 1) % 2 ^ 8; type = type_ad };
  links = links;
  objs = objs;
}

-- the table without an old announcement of the sender
dropped : ℕ → Ht Lsa → Run (Ht Lsa)
dropped snder_id t = elim (ht_find lsa_ht snder_id t) [
  | none ↦ ok t
  | some old ↦ ht_remove lsa_ht snder_id t
]

unfoldable pub update_lsa_entr :
    Intervals
    → Ht NodeInfo
    → Bool
    → LsaHeader
    → List ℕ
    → List (List ℕ)
    → Ht Lsa
    → Run (Option Lsa × Ht Lsa)
unfolding stored_lsa dropped
update_lsa_entr iv nodes granted h links objs t =
    if granted
    then (dropped h.snder_id t >>= λ t'.
        let new_lsa = stored_lsa iv nodes h links objs in
        ok (some new_lsa, ht_insert lsa_ht new_lsa t'))
    else ok (none, t)

abbrev pub with_seq_num : ℕ → Lsa → Lsa
with_seq_num n l = record l { head = record (l.head) { seq_num = n } }

-- `true` for the result 1
unfoldable pub update_seq_num : ℕ → ℕ → Ht Lsa → Bool × Ht Lsa
update_seq_num snder_id seq_num t = elim (ht_find lsa_ht snder_id t) [
  | none ↦ (false, t)
  | some l ↦
      if ltb l.head.seq_num seq_num
      then (true, change_at lsa_ht snder_id (with_seq_num seq_num) t)
      else (false, t)
]
