-- ===== src/Tests/Daemons.antt =====
-- src/lsa.c, src/client_info.c and src/sel_timeout.c on a daemon with one announcement.
use dhttp.Base.{ℕ, ◌≡◌, refl, arith, Bool, true, false, inr, List, [], ◌∷◌, ◌==◌, ok, Returns}
use dhttp.Base.Int.{pos, minus}
use dhttp.Config.{NodeInfo}
use dhttp.Ht.Empty.{emptied}
use dhttp.Ht.Keys.{uint_to_idx, cmp_int}
use dhttp.Ht.{Ht, ht_find}
use dhttp.Lsa.{Lsa, LsaHeader, PendLsa, Intervals, type_ad}
use dhttp.Pending.Flooding.{IsTarget, Selects, sent_to, flood_over-announced}
use dhttp.Pending.{Addrs, flood_over}
use dhttp.Pft.{null}
use dhttp.Router.Stale.{IsStale, process_ad-IsStale}
use dhttp.Router.Timeouts.{aged_chains, preprocess_timeout-aged_chains}
use dhttp.Router.{Daemon, Setting, Packet, process_ad, preprocess_timeout}

abbrev pub header : LsaHeader
header = record {
  ver = 1;
  ttl = 32;
  type = type_ad;
  snder_id = 7;
  seq_num = 5;
  num_lnk_entr = pos 0;
  num_obj_entr = pos 0;
}

abbrev known : Lsa
known = record {
  is_valid = true;
  time_left = pos 120;
  ann_size = 20;
  head = header;
  links = [];
  objs = [];
}

abbrev table : Ht Lsa
table = record { buckets = (known ∷ []) ∷ []; entr_cnt = 1 }

-- a node's address is its id here
abbrev pub addrs : Addrs ℕ
addrs = record { same = λ a b. a == b; addr_of = λ n. n.nid }

abbrev pub intervals : Intervals
intervals = record { lsa_timeout = pos 120; nb_timeout = pos 30; retran_timeout = pos 3 }

abbrev neighbour : ℕ → Bool → NodeInfo
neighbour id up = record {
  nid = id;
  rd_port = pos 1;
  local_port = pos 2;
  server_port = pos 3;
  ip = [];
  is_valid = up;
}

abbrev neighbours : List NodeInfo
neighbours = neighbour 1 true ∷ neighbour 7 true ∷ neighbour 8 true ∷ neighbour 9 false ∷ []

-- node 1 floods the announcement of node 7 to node 8 alone
flood_over-announced_example :
    (ts : List NodeInfo) × Selects (IsTarget addrs 1 7 7) neighbours ts
    × (flood_over addrs intervals (λ n. true) 1 7 7 known neighbours []
        ≡ (true, sent_to addrs intervals known ts []))
flood_over-announced_example = flood_over-announced addrs intervals 1 7 7 known neighbours []

abbrev nothing : PendLsa ℕ
nothing = record {
  snder_id = 0;
  seq_num = 0;
  addr = 0;
  time_left = pos 0;
  is_acked = false;
  type = type_ad;
  head = header;
  links = [];
  objs = [];
}

abbrev pub setting : Setting ℕ
setting = record {
  addrs = addrs;
  no_addr = 0;
  iv = intervals;
  adv_interval = pos 30;
  g_nid = 1;
  files = emptied 100;
  buff_granted = true;
  lsa_granted = true;
  reload_granted = true;
  packet_granted = true;
  junk = nothing;
  pft_grants = λ k. true;
  flood_grants = λ n. true;
}

abbrev pub daemon : Daemon ℕ
daemon = record {
  nodes = emptied 100;
  lsas = table;
  tree = null;
  table = [];
  outbox = [];
  acks = emptied 50;
  adv_timeout = pos 30;
}

abbrev again : Packet ℕ
again = record { head = header; links = []; objs = []; from = 7 }

again-IsStale : IsStale setting again daemon
unfolding ht_find uint_to_idx cmp_int
again-IsStale = inr (known, refl, omega arith)

process_ad-IsStale_example :
    Returns (process_ad setting again daemon) λ r. record (r.1) { outbox = [] } ≡ daemon
process_ad-IsStale_example = process_ad-IsStale setting again daemon again-IsStale

preprocess_timeout-aged_chains_example :
    preprocess_timeout setting 2 daemon
    ≡ ok (
      record daemon {
        lsas = record table { buckets = aged_chains 1 2 table.buckets };
        adv_timeout = minus (pos 30) 2;
      },
      (false, false),
    )
preprocess_timeout-aged_chains_example =
    preprocess_timeout-aged_chains setting 2 daemon ((λ e. refl, tt), tt)
