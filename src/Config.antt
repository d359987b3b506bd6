-- ===== src/Config.antt =====
-- src/config.c and src/config.h: the neighbours, the local objects and the two files they come
-- from. A C string is the list of its bytes before the terminating 0; `content` is a file's bytes.
-- A call that may fail outside the program takes the answer of malloc or fopen, `true` for success.
pub mod Lines
pub mod Objects
use mathlib.Core.Option
use dhttp.Base.{
  ℕ, zero, suc, ◌+◌, ◌-◌, Bool, true, false, ◌||◌, Option, none, some, List, [], ◌∷◌, ◌++◌, length,
  and_then, ltb, ◌==◌, if◌then◌else◌, Run, ok, fault, out_of_bounds, out_of_fuel, replicate, ◌>>=◌,
}
use dhttp.Base.Int.{ℤ}
use dhttp.Ht.Keys.{
  uint_to_idx, cmp_int, str_to_idx, cmpstr, cmp_int_iff, cmpstr_iff, uint_to_idx-lt, str_to_idx-lt,
}
use dhttp.Ht.{Keyed, Ht, ht_find, ht_insert}
use dhttp.StrHelper.{str_to_num, str_to_uint32}

abbrev pub obj_name_len : ℕ
obj_name_len = 9

abbrev pub max_file_path : ℕ
max_file_path = 255

abbrev pub ip_len : ℕ
ip_len = 15

abbrev pub lfile_line_len : ℕ
lfile_line_len = obj_name_len + max_file_path + 2

abbrev pub nb_node_line_len : ℕ
nb_node_line_len = 50

pub record FileEntry : Type 0 where
  pub file_name : List ℕ
  pub file_path : List ℕ

pub record NodeInfo : Type 0 where
  pub nid : ℕ
  pub rd_port : ℤ
  pub local_port : ℤ
  pub server_port : ℤ
  pub ip : List ℕ
  pub is_valid : Bool

-- g_lfile_ht and g_nb_nodes_ht
abbrev pub lfile_ht : Keyed (List ℕ) FileEntry
lfile_ht = record {
  key_of = λ p. p.file_name;
  key_to_idx = str_to_idx;
  same = cmpstr;
  same_iff = cmpstr_iff;
  key_to_idx-lt = str_to_idx-lt;
}

abbrev pub nb_nodes_ht : Keyed ℕ NodeInfo
nb_nodes_ht = record {
  key_of = λ p. p.nid;
  key_to_idx = uint_to_idx;
  same = cmp_int;
  same_iff = cmp_int_iff;
  key_to_idx-lt = uint_to_idx-lt;
}

abbrev pub empty_ht : {N : Type 0} → Ht N
empty_ht = record { buckets = replicate 100 []; entr_cnt = 0 }

unfoldable pub invalid_nb : NodeInfo → NodeInfo
invalid_nb nb = record nb { is_valid = false }

unfoldable pub valid_nb : NodeInfo → NodeInfo
valid_nb nb = record nb { is_valid = true }

-- the delimiters " \n" of strtok
abbrev pub is_delim : ℕ → Bool
is_delim c = c == b' ' || c == b'\n'

-- strtok over what an earlier call left: the bytes up to a delimiter, and what stands behind it
unfoldable pub token_end : List ℕ → List ℕ × List ℕ
token_end [] = ([], [])
token_end (c ∷ s) =
    let (token, rest) = token_end s in if is_delim c then ([], s) else (c ∷ token, rest)

unfoldable pub strtok : List ℕ → Option (List ℕ × List ℕ)
strtok [] = none
strtok (c ∷ s) = let rest = strtok s in if is_delim c then rest else some (token_end (c ∷ s))

-- fgets with room for `room` bytes, on a file that is not at its end
unfoldable pub fgets : ℕ → List ℕ → List ℕ × List ℕ
fgets zero content = ([], content)
fgets (suc room) [] = ([], [])
fgets (suc room) (c ∷ content) =
    let (line, rest) = fgets room content in
    if c == b'\n' then (c ∷ [], content) else (c ∷ line, rest)

-- a token of at most `max` bytes
unfoldable pub token_within : ℕ → List ℕ → Option (List ℕ × List ℕ)
token_within max s = and_then (strtok s) λ r. if ltb max (length r.0) then none else some r

-- one round of the loop of `load_localfile`; `none` is the jump to `err`
unfoldable pub load_file_line : List ℕ → Option FileEntry
load_file_line line = and_then (token_within obj_name_len line) λ name.
    and_then (token_within max_file_path name.1)
      λ path. some (record { file_name = name.0; file_path = path.0 })

-- The loop on fuel: every round takes a byte of the file or more. `true` for 0.
unfoldable pub load_files : ℕ → (ℕ → Bool) → List ℕ → Ht FileEntry → Run (Bool × Ht FileEntry)
load_files fuel grants [] t = ok (true, t)
load_files zero grants (c ∷ content) t = fault out_of_fuel
load_files (suc fuel) grants (c ∷ content) t =
    let (line, rest) = fgets lfile_line_len (c ∷ content) in
    elim (grants fuel) [
      | false ↦ ok (false, t)
      | true ↦ elim (load_file_line line) [
        | none ↦ ok (false, t)
        | some p ↦ load_files fuel grants rest (ht_insert lfile_ht p t)
      ]
    ]

-- `content` is `none` when fopen fails
unfoldable pub load_localfile : (ℕ → Bool) → Option (List ℕ) → Run (Bool × Ht FileEntry)
load_localfile grants none = ok (false, empty_ht)
load_localfile grants (some content) = load_files (length content) grants content empty_ht

-- a port, and the flag of errno after it
token_num : Bool → List ℕ → Option (ℤ × (Bool × List ℕ))
token_num errno s =
    and_then (strtok s)
      λ (token, rest). (let r = str_to_num errno token in and_then r.1 λ n. some (n, (r.0, rest)))

token_uint32 : Bool → List ℕ → Option (ℕ × (Bool × List ℕ))
token_uint32 errno s =
    and_then (strtok s) λ (token, rest).
      (let r = str_to_uint32 errno token in and_then r.1 λ n. some (n, (r.0, rest)))

-- one round of the loop of `load_neighbor_nodes`
unfoldable pub load_node_line : Bool → List ℕ → Option (NodeInfo × Bool)
unfolding token_num token_uint32
load_node_line errno line = and_then (token_uint32 errno line) λ (nid, (e1, r1)).
    and_then (token_within ip_len r1) λ (ip, r2). and_then (token_num e1 r2) λ (rd, (e3, r3)).
      and_then (token_num e3 r3) λ (lc, (e4, r4)). and_then (token_num e4 r4) λ (server, (e5, r5)).
        some (
          record {
            nid = nid;
            rd_port = rd;
            local_port = lc;
            server_port = server;
            ip = ip;
            is_valid = true;
          },
          e5,
        )

unfoldable pub load_nodes : ℕ → (ℕ → Bool) → Bool → List ℕ → Ht NodeInfo → Run (Bool × Ht NodeInfo)
load_nodes fuel grants errno [] t = ok (true, t)
load_nodes zero grants errno (c ∷ content) t = fault out_of_fuel
load_nodes (suc fuel) grants errno (c ∷ content) t =
    let (line, rest) = fgets nb_node_line_len (c ∷ content) in
    elim (grants fuel) [
      | false ↦ ok (false, t)
      | true ↦ elim (load_node_line errno line) [
        | none ↦ ok (false, t)
        | some (p, flag) ↦ load_nodes fuel grants flag rest (ht_insert nb_nodes_ht p t)
      ]
    ]

unfoldable pub load_neighbor_nodes : (ℕ → Bool) → Bool → Option (List ℕ) → Run (Bool × Ht NodeInfo)
load_neighbor_nodes grants errno none = ok (false, empty_ht)
load_neighbor_nodes grants errno (some content) =
    load_nodes (length content) grants errno content empty_ht

-- the line that `add_localfile` writes
abbrev pub file_line : List ℕ → List ℕ → List ℕ
file_line name path = name ++ b' ' ∷ (path ++ b'\n' ∷ [])

-- the objects in memory, and the bytes of the file `localfile_path`
pub record Files : Type 0 where
  pub table : Ht FileEntry
  pub content : List ℕ

-- the results 0, ENTRY_EXISTS and -1
pub data Added : Type 0 where
  added entry_exists failed : Added

-- `strcpy` of both arguments into the new entry, whose arrays have a place for the last 0
new_entry : List ℕ → List ℕ → Run FileEntry
new_entry name path =
    if ltb obj_name_len (length name) || ltb max_file_path (length path)
    then fault out_of_bounds
    else ok (record { file_name = name; file_path = path })

unfoldable pub add_localfile : Bool → Bool → List ℕ → List ℕ → Files → Run (Added × Files)
unfolding new_entry
add_localfile granted opens name path fs = elim (ht_find lfile_ht name fs.table) [
  | some s ↦ ok (entry_exists, fs)
  | none ↦ elim granted [
    | false ↦ ok (failed, fs)
    | true ↦ new_entry name path >>= λ p. elim opens [
      | false ↦ ok (failed, fs)
      | true ↦ ok (
        added,
        record {
          table = ht_insert lfile_ht p fs.table;
          content = fs.content ++ file_line name path;
        },
      )
    ]
  ]
]
