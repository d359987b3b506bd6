-- ===== src/Config/Objects.antt =====
-- src/config.c: what `add_localfile` does to the objects in memory and in the file.
use mathlib.Core.List.{head?}
use dhttp.Base.{
  ap, Option-cases, ℕ, ◌≤◌, ◌<◌, ◌≡◌, refl, ◌∙◌, arith, Bool, true, false, ◌||◌, none, some, List,
  ◌++◌, length, ltb, ok, fault, out_of_bounds, Returns, inl, inr, ◌&&◌,
}
use dhttp.Config.{
  FileEntry, Files, Added, added, entry_exists, failed, add_localfile, new_entry, lfile_ht,
  obj_name_len, max_file_path, file_line,
}
use dhttp.Ht.Laws.{IsValid, ht_find-stack, ht_insert-stack}
use dhttp.Ht.{ht_find, ht_insert}

-- A new object whose path has more than MAX_FILE_PATH bytes overruns the entry if malloc succeeds.
pub add_localfile_overrun :
    (opens : Bool) (name path : List ℕ) (fs : Files)
    → ht_find lfile_ht name fs.table ≡ none
    → max_file_path < length path
    → add_localfile true opens name path fs ≡ fault out_of_bounds
unfolding add_localfile new_entry
add_localfile_overrun opens name path fs new long =
    let too_long : (ltb obj_name_len (length name) || ltb max_file_path (length path)) ≡ true =
      ground arith in
    rw (add_localfile, new, too_long)

-- what a call leaves: on every way but the successful one, the objects as they were
abbrev pub IsAdded : Bool → Bool → List ℕ → List ℕ → Files → Added × Files → Type 0
IsAdded granted opens name path fs (entry_exists, fs') =
    ((p : FileEntry) × (ht_find lfile_ht name fs.table ≡ some p)) × (fs' ≡ fs)
IsAdded granted opens name path fs (failed, fs') =
    (ht_find lfile_ht name fs.table ≡ none) × ((granted && opens) ≡ false) × (fs' ≡ fs)
IsAdded granted opens name path fs (added, fs') =
    (ht_find lfile_ht name fs.table ≡ none)
    × ((granted && opens) ≡ true)
    × (ht_find lfile_ht name fs'.table ≡ some (record { file_name = name; file_path = path }))
    × (fs'.content ≡ fs.content ++ file_line name path)

new-IsAdded :
    (granted opens : Bool) (name path : List ℕ) (fs : Files)
    → ht_find lfile_ht name fs.table ≡ none
    → new_entry name path ≡ ok (record { file_name = name; file_path = path })
    → ht_find lfile_ht name
        (ht_insert lfile_ht (record { file_name = name; file_path = path }) fs.table)
      ≡ some (record { file_name = name; file_path = path })
    → Returns (add_localfile granted opens name path fs) (IsAdded granted opens name path fs)
unfolding add_localfile
new-IsAdded false opens name path fs new fits found =
    ((failed, fs), rw (add_localfile, new), (new, refl, refl))
new-IsAdded true false name path fs new fits found =
    ((failed, fs), rw (add_localfile, new, fits), (new, refl, refl))
new-IsAdded true true name path fs new fits found = (
  (
    added,
    record {
      table = ht_insert lfile_ht (record { file_name = name; file_path = path }) fs.table;
      content = fs.content ++ file_line name path;
    },
  ),
  rw (add_localfile, new, fits),
  (new, refl, found, refl),
)

-- With a valid table, a name of at most 9 bytes and a path of at most 255, `add_localfile`
-- returns: ENTRY_EXISTS exactly for a name that is there, -1 exactly if the name is new and malloc
-- or fopen fails, both with the objects as they were; else 0, with the name looked up as the new
-- path and one line more in the file.
pub add_localfile-IsAdded :
    (granted opens : Bool) (name path : List ℕ) (fs : Files)
    → IsValid lfile_ht fs.table
    → length name ≤ obj_name_len
    → length path ≤ max_file_path
    → Returns (add_localfile granted opens name path fs) (IsAdded granted opens name path fs)
unfolding add_localfile new_entry
add_localfile-IsAdded granted opens name path fs valid short short' =
    let fits : (ltb obj_name_len (length name) || ltb max_file_path (length path)) ≡ false =
      ground arith in
    let p : FileEntry = record { file_name = name; file_path = path } in
    let same : lfile_ht.same name name ≡ true = (lfile_ht.same_iff name name).1 refl in
    let found : ht_find lfile_ht name (ht_insert lfile_ht p fs.table) ≡ some p =
      ht_find-stack lfile_ht (ht_insert lfile_ht p fs.table) name
      ∙ ap head? (ht_insert-stack lfile_ht fs.table valid p name)
      ∙ rw same refl in
    elim (Option-cases (ht_find lfile_ht name fs.table)) [
      | inr (old, e) ↦ ((entry_exists, fs), rw (add_localfile, e), ((old, e), refl))
      | inl new ↦ new-IsAdded granted opens name path fs new (rw fits refl) found
    ]
