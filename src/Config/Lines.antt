-- ===== src/Config/Lines.antt =====
-- src/config.c: a line that `add_localfile` writes is read back by `load_localfile`.
use mathlib.Core.List.{append_assoc}
use dhttp.Base.{
  ℕ, zero, suc, ◌≤◌, ◌<◌, ◌≡◌, refl, sym, ap, ◌∙◌, arith, true, false, some, List, [], ◌∷◌, ◌++◌,
  length, length-append, ltb, ◌==◌, ok,
}
use dhttp.Config.{
  is_delim, token_end, strtok, fgets, token_within, load_file_line, load_files, load_localfile,
  FileEntry, lfile_ht, lfile_line_len, obj_name_len, max_file_path, file_line, empty_ht,
}
use dhttp.Ht.{Ht, ht_insert}

-- a byte that ends no token
abbrev pub IsToken : List ℕ → Type 0
IsToken [] = Unit {0}
IsToken (c ∷ s) = (is_delim c ≡ false) × IsToken s

token_end-token :
    (s rest : List ℕ) (d : ℕ)
    → IsToken s
    → is_delim d ≡ true
    → token_end (s ++ d ∷ rest) ≡ (s, rest)
unfolding token_end
token_end-token [] rest d h e = rw e refl
token_end-token (c ∷ s) rest d (n, h) e = rw (token_end-token s rest d h e, n) refl

strtok-token :
    (c : ℕ) (s rest : List ℕ) (d : ℕ)
    → IsToken (c ∷ s)
    → is_delim d ≡ true
    → strtok (c ∷ (s ++ d ∷ rest)) ≡ some (c ∷ s, rest)
unfolding strtok
strtok-token c s rest d h e = rw (h.0) (ap (λ q. some q) (token_end-token (c ∷ s) rest d h e))

token_within-token :
    (max : ℕ) (s rest : List ℕ) (d : ℕ)
    → IsToken s
    → 0 < length s
    → length s ≤ max
    → is_delim d ≡ true
    → token_within max (s ++ d ∷ rest) ≡ some (s, rest)
unfolding token_within
token_within-token max [] rest d h k l e = absurd (omega arith)
token_within-token max (c ∷ s) rest d h k l e =
    let room : ltb max (length (c ∷ s)) ≡ false = ground arith in
    rw (strtok-token c s rest d h e, room)

-- no newline
abbrev OneLine : List ℕ → Type 0
OneLine [] = Unit {0}
OneLine (c ∷ s) = ((c == b'\n') ≡ false) × OneLine s

OneLine-append : (s t : List ℕ) → OneLine s → OneLine t → OneLine (s ++ t)
OneLine-append [] t h k = k
OneLine-append (c ∷ s) t (n, h) k = (n, OneLine-append s t h k)

OneLine-token : (s : List ℕ) → IsToken s → OneLine s
OneLine-token [] h = tt
OneLine-token (c ∷ s) (n, h) = (ground arith, OneLine-token s h)

fgets-line :
    (room : ℕ) (s rest : List ℕ)
    → OneLine s
    → length s < room
    → fgets room (s ++ b'\n' ∷ rest) ≡ (s ++ b'\n' ∷ [], rest)
unfolding fgets
fgets-line zero s rest h l = absurd (omega arith)
fgets-line (suc room) [] rest h l = refl
fgets-line (suc room) (c ∷ s) rest (n, h) l = rw (n, fgets-line room s rest h (omega arith))

-- an object's name and a path as `load_localfile` can read them
pub record IsMapping (name path : List ℕ) : Type 0 where
  pub name_token : IsToken name
  pub path_token : IsToken path
  pub some_name : 0 < length name
  pub some_path : 0 < length path
  pub short_name : length name ≤ obj_name_len
  pub short_path : length path ≤ max_file_path

module _ (name path : List ℕ) (m : IsMapping name path) where
  fgets-file_line :
      (rest : List ℕ)
      → fgets lfile_line_len (file_line name path ++ rest) ≡ (file_line name path, rest)
  fgets-file_line rest =
      let sizes = length-append name (b' ' ∷ path) in
      let line =
        OneLine-append name (b' ' ∷ path) (OneLine-token name m.name_token)
          (refl, OneLine-token path m.path_token) in
      let whole = append_assoc name (b' ' ∷ path) (b'\n' ∷ []) in
      ap (λ l. fgets lfile_line_len (l ++ rest)) (sym whole)
      ∙ ap (fgets lfile_line_len) (append_assoc (name ++ b' ' ∷ path) (b'\n' ∷ []) rest)
      ∙ fgets-line lfile_line_len (name ++ b' ' ∷ path) rest line
          (omega (arith, m.short_name, m.short_path))
      ∙ ap (λ l. (l, rest)) whole

  load_file_line-file_line :
      load_file_line (file_line name path) ≡ some (record { file_name = name; file_path = path })
  unfolding load_file_line
  load_file_line-file_line = rw (
    token_within-token obj_name_len name (path ++ b'\n' ∷ []) b' ' m.name_token m.some_name
        m.short_name refl,
    token_within-token max_file_path path [] b'\n' m.path_token m.some_path m.short_path refl,
  )

load_files-step :
    (fuel : ℕ) (content line rest : List ℕ) (p : FileEntry) (t : Ht FileEntry)
    → 0 < length content
    → fgets lfile_line_len content ≡ (line, rest)
    → load_file_line line ≡ some p
    → load_files (suc fuel) (λ k. true) content t
      ≡ load_files fuel (λ k. true) rest (ht_insert lfile_ht p t)
unfolding load_files
load_files-step fuel [] line rest p t h e k = absurd (omega arith)
load_files-step fuel (c ∷ content) line rest p t h e k =
    rw (load_files, ap (λ q. load_file_line q.0) e ∙ k)
      (ap (λ q. load_files fuel (λ i. true) q.1 (ht_insert lfile_ht p t)) e)

-- the file after `add_localfile` of each entry in order, and the table after its insertions
abbrev pub file_of : List FileEntry → List ℕ
file_of [] = []
file_of (p ∷ ps) = file_line p.file_name p.file_path ++ file_of ps

abbrev pub insert_all : List FileEntry → Ht FileEntry → Ht FileEntry
insert_all [] t = t
insert_all (p ∷ ps) t = insert_all ps (ht_insert lfile_ht p t)

abbrev pub AreMappings : List FileEntry → Type 0
AreMappings [] = Unit {0}
AreMappings (p ∷ ps) = IsMapping p.file_name p.file_path × AreMappings ps

load_files-file_of :
    (ps : List FileEntry) (fuel : ℕ) (t : Ht FileEntry)
    → AreMappings ps
    → length (file_of ps) ≤ fuel
    → load_files fuel (λ k. true) (file_of ps) t ≡ ok (true, insert_all ps t)
load_files-file_of [] fuel t h le = unfold load_files in refl
load_files-file_of (p ∷ ps) zero t (m, h) le =
    let sizes = length-append (file_line p.file_name p.file_path) (file_of ps) in
    let sizes' = length-append p.file_name (b' ' ∷ (p.file_path ++ b'\n' ∷ [])) in
    absurd (omega arith)
load_files-file_of (p ∷ ps) (suc fuel) t (m, h) le =
    let sizes = length-append (file_line p.file_name p.file_path) (file_of ps) in
    let sizes' = length-append p.file_name (b' ' ∷ (p.file_path ++ b'\n' ∷ [])) in
    load_files-step fuel (file_of (p ∷ ps)) _ (file_of ps) p t (omega arith)
      (fgets-file_line p.file_name p.file_path m (file_of ps))
      (load_file_line-file_line p.file_name p.file_path m)
    ∙ load_files-file_of ps fuel (ht_insert lfile_ht p t) h (omega arith)

-- A file that holds the lines that `add_localfile` writes, for names of 1 to 9 bytes and paths of
-- 1 to 255 with no space and no newline, is loaded as the table with those entries inserted in
-- order, if every malloc succeeds.
pub load_localfile-file_of :
    (ps : List FileEntry)
    → AreMappings ps
    → load_localfile (λ k. true) (some (file_of ps)) ≡ ok (true, insert_all ps empty_ht)
unfolding load_localfile
load_localfile-file_of ps h = load_files-file_of ps (length (file_of ps)) empty_ht h (omega arith)
