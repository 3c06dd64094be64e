-- ===== src/Archive/Handle.antt =====
-- native/src/archive/zip_archive.cpp: who owns the handle of an open archive, and the reads and
-- writes of its files. libzip's handles, and what its calls answer, are parameters. An operation
-- also gives the handles that it has closed or discarded.
pub mod Ownership
pub mod Reads
use peraviz.Prelude.{
  ℕ, zero, suc, ◌+◌, ◌-◌, Bool, true, false, not, ◌&&◌, ◌||◌, Option, none, some, List, [], ◌∷◌,
  ◌++◌, ltb, ◌==◌, if◌then◌else◌, length,
}
use peraviz.Archive.{Index, normalize_path, is_directory_entry, build_index, find_entry_name}

-- `index` is `none` where `index_ready_` is false.
pub record ZipArchive (H : Type 0) : Type 0 where
  pub archive : Option H
  pub writable : Bool
  pub index : Option Index

abbrev pub new_archive : {H : Type 0} → ZipArchive H
new_archive = record { archive = none; writable = false; index = none }

abbrev pub handles : {H : Type 0} → Option H → List H
handles none = []
handles (some h) = h ∷ []

-- Also the destructor.
unfoldable pub reset : {H : Type 0} → ZipArchive H → ZipArchive H × List H
reset z = (new_archive, handles z.archive)

-- `opened` is what `zip_open` returns.
unfoldable pub open_read : {H : Type 0} → ZipArchive H → Option H → Bool × (ZipArchive H × List H)
unfolding reset
open_read z none = (false, reset z)
open_read z (some h) =
    let (fresh, released) = reset z in (true, (record fresh { archive = some h }, released))

unfoldable pub open_create_or_modify :
    {H : Type 0} → ZipArchive H → Option H → Bool × (ZipArchive H × List H)
unfolding reset
open_create_or_modify z none = (false, reset z)
open_create_or_modify z (some h) =
    let (fresh, released) = reset z in
    (true, (record fresh { archive = some h; writable = true }, released))

unfoldable pub is_open : {H : Type 0} → ZipArchive H → Bool
is_open z = elim z.archive [ none ↦ false | some h ↦ true ]

-- `closed` says whether `zip_close` succeeds; where it does not, the handle is discarded. The
-- index stays.
unfoldable pub close : {H : Type 0} → ZipArchive H → Bool → Bool × (ZipArchive H × List H)
close z closed = elim z.archive [
  | none ↦ (true, (z, []))
  | some h ↦ (closed, (record z { archive = none; writable = false }, h ∷ []))
]

-- The move constructor: the new wrapper and the old one.
unfoldable pub move : {H : Type 0} → ZipArchive H → ZipArchive H × ZipArchive H
move other =
    (record { archive = other.archive; writable = other.writable; index = none }, new_archive)

-- The move assignment of another wrapper: this one, the other one, and what is released.
unfoldable pub move_assign :
    {H : Type 0} → ZipArchive H → ZipArchive H → ZipArchive H × ZipArchive H × List H
unfolding move reset
move_assign z other =
    let (moved, left) = move other in let (fresh, released) = reset z in (moved, left, released)

-- What the calls of `write_file` answer: the buffer, the source and the entry are made.
pub record WriteAnswers : Type 0 where
  pub allocated : Bool
  pub source : Bool
  pub added : Bool

unfoldable pub write_file :
    {H : Type 0} → ZipArchive H → List ℕ → List ℕ → WriteAnswers → Bool × ZipArchive H
write_file z archive_path bytes answers =
    let normalized = normalize_path archive_path in
    if not (is_open z) || not z.writable
    then (false, z)
    else if length normalized == 0 || is_directory_entry normalized
    then (false, z)
    else if not (length bytes == 0) && not answers.allocated
    then (false, z)
    else if not answers.source
    then (false, z)
    else if not answers.added
    then (false, z)
    else (true, record z { index = none })

-- What libzip answers about one entry: its size by `zip_stat`, whether it opens, the bytes that
-- `zip_fread` gives from an offset on (`none` for an error), and whether it closes.
pub record EntryAnswers : Type 0 where
  pub size : Option ℕ
  pub opened : Bool
  pub read : ℕ → ℕ → Option (List ℕ)
  pub closes : Bool

-- The loop of `read_file`: the bytes read so far and after it. A round reads a byte at least, so
-- fuel of the size is enough.
unfoldable pub read_from : (ℕ → ℕ → Option (List ℕ)) → ℕ → ℕ → List ℕ → List ℕ
read_from read zero size bytes = bytes
read_from read (suc fuel) size bytes =
    if ltb (length bytes) size
    then elim (read (length bytes) (size - length bytes)) [
      | none ↦ bytes
      | some [] ↦ bytes
      | some (b ∷ more) ↦ read_from read fuel size (bytes ++ b ∷ more)
    ]
    else bytes

-- `read_file`, for an entry that the index has found. The limit of `size_t` is that of the size.
unfoldable pub read_entry : EntryAnswers → List ℕ
read_entry e = elim e.size [
  | none ↦ []
  | some size ↦
      let bytes = read_from e.read size size [] in
      if e.opened && (length bytes == size && e.closes) then bytes else []
]

-- `build_index`, which keeps an index that is ready.
abbrev pub index_or_new : Option Index → List (Option (List ℕ)) → Index
index_or_new none names = build_index names
index_or_new (some index) names = index

unfoldable pub read_file :
    {H : Type 0} → ZipArchive H → List (Option (List ℕ)) → (List ℕ → EntryAnswers) → List ℕ → List ℕ
read_file z names entry archive_path =
    let name = find_entry_name (index_or_new z.index names) archive_path in
    if not (is_open z) || length name == 0 then [] else read_entry (entry name)
