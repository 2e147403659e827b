-- ===== src/Extract/Table.antt =====
-- That a printed file table is read back as what it lists.
use pilothouse.Base.{
  ◌<◌, ◌%◌, ◌/◌, ◌&&◌, ◌||◌, leb, ltb, none, some, keep_if, ℕ, Bool, false, string_eq, nat_eq, ◌==◌,
  if◌then◌else◌, Result, ok, ◌>>=◌, List, [], ◌∷◌, map, ◌≡◌, refl, ap, ◌∙◌, arith, inl, inr,
  Bool-cases, All,
}
use pilothouse.Storage.Names.{trim_suffix}
use pilothouse.Extract.{
  ExtractError, Entry, parse_uint, parse_int, rpm_lines, entry_of, rpm_file_table_entry, keep_entry,
  entries_of_lines, rpm_entries,
}
use pilothouse.Extract.Rows.{
  Row, print_row, print_table, HasFields, rpm_lines-print_table, split_on-print_row,
}

-- The entries of the rows, where no text is split.
entries_of_rows : List Row → Result ExtractError (List Entry)
entries_of_rows [] = ok []
entries_of_rows (r ∷ rs) = do
  entry ← entry_of r.dest r.mode r.flags r.owner r.group
  entries ← entries_of_rows rs
  ok (keep_entry entry entries)

entries_of_lines-rows :
    (rs : List Row) → All HasFields rs → entries_of_lines (map print_row rs) ≡ entries_of_rows rs
unfolding entries_of_lines entries_of_rows rpm_file_table_entry
entries_of_lines-rows [] all = refl
entries_of_lines-rows (r ∷ rs) all =
    rw (split_on-print_row r all.0, entries_of_lines-rows rs all.1) refl

empty_table : rpm_entries (print_table []) ≡ entries_of_rows []
unfolding rpm_entries rpm_lines print_table trim_suffix entries_of_lines entries_of_rows
empty_table = refl

rpm_entries-rows :
    (rs : List Row) → All HasFields rs → rpm_entries (print_table rs) ≡ entries_of_rows rs
unfolding rpm_entries
rpm_entries-rows [] all = empty_table
rpm_entries-rows (r ∷ rs) all =
    ap entries_of_lines (rpm_lines-print_table r rs all.0 all.1)
    ∙ entries_of_lines-rows (r ∷ rs) all

-- A file of a package: its row, and the two numbers that the row has as texts.
pub record File : Type 0 where
  pub row : Row
  pub mode : ℕ
  pub flags : ℕ

-- A mode has 16 bits, of which the first four are the kind of the file: S_IFREG and S_IFDIR.
pub record IsFile (f : File) : Type 0 where
  pub fields : HasFields f.row
  pub mode_text : parse_uint 8 32 f.row.mode ≡ some f.mode
  pub flags_text : parse_int f.row.flags ≡ some f.flags
  pub short : f.mode < 65536

abbrev pub is_regular : ℕ → Bool
is_regular mode = leb 32768 mode && ltb mode 36864

abbrev pub is_directory : ℕ → Bool
is_directory mode = leb 16384 mode && ltb mode 20480

abbrev pub described : File → Entry
described f = record {
  dest = f.row.dest;
  perm = f.mode % 512;
  is_dir = is_directory f.mode;
  config = f.flags % 2 == 1;
  owner = f.row.owner;
  group = f.row.group;
  content = none;
}

-- The regular files and the directories.
abbrev pub is_installed : File → Bool
is_installed f = is_regular f.mode || is_directory f.mode

kind_of_mode :
    (mode : ℕ)
    → mode < 65536
    → ((mode / 4096 % 16 == 8) ≡ is_regular mode) × ((mode / 4096 % 16 == 4) ≡ is_directory mode)
kind_of_mode mode small = (ground arith, ground arith)

entry_of-described :
    (f : File)
    → IsFile f
    → entry_of f.row.dest f.row.mode f.row.flags f.row.owner f.row.group
      ≡ ok (if is_installed f then some (described f) else none)
unfolding entry_of
entry_of-described f h =
    let kind = kind_of_mode f.mode h.short in
    rw (h.mode_text, entry_of)
      (rw h.flags_text (elim (Bool-cases (is_regular f.mode)) [
        | inl regular ↦
            let other : is_directory f.mode ≡ false = ground arith in
            rw (kind.0, regular, other) refl
        | inr irregular ↦ elim (Bool-cases (is_directory f.mode)) [
          | inl directory ↦ rw (kind.0, kind.1, irregular, directory) refl
          | inr neither ↦ rw (kind.0, kind.1, irregular, neither) refl
        ]
      ]))

entries_of_rows-described :
    (fs : List File)
    → All IsFile fs
    → entries_of_rows (map (λ f. f.row) fs) ≡ ok (map described (keep_if is_installed fs))
unfolding entries_of_rows
entries_of_rows-described [] all = refl
entries_of_rows-described (f ∷ fs) all =
    rw (entry_of-described f all.0, entries_of_rows-described fs all.1)
      (elim (Bool-cases (is_installed f)) [
        | inl installed ↦ rw installed refl
        | inr left_out ↦ rw left_out refl
      ])

rows-HasFields : (fs : List File) → All IsFile fs → All HasFields (map (λ f. f.row) fs)
rows-HasFields [] all = tt
rows-HasFields (f ∷ fs) all = (all.0.fields, rows-HasFields fs all.1)

-- The file table that rpm prints is read back as the regular files and the directories that it lists,
-- in their order, each with its name, permissions, owner, group and whether it is configuration, none
-- of them left out and nothing else added, where no text of a row holds a tab or a line break and
-- the numbers of a row are those that its texts are parsed as, the mode with 16 bits.
pub rpm_entries-print_table :
    (fs : List File)
    → All IsFile fs
    → rpm_entries (print_table (map (λ f. f.row) fs)) ≡ ok (map described (keep_if is_installed fs))
rpm_entries-print_table fs all =
    rpm_entries-rows (map (λ f. f.row) fs) (rows-HasFields fs all)
    ∙ entries_of_rows-described fs all
