-- ===== src/Extract.antt =====
-- packaging/extract/rpm.go: what is read of an rpm package from the output of the tools, which are
-- parameters.
pub mod Rows
pub mod Table
pub mod Postinstall
use Prim.Native.Char.{Char, code}
use Prim.Native.String.{◌++◌ as append}
use pilothouse.Base.{
  ℕ, zero, suc, ◌+◌, ◌-◌, ◌*◌, ◌/◌, ◌%◌, ◌^◌, String, Bool, true, false, not, ◌&&◌, ◌||◌, string_eq,
  nat_eq, ◌==◌, ltb, leb, length, if◌then◌else◌, Result, ok, err, ◌>>=◌, Option, none, some, List,
  [], ◌∷◌, ◌++◌,
}
use pilothouse.Storage.Names.{has_prefix, trim_suffix, between}

pub data ExtractError : Type 0 where
  wrong_fields bad_mode bad_flags unpaired no_marker unknown_marker tool_failed unreadable :
      ExtractError

-- `packaging.Entry`; the type of a file is a directory or a regular file.
pub record Entry : Type 0 where
  pub dest : String
  pub perm : ℕ
  pub is_dir : Bool
  pub config : Bool
  pub owner : String
  pub group : String
  pub content : Option String

-- `strings.Split(s, sep)` with a separator of one character.
unfoldable pub split_on : ℕ → String → List String
split_on sep String.[] = "" ∷ []
split_on sep (String.◌∷◌ c s) =
    let rest = split_on sep s in
    if code c == sep
    then "" ∷ rest
    else elim rest [ [] ↦ String.◌∷◌ c String.[] ∷ [] | part ∷ parts ↦ String.◌∷◌ c part ∷ parts ]

-- `strings.Cut(s, "\n")`
unfoldable pub cut_line : String → Option (String × String)
cut_line String.[] = none
cut_line (String.◌∷◌ c s) =
    let rest = cut_line s in
    if code c == 10
    then some ("", s)
    else elim rest [ none ↦ none | some (line, after) ↦ some (String.◌∷◌ c line, after) ]

-- The digits of a text in a base, after a number that is read already.
unfoldable pub digits_from : ℕ → ℕ → String → Option ℕ
digits_from base n String.[] = some n
digits_from base n (String.◌∷◌ c s) =
    let rest = digits_from base (n * base + (code c - 48)) s in
    if between 48 (47 + base) (code c) then rest else none

-- `s[1:]`
abbrev pub drop_sign : String → String
drop_sign String.[] = String.[]
drop_sign (String.◌∷◌ c s) = s

-- `strconv.ParseUint(s, base, bits)`, for a base up to 10.
unfoldable pub parse_uint : ℕ → ℕ → String → Option ℕ
parse_uint base bits s = if s == "" then none else elim (digits_from base 0 s) [
  | none ↦ none
  | some n ↦ if ltb n (2 ^ bits) then some n else none
]

-- `strconv.ParseInt(s, 10, 64)`: the bits of the number.
unfoldable pub parse_int : String → Option ℕ
parse_int s =
    if has_prefix s "-"
    then elim (parse_uint 10 64 (drop_sign s)) [
      | none ↦ none
      | some n ↦ if leb n (2 ^ 63) then some ((2 ^ 64 - n) % 2 ^ 64) else none
    ]
    else elim (parse_uint 10 64 (if has_prefix s "+" then drop_sign s else s)) [
      | none ↦ none
      | some n ↦ if ltb n (2 ^ 63) then some n else none
    ]

-- `rpmLines`
unfoldable pub rpm_lines : String → List String
rpm_lines raw =
    let text = trim_suffix raw "\n" in
    if text == "" || text == "(none)" then [] else split_on 10 text

-- The entry of five fields, `none` for a member that is not represented.
unfoldable pub entry_of :
    String → String → String → String → String → Result ExtractError (Option Entry)
entry_of dest mode_field flags_field owner group = elim (parse_uint 8 32 mode_field) [
  | none ↦ err bad_mode
  | some mode ↦ elim (parse_int flags_field) [
    | none ↦ err bad_flags
    | some flags ↦
        let entry : Bool → Option Entry = λ is_dir. some (record {
          dest = dest;
          perm = mode % 512;
          is_dir = is_dir;
          config = flags % 2 == 1;
          owner = owner;
          group = group;
          content = none;
        }) in
        ok (
          if mode / 4096 % 16 == 8
          then entry false
          else if mode / 4096 % 16 == 4
          then entry true
          else none)
  ]
]

abbrev pub entry_of_fields : List String → Result ExtractError (Option Entry)
entry_of_fields (dest ∷ mode_field ∷ flags_field ∷ owner ∷ group ∷ []) =
    entry_of dest mode_field flags_field owner group
entry_of_fields fields = err wrong_fields

-- `rpmFileTableEntry`
unfoldable pub rpm_file_table_entry : String → Result ExtractError (Option Entry)
rpm_file_table_entry line = entry_of_fields (split_on 9 line)

abbrev pub keep_entry : Option Entry → List Entry → List Entry
keep_entry none entries = entries
keep_entry (some entry) entries = entry ∷ entries

-- The loop of `rpmEntries`.
unfoldable pub entries_of_lines : List String → Result ExtractError (List Entry)
entries_of_lines [] = ok []
entries_of_lines (line ∷ lines) = do
  entry ← rpm_file_table_entry line
  entries ← entries_of_lines lines
  ok (keep_entry entry entries)

-- `rpmEntries`
unfoldable pub rpm_entries : String → Result ExtractError (List Entry)
rpm_entries raw = entries_of_lines (rpm_lines raw)

-- `flags&(rpmsenseInterp|rpmsenseRPMLIB) != 0`
abbrev pub is_generated : ℕ → Bool
is_generated flags = flags / 2 ^ 8 % 2 == 1 || flags / 2 ^ 24 % 2 == 1

-- The loop of `rpmDependencies`.
unfoldable pub keep_declared : List String → List String → Result ExtractError (List String)
keep_declared (name ∷ names) (word ∷ words) = elim (parse_int word) [
  | none ↦ err bad_flags
  | some flags ↦ do
    rest ← keep_declared names words
    ok (if is_generated flags then rest else name ∷ rest)
]
keep_declared names words = ok []

-- `rpmDependencies`
unfoldable pub rpm_dependencies : String → String → Result ExtractError (List String)
rpm_dependencies requires require_flags =
    let names = rpm_lines requires in
    let words = rpm_lines require_flags in
    if length names == length words then keep_declared names words else err unpaired

-- `rpmPostinstall`
unfoldable pub rpm_postinstall : String → Result ExtractError (Option String)
rpm_postinstall raw = elim (cut_line raw) [
  | none ↦ err no_marker
  | some (marker, body) ↦
      if marker == "NONE"
      then ok none
      else if marker == "HAS"
      then ok (some body)
      else err unknown_marker
]

-- `underUsrBin`
abbrev pub under_usr_bin : String → Bool
under_usr_bin dest = dest == "/usr/bin" || has_prefix dest "/usr/bin/"

-- `rpmReadContent`; what is read of the payload is an argument.
unfoldable pub rpm_read_content :
    (String → Option String) → List Entry → Result ExtractError (List Entry)
rpm_read_content payload [] = ok []
rpm_read_content payload (entry ∷ entries) =
    if entry.is_dir || under_usr_bin entry.dest
    then rpm_read_content payload entries >>= (λ rest. ok (entry ∷ rest))
    else elim (payload entry.dest) [
      | none ↦ err unreadable
      | some content ↦
          rpm_read_content payload entries
          >>= (λ rest. ok (record entry { content = some content } ∷ rest))
    ]

-- What the tools answer; `none` is an error.
pub record RpmTools : Type 0 where
  pub table : Option String
  pub requires : Option String
  pub require_flags : Option String
  pub postinstall : Option String
  pub payload : Option (String → Option String)

-- `packaging.Model`, of the format rpm.
pub record RpmModel : Type 0 where
  pub entries : List Entry
  pub dependencies : List String
  pub postinstall : Option String

abbrev pub answered {ℓ} : {A : Type ℓ} → Option A → Result ExtractError A
answered none = err tool_failed
answered (some a) = ok a

-- `RPM`
unfoldable pub rpm : RpmTools → Result ExtractError RpmModel
rpm tools = do
  table ← answered tools.table
  entries ← rpm_entries table
  requires ← answered tools.requires
  require_flags ← answered tools.require_flags
  dependencies ← rpm_dependencies requires require_flags
  output ← answered tools.postinstall
  postinstall ← rpm_postinstall output
  payload ← answered tools.payload
  filled ← rpm_read_content payload entries
  ok (record { entries = filled; dependencies = dependencies; postinstall = postinstall })

-- How a half of a pipe ends.
pub data Exit : Type 0 where
  clean broken_pipe failed : Exit

-- Which half the error of `runPipe` names.
pub data PipeError : Type 0 where
  source_failed target_failed : PipeError

-- The verdict of `runPipe` over the two halves that have been waited for.
unfoldable pub pipe_verdict : Exit → Exit → Result PipeError (Unit {0})
pipe_verdict failed target = err source_failed
pipe_verdict clean clean = ok tt
pipe_verdict clean failed = err target_failed
pipe_verdict clean broken_pipe = err target_failed
pipe_verdict broken_pipe clean = err source_failed
pipe_verdict broken_pipe failed = err target_failed
pipe_verdict broken_pipe broken_pipe = err target_failed
