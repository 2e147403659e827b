-- ===== src/Extract/Rows.antt =====
-- That the lines of a printed file table are its rows, and the fields of a line the texts of its row.
use Prim.Native.Char.{Char, code}
use Prim.Native.String.{◌++◌ as append}
use Prim.Native.String.append as clauses
use text.Mathlib.TextLemmas.{append_assoc}
use pilothouse.Base.{
  ℕ, String, Bool, true, false, string_eq, nat_eq, ◌==◌, if◌then◌else◌, List, [], ◌∷◌, map, ◌≡◌,
  refl, sym, ap, ◌∙◌, arith, inl, inr, Bool-cases, All,
}
use pilothouse.Storage.Names.{trim_suffix}
use pilothouse.Storage.Remote.{contains_code}
use pilothouse.Extract.{split_on, rpm_lines}
use pilothouse.Extract.Postinstall.{newline}

abbrev tab : Char
tab = "\t"

-- The five texts of a file.
pub record Row : Type 0 where
  pub dest : String
  pub mode : String
  pub flags : String
  pub owner : String
  pub group : String

abbrev tabbed : String → String → String
tabbed s rest = append s (String.◌∷◌ tab rest)

-- A row as `rpmFileTableQuery` prints it.
pub print_row : Row → String
print_row r = tabbed r.dest (tabbed r.mode (tabbed r.flags (tabbed r.owner r.group)))

unfoldable pub print_table : List Row → String
print_table [] = ""
print_table (r ∷ rs) = append (print_row r) (String.◌∷◌ newline (print_table rs))

-- No separator stands in a text.
abbrev pub IsField : String → Type 0
IsField s = (contains_code 9 s ≡ false) × (contains_code 10 s ≡ false)

abbrev pub HasFields : Row → Type 0
HasFields r =
    IsField r.dest × (IsField r.mode × (IsField r.flags × (IsField r.owner × IsField r.group)))

contains_code-append :
    (n : ℕ) (s t : String)
    → contains_code n (append s t) ≡ (if contains_code n s then true else contains_code n t)
unfolding contains_code
contains_code-append n String.[] t = ap (contains_code n) (clauses.nil t)
contains_code-append n (String.◌∷◌ c s) t =
    ap (contains_code n) (clauses.cons c s t) ∙ ground (arith, contains_code-append n s t)

split_on_whole : (sep : ℕ) (s : String) → contains_code sep s ≡ false → split_on sep s ≡ s ∷ []
unfolding split_on contains_code
split_on_whole sep String.[] h = refl
split_on_whole sep (String.◌∷◌ c s) h = ground (arith, split_on_whole sep s)

split_on-append :
    (sep : ℕ) (c : Char) (s rest : String)
    → (code c == sep) ≡ true
    → contains_code sep s ≡ false
    → split_on sep (append s (String.◌∷◌ c rest)) ≡ s ∷ split_on sep rest
unfolding split_on contains_code
split_on-append sep c String.[] rest here h =
    ap (split_on sep) (clauses.nil (String.◌∷◌ c rest)) ∙ rw here refl
split_on-append sep c (String.◌∷◌ d s) rest here h =
    let tail : split_on sep (append s (String.◌∷◌ c rest)) ≡ s ∷ split_on sep rest =
      split_on-append sep c s rest here (ground arith) in
    ap (split_on sep) (clauses.cons d s (String.◌∷◌ c rest)) ∙ ground arith

pub split_on-print_row :
    (r : Row)
    → HasFields r
    → split_on 9 (print_row r) ≡ r.dest ∷ r.mode ∷ r.flags ∷ r.owner ∷ r.group ∷ []
unfolding print_row
split_on-print_row r h =
    let owner = tabbed r.owner r.group in
    let flags = tabbed r.flags owner in
    split_on-append 9 tab r.dest (tabbed r.mode flags) refl h.0.0
    ∙ ap (λ parts. r.dest ∷ parts) (split_on-append 9 tab r.mode flags refl h.1.0.0)
    ∙ ap (λ parts. r.dest ∷ r.mode ∷ parts) (split_on-append 9 tab r.flags owner refl h.1.1.0.0)
    ∙ ap (λ parts. r.dest ∷ r.mode ∷ r.flags ∷ parts)
        (split_on-append 9 tab r.owner r.group refl h.1.1.1.0.0)
    ∙ ap (λ parts. r.dest ∷ r.mode ∷ r.flags ∷ r.owner ∷ parts)
        (split_on_whole 9 r.group h.1.1.1.1.0)

tabbed-line :
    (s rest : String)
    → contains_code 10 s ≡ false
    → contains_code 10 rest ≡ false
    → contains_code 10 (tabbed s rest) ≡ false
unfolding contains_code
tabbed-line s rest h k = ground (arith, contains_code-append 10 s (String.◌∷◌ tab rest))

print_row-line : (r : Row) → HasFields r → contains_code 10 (print_row r) ≡ false
unfolding print_row
print_row-line r h =
    tabbed-line r.dest (tabbed r.mode (tabbed r.flags (tabbed r.owner r.group))) h.0.1 (
      tabbed-line r.mode (tabbed r.flags (tabbed r.owner r.group)) h.1.0.1 (
        tabbed-line r.flags (tabbed r.owner r.group) h.1.1.0.1
          (tabbed-line r.owner r.group h.1.1.1.0.1 h.1.1.1.1.1)))

tabbed-tab : (s rest : String) → contains_code 9 (tabbed s rest) ≡ true
unfolding contains_code
tabbed-tab s rest = ground (arith, contains_code-append 9 s (String.◌∷◌ tab rest))

-- The lines of a table with a row at least, joined.
joined : Row → List Row → String
joined r [] = print_row r
joined r (next ∷ rs) = append (print_row r) (String.◌∷◌ newline (joined next rs))

joined-tab : (r : Row) (rs : List Row) → contains_code 9 (joined r rs) ≡ true
unfolding joined print_row
joined-tab r [] = tabbed-tab r.dest (tabbed r.mode (tabbed r.flags (tabbed r.owner r.group)))
joined-tab r (next ∷ rs) =
    let row = tabbed r.dest (tabbed r.mode (tabbed r.flags (tabbed r.owner r.group))) in
    ground (
      arith,
      contains_code-append 9 row (String.◌∷◌ newline (joined next rs)),
      tabbed-tab r.dest (tabbed r.mode (tabbed r.flags (tabbed r.owner r.group))),
    )

split_on-joined :
    (r : Row) (rs : List Row)
    → HasFields r
    → All HasFields rs
    → split_on 10 (joined r rs) ≡ print_row r ∷ map print_row rs
unfolding joined
split_on-joined r [] h all = split_on_whole 10 (print_row r) (print_row-line r h)
split_on-joined r (next ∷ rs) h all =
    split_on-append 10 newline (print_row r) (joined next rs) refl (print_row-line r h)
    ∙ ap (λ lines. print_row r ∷ lines) (split_on-joined next rs all.0 all.1)

print_table-joined : (r : Row) (rs : List Row) → print_table (r ∷ rs) ≡ append (joined r rs) "\n"
unfolding print_table joined
print_table-joined r [] = refl
print_table-joined r (next ∷ rs) =
    ap (λ t. append (print_row r) (String.◌∷◌ newline t)) (print_table-joined next rs)
    ∙ ap (append (print_row r)) (sym (clauses.cons newline (joined next rs) "\n"))
    ∙ sym (append_assoc (print_row r) (String.◌∷◌ newline (joined next rs)) "\n")

is_long : String → Bool
is_long String.[] = false
is_long (String.◌∷◌ c String.[]) = false
is_long (String.◌∷◌ c (String.◌∷◌ d s)) = true

long-append : (c : Char) (s : String) → is_long (String.◌∷◌ c (append s "\n")) ≡ true
unfolding is_long
long-append c String.[] = ap (λ t. is_long (String.◌∷◌ c t)) (clauses.nil "\n")
long-append c (String.◌∷◌ d s) = ap (λ t. is_long (String.◌∷◌ c t)) (clauses.cons d s "\n")

not_newline : (c : Char) (s : String) → (String.◌∷◌ c (append s "\n") == "\n") ≡ false
unfolding is_long
not_newline c s = elim (Bool-cases (String.◌∷◌ c (append s "\n") == "\n")) [
  | inr differs ↦ differs
  | inl same ↦
      let e = (string_eq.beq_iff (String.◌∷◌ c (append s "\n")) "\n").0 same in
      let long = sym (ap is_long e) ∙ long-append c s in absurd (ground arith)
]

trim_suffix-append : (s : String) → trim_suffix (append s "\n") "\n" ≡ s
unfolding trim_suffix
trim_suffix-append String.[] = ap (λ t. trim_suffix t "\n") (clauses.nil "\n")
trim_suffix-append (String.◌∷◌ c s) =
    ap (λ t. trim_suffix t "\n") (clauses.cons c s "\n")
    ∙ rw (not_newline c s) (ap (String.◌∷◌ c) (trim_suffix-append s))

tab-differs :
    (s literal : String)
    → contains_code 9 s ≡ true
    → contains_code 9 literal ≡ false
    → (s == literal) ≡ false
tab-differs s literal h k = elim (Bool-cases (s == literal)) [
  | inr differs ↦ differs
  | inl same ↦ absurd (ground (arith, ap (contains_code 9) ((string_eq.beq_iff s literal).0 same)))
]

pub rpm_lines-print_table :
    (r : Row) (rs : List Row)
    → HasFields r
    → All HasFields rs
    → rpm_lines (print_table (r ∷ rs)) ≡ print_row r ∷ map print_row rs
unfolding rpm_lines contains_code
rpm_lines-print_table r rs h all =
    let text : trim_suffix (print_table (r ∷ rs)) "\n" ≡ joined r rs =
      ap (λ t. trim_suffix t "\n") (print_table-joined r rs) ∙ trim_suffix-append (joined r rs) in
    rw text (
      rw
        (
          tab-differs (joined r rs) "" (joined-tab r rs) refl,
          tab-differs (joined r rs) "(none)" (joined-tab r rs) refl,
        )
        (split_on-joined r rs h all))
