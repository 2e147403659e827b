-- ===== src/Storage/Units/Texts.antt =====
-- The texts of a unit that hold no line break.
use Prim.Native.Char.{Char, code}
use Prim.Native.String.{◌++◌ as append}
use Prim.Native.String.append as clauses
use pilothouse.Base.{
  String, Bool, true, false, string_eq, nat_eq, ◌==◌, ℕ, ◌||◌, if◌then◌else◌, List, [], ◌∷◌, ◌≡◌,
  refl, sym, subst, arith, inl, inr, Bool-cases, All,
}
use pilothouse.Storage.Names.{all_hex}
use pilothouse.Storage.Remote.{valid_nfs_version, valid_smb_version, all_digits}
use pilothouse.Storage.Units.{escape_char, escape_systemd_value, join_commas}

-- A line feed or a carriage return: systemd ends a line at both.
abbrev pub ends_line : ℕ → Bool
ends_line n = n == 10 || n == 13

unfoldable pub has_break : String → Bool
has_break String.[] = false
has_break (String.◌∷◌ c s) = ends_line (code c) || has_break s

abbrev pub IsLine : String → Type 0
IsLine s = has_break s ≡ false

pub append-IsLine : (s t : String) → IsLine s → IsLine t → IsLine (append s t)
unfolding has_break
append-IsLine String.[] t hs ht = subst IsLine (sym (clauses.nil t)) ht
append-IsLine (String.◌∷◌ c s) t hs ht =
    subst IsLine (sym (clauses.cons c s t)) (ground (arith, append-IsLine s t))

pub if-IsLine :
    (b : Bool) (x y : String) → IsLine x → (b ≡ false → IsLine y) → IsLine (if b then x else y)
if-IsLine true x y here there = here
if-IsLine false x y here there = there refl

escape_char-IsLine : (c : Char) → IsLine (escape_char c)
unfolding escape_char has_break
escape_char-IsLine c = if-IsLine (code c == 37) _ _ refl (λ a.
    if-IsLine (code c == 92) _ _ refl (λ b. if-IsLine (code c == 32) _ _ refl (λ d.
      if-IsLine (code c == 9) _ _ refl (λ e. if-IsLine (code c == 10) _ _ refl (λ no_feed.
        if-IsLine (code c == 13) _ _ refl (λ no_return. rw (no_feed, no_return) refl))))))

pub escape-IsLine : (s : String) → IsLine (escape_systemd_value s)
unfolding escape_systemd_value has_break
escape-IsLine String.[] = refl
escape-IsLine (String.◌∷◌ c s) =
    append-IsLine (escape_char c) (escape_systemd_value s) (escape_char-IsLine c) (escape-IsLine s)

pub join_commas-IsLine : (options : List String) → All IsLine options → IsLine (join_commas options)
unfolding join_commas has_break
join_commas-IsLine [] all = refl
join_commas-IsLine (option ∷ []) all = all.0
join_commas-IsLine (option ∷ next ∷ options) all =
    append-IsLine option (append "," (join_commas (next ∷ options))) all.0 (
      append-IsLine "," (join_commas (next ∷ options)) refl
        (join_commas-IsLine (next ∷ options) all.1))

pub all_hex-IsLine : (s : String) → all_hex s ≡ true → IsLine s
unfolding all_hex has_break
all_hex-IsLine String.[] h = refl
all_hex-IsLine (String.◌∷◌ c s) h = ground (arith, all_hex-IsLine s)

pub all_digits-IsLine : (s : String) → all_digits s ≡ true → IsLine s
unfolding all_digits has_break
all_digits-IsLine String.[] h = refl
all_digits-IsLine (String.◌∷◌ c s) h = ground (arith, all_digits-IsLine s)

pub literal-IsLine : (s literal : String) → (s == literal) ≡ true → IsLine literal → IsLine s
literal-IsLine s literal same h = subst IsLine (sym ((string_eq.beq_iff s literal).0 same)) h

pub nfs_version-IsLine : (s : String) → valid_nfs_version s ≡ true → IsLine s
unfolding valid_nfs_version has_break
nfs_version-IsLine s h = elim (Bool-cases (s == "auto")) [
  | inl same ↦ literal-IsLine s "auto" same refl
  | inr a ↦ elim (Bool-cases (s == "3")) [
    | inl same ↦ literal-IsLine s "3" same refl
    | inr b ↦ elim (Bool-cases (s == "4")) [
      | inl same ↦ literal-IsLine s "4" same refl
      | inr c ↦ elim (Bool-cases (s == "4.1")) [
        | inl same ↦ literal-IsLine s "4.1" same refl
        | inr d ↦ literal-IsLine s "4.2" (ground arith) refl
      ]
    ]
  ]
]

pub smb_version-IsLine : (s : String) → valid_smb_version s ≡ true → IsLine s
unfolding valid_smb_version has_break
smb_version-IsLine s h = elim (Bool-cases (s == "auto")) [
  | inl same ↦ literal-IsLine s "auto" same refl
  | inr a ↦ elim (Bool-cases (s == "2.1")) [
    | inl same ↦ literal-IsLine s "2.1" same refl
    | inr b ↦ elim (Bool-cases (s == "3.0")) [
      | inl same ↦ literal-IsLine s "3.0" same refl
      | inr c ↦ literal-IsLine s "3.1.1" (ground arith) refl
    ]
  ]
]
