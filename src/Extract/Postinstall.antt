-- ===== src/Extract/Postinstall.antt =====
-- The marker and the body of a postinstall script.
use Prim.Native.Char.{Char, code}
use Prim.Native.String.{◌++◌ as append}
use Prim.Native.String.append as clauses
use text.Mathlib.TextEquality.{Char-path}
use pilothouse.Base.{
  String, false, string_eq, nat_eq, ◌==◌, ok, some, ◌≡◌, ◌↔◌, refl, sym, ap, ◌∙◌, arith, inl, inr,
  Bool-cases, Option-cases,
}
use pilothouse.Storage.Remote.{contains_code}
use pilothouse.Extract.{cut_line, rpm_postinstall}

abbrev pub newline : Char
newline = "\n"

cut_line-append :
    (line rest : String)
    → contains_code 10 line ≡ false
    → cut_line (append line (String.◌∷◌ newline rest)) ≡ some (line, rest)
unfolding cut_line contains_code
cut_line-append String.[] rest h = ap cut_line (clauses.nil (String.◌∷◌ newline rest))
cut_line-append (String.◌∷◌ c line) rest h =
    let cut : cut_line (append line (String.◌∷◌ newline rest)) ≡ some (line, rest) =
      cut_line-append line rest (ground arith) in
    ap cut_line (clauses.cons c line (String.◌∷◌ newline rest)) ∙ ground arith

cut_line-eq :
    (raw line rest : String)
    → cut_line raw ≡ some (line, rest)
    → raw ≡ append line (String.◌∷◌ newline rest)
unfolding cut_line
cut_line-eq String.[] line rest h = absurd (cc)
cut_line-eq (String.◌∷◌ c s) line rest h = elim (Bool-cases (code c == 10)) [
  | inl here ↦
      let same : c ≡ newline = Char-path c newline (ground arith) in
      let empty : "" ≡ line = ground arith in
      let after : s ≡ rest = ground arith in
      ap (λ x. String.◌∷◌ x s) same
      ∙ ap (String.◌∷◌ newline) after
      ∙ sym (clauses.nil (String.◌∷◌ newline rest))
      ∙ ap (λ l. append l (String.◌∷◌ newline rest)) empty
  | inr later ↦ elim (Option-cases (cut_line s)) [
    | inl missing ↦ absurd (ground arith)
    | inr ((before, after), found) ↦
        let start : String.◌∷◌ c before ≡ line = ground arith in
        let end : after ≡ rest = ground arith in
        ap (String.◌∷◌ c) (cut_line-eq s before after found)
        ∙ sym (clauses.cons c before (String.◌∷◌ newline after))
        ∙ ap (λ l. append l (String.◌∷◌ newline after)) start
        ∙ ap (λ r. append line (String.◌∷◌ newline r)) end
  ]
]

has_line : contains_code 10 "HAS" ≡ false
unfolding contains_code
has_line = refl

none_differs : string_eq.beq "HAS" "NONE" ≡ false
none_differs = refl

-- A postinstall script is read exactly where the tool prints the marker, a line break and the script:
-- no byte of a script is lost, and no script, whatever it holds, is taken for another.
pub rpm_postinstall_iff :
    (raw body : String)
    → (rpm_postinstall raw ≡ ok (some body)) ↔ (raw ≡ append "HAS" (String.◌∷◌ newline body))
unfolding rpm_postinstall
rpm_postinstall_iff raw body = (
  λ h. elim (Option-cases (cut_line raw)) [
    | inl missing ↦ absurd (ground arith)
    | inr ((marker, rest), found) ↦ elim (Bool-cases (marker == "NONE")) [
      | inl absent ↦ absurd (ground arith)
      | inr other ↦ elim (Bool-cases (marker == "HAS")) [
        | inr unknown ↦ absurd (ground arith)
        | inl present ↦
            let same : marker ≡ "HAS" = (string_eq.beq_iff marker "HAS").0 present in
            let script : rest ≡ body = ground arith in
            cut_line-eq raw marker rest found
            ∙ ap (λ m. append m (String.◌∷◌ newline rest)) same
            ∙ ap (λ b. append "HAS" (String.◌∷◌ newline b)) script
      ]
    ]
  ],
  λ h.
      let cut : cut_line raw ≡ some ("HAS", body) =
        ap cut_line h ∙ cut_line-append "HAS" body has_line in
      rw (cut, rpm_postinstall) refl,
)
