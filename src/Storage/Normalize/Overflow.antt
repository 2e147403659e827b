-- ===== src/Storage/Normalize/Overflow.antt =====
-- Findings on mounts for which there is no room.
use pilothouse.Base.{
  ℕ, ◌≡◌, ◌≢◌, refl, sym, ap, ◌∙◌, subst, String, Bool, true, false, not, ◌&&◌, Option, none, some,
  List, [], ◌∷◌, string_eq, nat_eq, ◌==◌, Map, lookup, insert, lookup-insert, length, All, any,
  arith, inl, inr, Bool-cases, sort_by,
}
use pilothouse.Storage.Model.{
  Mount, Finding, BackendStatus, Snapshot, max_findings, critical, warning,
}
use pilothouse.Storage.Aggregate.{Aggregate, flag}
use pilothouse.Storage.Order.{sort_snapshot, finding_less}
use pilothouse.Storage.Normalize.{
  append_finding, Noted, is_expected_immutable_mount, capacity_finding, mount_finding, review_mount,
  review_mounts, assemble,
}

abbrev IsNamed : BackendStatus → Type 0
IsNamed b = b.name ≢ ""

-- The findings stay, and no backend but the nameless one is marked.
record Unreported (before after : Noted) : Type 0 where
  findings : after.0 ≡ before.0
  marks : (name : String) → name ≢ "" → flag after.1 name ≡ flag before.1 name

Unreported-refl : (noted : Noted) → Unreported noted noted
Unreported-refl noted = record { findings = refl; marks = λ name named. refl }

Unreported-trans : {a b c : Noted} → Unreported a b → Unreported b c → Unreported a c
Unreported-trans h k = record {
  findings = k.findings ∙ h.findings;
  marks = λ name named. k.marks name named ∙ h.marks name named;
}

flag-insert_other :
    (marks : Map String Bool) (name : String)
    → name ≢ ""
    → flag (insert "" true marks) name ≡ flag marks name
unfolding flag
flag-insert_other marks name named =
    let other : ("" == name) ≡ false = elim (Bool-cases ("" == name)) [
      | inl same ↦ absurd (named (sym ((string_eq.beq_iff "" name).0 same)))
      | inr other ↦ other
    ] in
    let same : lookup name (insert "" true marks) ≡ lookup name marks =
      lookup-insert "" name true marks ∙ (rw other refl) in
    ap (λ (o : Option Bool). elim o [ none ↦ false | some b ↦ b ]) same

flag_nil : (name : String) → flag [] name ≡ false
unfolding flag lookup
flag_nil name = refl

append_finding-Unreported :
    (f : Finding) (noted : Noted)
    → length noted.0 ≡ max_findings
    → Unreported noted (append_finding "" f noted)
unfolding append_finding
append_finding-Unreported f (findings, marks) h =
    let full : (length findings == max_findings) ≡ true = ground arith in
    record {
      findings = ground arith;
      marks = λ name named. rw full (flag-insert_other marks name named);
    }

module _ {F : Type 0} (at_least : F → ℕ → Bool) where
  capacity_finding-Unreported :
      (m : Mount F) (noted : Noted)
      → length noted.0 ≡ max_findings
      → Unreported noted (capacity_finding at_least m noted)
  unfolding capacity_finding
  capacity_finding-Unreported m noted h = elim (Bool-cases (at_least m.used_percent 90)) [
    | inl most ↦ rw most (
        append_finding-Unreported (mount_finding at_least m critical "Mount capacity is critical")
          noted h)
    | inr less ↦ elim (Bool-cases (at_least m.used_percent 80)) [
      | inl much ↦
          rw (less, much)
            (append_finding-Unreported (mount_finding at_least m warning "Mount capacity is high")
              noted h)
      | inr little ↦ rw (less, little) (Unreported-refl noted)
    ]
  ]

  review_mount-Unreported :
      (m : Mount F) (noted : Noted)
      → length noted.0 ≡ max_findings
      → Unreported noted (review_mount at_least m noted).1
  unfolding review_mount
  review_mount-Unreported m noted h =
      let first = capacity_finding-Unreported m noted h in
      let second =
        append_finding-Unreported (mount_finding at_least m warning "Mount is read-only")
          (capacity_finding at_least m noted) (ap length first.findings ∙ h) in
      elim (Bool-cases (is_expected_immutable_mount m)) [
        | inl expected ↦
            let same : (review_mount at_least m noted).1 ≡ noted =
              rw (expected, review_mount) refl in
            subst (Unreported noted) (sym same) (Unreported-refl noted)
        | inr other ↦ elim (Bool-cases (m.read_only && not m.managed)) [
          | inl stuck ↦
              let same : (review_mount at_least m noted).1
                  ≡ append_finding "" (mount_finding at_least m warning "Mount is read-only")
                      (capacity_finding at_least m noted) =
                ground arith in
              subst (Unreported noted) (sym same) (Unreported-trans first second)
          | inr fine ↦
              let same : (review_mount at_least m noted).1 ≡ capacity_finding at_least m noted =
                ground arith in
              subst (Unreported noted) (sym same) first
        ]
      ]

  review_mounts-Unreported :
      (ms : List (Mount F)) (noted : Noted)
      → length noted.0 ≡ max_findings
      → Unreported noted (review_mounts at_least ms noted).1
  unfolding review_mounts
  review_mounts-Unreported [] noted h = Unreported-refl noted
  review_mounts-Unreported (m ∷ ms) noted h =
      let first = review_mount-Unreported m noted h in
      Unreported-trans first (
        review_mounts-Unreported ms (review_mount at_least m noted).1
          (ap length first.findings ∙ h))

  unmarked :
      (statuses : List BackendStatus) (marks : Map String Bool)
      → All IsNamed statuses
      → ((name : String) → name ≢ "" → flag marks name ≡ false)
      → any (λ b. flag marks b.name) statuses ≡ false
  unmarked [] marks named none_marked = refl
  unmarked (b ∷ statuses) marks named none_marked =
      ground (arith, none_marked b.name named.0, unmarked statuses marks named.1 none_marked)

  -- Where the adapters have filled the findings, none of them was cut, and every backend has a name,
  -- the snapshot that is assembled, before the limit on its size, holds the findings of the adapters
  -- and none on a mount, whatever the mounts are, and yet it does not say that it is truncated.
  pub assemble-overflow :
      (json_bytes : Snapshot F → Option ℕ) (now : ℕ) (statuses : List BackendStatus)
      (a : Aggregate F)
      → length a.findings ≡ max_findings
      → a.truncated ≡ []
      → All IsNamed statuses
      → ((assemble json_bytes at_least now (statuses, a)).findings
          ≡ sort_by finding_less a.findings)
        × ((assemble json_bytes at_least now (statuses, a)).truncated ≡ false)
  unfolding assemble sort_snapshot
  assemble-overflow json_bytes now statuses a full whole named =
      let kept = review_mounts-Unreported a.mounts (a.findings, a.truncated) full in
      let none_marked : (name : String) → name ≢ "" → flag a.truncated name ≡ false =
        λ name nonempty. rw whole (flag_nil name) in
      let none_flagged =
        unmarked statuses (review_mounts at_least a.mounts (a.findings, a.truncated)).1.1 named
          (λ name nonempty. kept.marks name nonempty ∙ none_marked name nonempty) in
      (ap (sort_by finding_less) kept.findings, rw none_flagged (ground (arith, ap length whole)))
