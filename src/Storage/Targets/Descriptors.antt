-- ===== src/Storage/Targets/Descriptors.antt =====
-- The descriptors that the calls of `PathManager` open and close.
use pilothouse.Base.{
  ℕ, ◌+◌, ◌≡◌, ◌⊎◌, refl, String, Bool, true, false, Option, List, [], ◌∷◌, ◌++◌, string_eq, nat_eq,
  ◌==◌, if◌then◌else◌, count, bit, Result, ok, err, arith, Bool-cases, Option-cases, Result-cases,
  inl, inr,
}
use pilothouse.Storage.Targets.{
  TargetInventory, PathError, PathFs, OpenAnswer, opens, absent, refused, path, path_directory,
  read_directory, SystemCall, opened, closed, made, removed, Outcome, outcome, Place, walk_from,
  walk, split_slash, trim_slash, validate_directory, at_place, after_validation, validate_target,
  validate_policy, create_at, create_target, remove_at, remove_target, remove_failed,
}

abbrev pub is_opening : ℕ → SystemCall → Bool
is_opening n (opened fd) = fd == n
is_opening n (closed fd) = false
is_opening n (made parent leaf) = false
is_opening n (removed parent leaf) = false

abbrev pub is_closing : ℕ → SystemCall → Bool
is_closing n (opened fd) = false
is_closing n (closed fd) = fd == n
is_closing n (made parent leaf) = false
is_closing n (removed parent leaf) = false

-- Each descriptor is closed as often as it is opened.
abbrev pub IsBalanced {ℓ} : {A : Type ℓ} → Outcome A → Type 0
IsBalanced o = (n : ℕ) → count (is_opening n) o.calls ≡ count (is_closing n) o.calls

-- What a walk hands over open.
abbrev held : ℕ → Result PathError Place → ℕ
held n (err e) = 0
held n (ok p) = bit (p.parent == n)

answer-cases : (a : OpenAnswer) → (a ≡ absent) ⊎ (a ≡ refused) ⊎ ((fd : ℕ) × (a ≡ opens fd))
answer-cases absent = inl refl
answer-cases refused = inr (inl refl)
answer-cases (opens fd) = inr (inr (fd, refl))

count-append :
    (p : SystemCall → Bool) (xs ys : List SystemCall) → count p (xs ++ ys) ≡ count p xs + count p ys
count-append p [] ys = omega arith
count-append p (x ∷ xs) ys = omega (arith, count-append p xs ys)

walk_from_lem :
    (fs : PathFs) (parent : ℕ) (components : List String) (n : ℕ)
    → count (is_opening n) (walk_from fs parent components).calls + bit (parent == n)
      ≡ count (is_closing n) (walk_from fs parent components).calls
        + held n (walk_from fs parent components).result
unfolding walk_from
walk_from_lem fs parent [] n = omega arith
walk_from_lem fs parent (c ∷ []) n = elim (answer-cases (fs.openat2 parent c path)) [
  | inl none_there ↦ rw (none_there, walk_from) (omega arith)
  | inr (inl denied) ↦ rw (denied, walk_from) (omega arith)
  | inr (inr (fd, found)) ↦ rw (found, walk_from) (omega arith)
]
walk_from_lem fs parent (c ∷ d ∷ cs) n = elim (answer-cases (fs.openat2 parent c path_directory)) [
  | inl none_there ↦ rw (none_there, walk_from) (omega arith)
  | inr (inl denied) ↦ rw (denied, walk_from) (omega arith)
  | inr (inr (fd, found)) ↦ rw (found, walk_from) (omega (arith, walk_from_lem fs fd (d ∷ cs) n))
]

walk_lem :
    (fs : PathFs) (target : String) (n : ℕ)
    → count (is_opening n) (walk fs target).calls
      ≡ count (is_closing n) (walk fs target).calls + held n (walk fs target).result
unfolding walk walk_from
walk_lem fs target n = elim (Option-cases fs.open_root) [
  | inl fails ↦ rw fails refl
  | inr (root, opens_root) ↦
      rw opens_root (omega (arith, walk_from_lem fs root (split_slash (trim_slash target)) n))
]

validate_directory-IsBalanced :
    (fs : PathFs) (parent : ℕ) (leaf : String) → IsBalanced (validate_directory fs parent leaf)
unfolding validate_directory
validate_directory-IsBalanced fs parent leaf n =
    elim (answer-cases (fs.openat2 parent leaf read_directory)) [
      | inl none_there ↦ rw (none_there, validate_directory) refl
      | inr (inl denied) ↦ rw (denied, validate_directory) refl
      | inr (inr (fd, found)) ↦ rw (found, validate_directory) (omega arith)
    ]

at_place_result :
    {A : Type 0} (calls : List SystemCall) (r : Result PathError Place) (next : Place → Outcome A)
    → ((n : ℕ) → count (is_opening n) calls ≡ count (is_closing n) calls + held n r)
    → ((p : Place) → IsBalanced (next p))
    → IsBalanced (at_place (outcome calls r) next)
at_place_result calls (err e) next w b n = ground (arith, w n)
at_place_result calls (ok p) next w b n = omega (
  arith,
  w n,
  b p n,
  count-append (is_opening n) calls ((next p).calls ++ closed p.parent ∷ []),
  count-append (is_closing n) calls ((next p).calls ++ closed p.parent ∷ []),
  count-append (is_opening n) (next p).calls (closed p.parent ∷ []),
  count-append (is_closing n) (next p).calls (closed p.parent ∷ []),
)

after_validation_result :
    {A : Type 0} (calls : List SystemCall) (r : Result PathError (Unit {0})) (next : Outcome A)
    → ((n : ℕ) → count (is_opening n) calls ≡ count (is_closing n) calls)
    → IsBalanced next
    → IsBalanced (after_validation (outcome calls r) next)
after_validation_result calls (err e) next w b n = w n
after_validation_result calls (ok u) next w b n = omega (
  arith,
  w n,
  b n,
  count-append (is_opening n) calls next.calls,
  count-append (is_closing n) calls next.calls,
)

place-IsBalanced :
    (fs : PathFs) (p : Place)
    → IsBalanced (if p.exists then validate_directory fs p.parent p.leaf else outcome [] (ok tt))
place-IsBalanced fs p n = elim (Bool-cases p.exists) [
  | inl there ↦ rw there (validate_directory-IsBalanced fs p.parent p.leaf n)
  | inr missing ↦ rw missing refl
]

module _ (clean : String → String) (has_control : String → Bool) (escape : String → String)
    (definition_id : String) where
  validate_target-IsBalanced :
      (fs : PathFs) (done : Bool) (target : String) (inventory : Option TargetInventory)
      → IsBalanced (validate_target clean has_control escape definition_id fs done target inventory)
  unfolding validate_target
  validate_target-IsBalanced fs true target inventory n = refl
  validate_target-IsBalanced fs false target inventory n =
      elim (Result-cases
        (validate_policy clean has_control escape definition_id target inventory)) [
          | inr (e, refuses) ↦ rw refuses refl
          | inl (u, passes) ↦ rw passes (
              at_place_result (walk fs target).calls (walk fs target).result _ (walk_lem fs target)
                (λ p. place-IsBalanced fs p) n)
        ]

  create_at-IsBalanced :
      (fs : PathFs) (p : Place) → IsBalanced (create_at clean has_control escape definition_id fs p)
  unfolding create_at
  create_at-IsBalanced fs p n =
      let checked = validate_directory-IsBalanced fs p.parent p.leaf n in
      elim (Bool-cases p.exists) [
        | inl there ↦ rw there checked
        | inr missing ↦ elim (Bool-cases (fs.mkdirat p.parent p.leaf)) [
          | inl makes ↦ rw (missing, makes) (omega (arith, checked))
          | inr fails ↦ rw (missing, fails) refl
        ]
      ]

  unlink-IsBalanced :
      (fs : PathFs) (p : Place)
      → IsBalanced (
          if fs.unlinkat p.parent p.leaf
          then outcome {A = Unit {0}} (removed p.parent p.leaf ∷ []) (ok tt)
          else outcome [] (err remove_failed))
  unlink-IsBalanced fs p n = elim (Bool-cases (fs.unlinkat p.parent p.leaf)) [
    | inl removes ↦ rw removes refl
    | inr fails ↦ rw fails refl
  ]

  remove_at-IsBalanced :
      (fs : PathFs) (p : Place) → IsBalanced (remove_at clean has_control escape definition_id fs p)
  unfolding remove_at
  remove_at-IsBalanced fs p n = elim (Bool-cases p.exists) [
    | inr missing ↦ rw missing refl
    | inl there ↦ rw there (
        after_validation_result (validate_directory fs p.parent p.leaf).calls
          (validate_directory fs p.parent p.leaf).result _
          (validate_directory-IsBalanced fs p.parent p.leaf) (unlink-IsBalanced fs p) n)
  ]

  -- Whatever the file system answers, `CreateTarget` and `RemoveTarget` close each descriptor as often
  -- as they open it, on their errors too.
  pub descriptors_closed :
      (fs fs' : PathFs) (done created : Bool) (target : String) (inventory : Option TargetInventory)
      → IsBalanced
          (create_target clean has_control escape definition_id fs fs' done target inventory)
        × IsBalanced (
            remove_target clean has_control escape definition_id fs fs' done target created
              inventory)
  unfolding create_target remove_target
  descriptors_closed fs fs' done created target inventory =
      let checked =
        validate_target clean has_control escape definition_id fs done target inventory in
      let balanced = validate_target-IsBalanced fs done target inventory in
      (
        after_validation_result checked.calls checked.result _ balanced (
            at_place_result (walk fs' target).calls (walk fs' target).result _ (walk_lem fs' target)
              (create_at-IsBalanced fs')),
        λ n. elim (Bool-cases created) [
          | inr other ↦ rw other refl
          | inl ours ↦ rw ours (
              after_validation_result checked.calls checked.result _ balanced
                (at_place_result (walk fs' target).calls (walk fs' target).result _
                  (walk_lem fs' target) (remove_at-IsBalanced fs'))
                n)
        ],
      )
