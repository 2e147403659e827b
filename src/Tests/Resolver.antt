-- ===== src/Tests/Resolver.antt =====
-- An account database with one account, which is in the groups of login and of administration.
use pilothouse.Base.{
  ◌≡◌, refl, String, true, Option, none, some, [], ◌∷◌, string_eq, ◌==◌, if◌then◌else◌, ok, err,
  sort, insert_sorted, precedes,
}
use pilothouse.Auth.{
  Identity, AccountRecord, SystemResolver, root_disabled, not_in_login_group, resolve, parse_uid,
  parse_digits, group_names,
}
use pilothouse.Auth.Resolution.{Resolved, resolve-Resolved}

abbrev ada_account : AccountRecord
ada_account = record { uid = "1000"; username = "ada"; group_ids = some ("27" ∷ "99" ∷ "10" ∷ []) }

abbrev accounts : String → Option AccountRecord
accounts name = if name == "ada" then some ada_account else none

abbrev groups : String → Option String
groups id = if id == "27" then some "wheel" else if id == "10" then some "login" else none

abbrev pub resolver : SystemResolver
resolver = record {
  admin_group = "wheel";
  login_group = "login";
  lookup_account = accounts;
  lookup_group = groups;
}

abbrev pub ada : Identity
ada = record { admin = true; groups = "login" ∷ "wheel" ∷ []; uid = 1000; username = "ada" }

ada_resolved : resolve resolver "ada" ≡ ok ada
unfolding resolve parse_uid parse_digits group_names sort insert_sorted precedes
ada_resolved = refl

-- The root account, whatever its name, and an account outside the login group.
root_refused :
    resolve
      (record resolver { lookup_account = λ name. some (record ada_account { uid = "00" }) })
      "toor"
    ≡ err root_disabled
unfolding resolve parse_uid parse_digits
root_refused = refl

outsider_refused :
    resolve (record resolver { login_group = "staff" }) "ada" ≡ err not_in_login_group
unfolding resolve parse_uid parse_digits group_names sort insert_sorted precedes
outsider_refused = refl

resolve-Resolved_example : Resolved resolver "ada" ada
resolve-Resolved_example = resolve-Resolved resolver "ada" ada ada_resolved
