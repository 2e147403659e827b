-- ===== src/Auth.antt =====
-- internal/auth/identity.go: the identity of an account and its resolution. `UID` is a Go int that
-- `Resolve` has parsed from an unsigned decimal, so a natural number. The account database, which
-- `user.Lookup` and `user.LookupGroupId` read, is the two functions of the resolver.
pub mod Resolution
use Prim.Native.Char.{code}
use pilothouse.Base.{
  ℕ, ◌+◌, ◌-◌, ◌*◌, ◌^◌, String, Bool, true, false, not, ◌&&◌, ◌||◌, Option, none, some, List, [],
  ◌∷◌, string_eq, nat_eq, ◌==◌, ltb, leb, any, sort, contains, if◌then◌else◌, Result, ok, err,
  ◌>>=◌,
}

pub record Identity : Type 0 where
  pub admin : Bool
  pub groups : List String
  pub uid : ℕ
  pub username : String

-- `group_ids` is what the call of `groupIDs` returns.
pub record AccountRecord : Type 0 where
  pub uid : String
  pub username : String
  pub group_ids : Option (List String)

pub record SystemResolver : Type 0 where
  pub admin_group : String
  pub login_group : String
  pub lookup_account : String → Option AccountRecord
  pub lookup_group : String → Option String

pub data ResolveError : Type 0 where
  account_failed uid_invalid root_disabled groups_failed not_in_login_group : ResolveError

-- `strconv.ParseUint(s, 10, 63)` of 64-bit Go, on the digits that are left.
unfoldable pub parse_digits : ℕ → String → Option ℕ
parse_digits n String.[] = if ltb n (2 ^ 63) then some n else none
parse_digits n (String.◌∷◌ c s) =
    let rest = parse_digits (n * 10 + (code c - 48)) s in
    if leb 48 (code c) && leb (code c) 57 then rest else none

unfoldable pub parse_uid : String → Option ℕ
parse_uid s = if s == "" then none else parse_digits 0 s

-- The loop over the group ids, which passes over those that are not found.
unfoldable pub group_names : (String → Option String) → List String → List String
group_names find [] = []
group_names find (id ∷ ids) =
    let rest = group_names find ids in elim (find id) [ none ↦ rest | some name ↦ name ∷ rest ]

abbrev pub found : {A : Type 0} → Option A → ResolveError → Result ResolveError A
found none e = err e
found (some a) e = ok a

abbrev pub require : Bool → ResolveError → Result ResolveError (Unit {0})
require true e = ok tt
require false e = err e

-- `Resolve`
unfoldable pub resolve : SystemResolver → String → Result ResolveError Identity
resolve r username = do
  account ← found (r.lookup_account username) account_failed
  uid ← found (parse_uid account.uid) uid_invalid
  _ ← require (not (uid == 0)) root_disabled
  ids ← found account.group_ids groups_failed
  let groups = sort (group_names r.lookup_group ids)
  _ ← require (r.login_group == "" || contains groups r.login_group) not_in_login_group
  ok (record {
    admin = not (r.admin_group == "") && contains groups r.admin_group;
    groups = groups;
    uid = uid;
    username = account.username;
  })
