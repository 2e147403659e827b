-- ===== src/Auth/Resolution.antt =====
-- Whom `Resolve` lets in, and whom it takes for an administrator.
use pilothouse.Base.{
  ◌<◌, ◌≡◌, refl, ap, ◌∙◌, String, Bool, true, false, not, ◌&&◌, ◌||◌, Option, none, some, List, [],
  ◌∷◌, string_eq, nat_eq, ◌==◌, any, sort, contains, contains-sort, arith, ok, >>=-eq-ok,
}
use pilothouse.Auth.{
  Identity, AccountRecord, SystemResolver, ResolveError, account_failed, uid_invalid, root_disabled,
  groups_failed, not_in_login_group, parse_uid, group_names, found, require, resolve,
}

-- Is a group id of the list the id of the group?
abbrev pub has_group : (String → Option String) → List String → String → Bool
has_group find ids name = any (λ id. elim (find id) [ none ↦ false | some n ↦ n == name ]) ids

contains-group_names :
    (find : String → Option String) (name : String) (ids : List String)
    → contains (group_names find ids) name ≡ has_group find ids name
unfolding group_names
contains-group_names find name [] = refl
contains-group_names find name (id ∷ ids) = ground (arith, contains-group_names find name ids)

found-eq-ok : {A : Type 0} (o : Option A) (e : ResolveError) {a : A} → found o e ≡ ok a → o ≡ some a
found-eq-ok none e h = absurd (ground arith)
found-eq-ok (some b) e h = ground arith

require-eq-ok : (b : Bool) (e : ResolveError) (u : Unit {0}) → require b e ≡ ok u → b ≡ true
require-eq-ok b e u h = ground arith

-- What an account has to be for `Resolve` to give this identity.
pub record Resolved (r : SystemResolver) (username : String) (identity : Identity) : Type 0 where
  pub account : AccountRecord
  pub ids : List String
  pub known : r.lookup_account username ≡ some account
  pub listed : account.group_ids ≡ some ids
  pub parsed : parse_uid account.uid ≡ some identity.uid
  pub not_root : 0 < identity.uid
  pub named : identity.username ≡ account.username
  pub may_login : (r.login_group == "" || has_group r.lookup_group ids r.login_group) ≡ true
  pub administers :
      identity.admin ≡ (not (r.admin_group == "") && has_group r.lookup_group ids r.admin_group)

-- Whoever `Resolve` lets in has an account with a user id other than 0 that is a number, is in the
-- login group where one is set, and is taken for an administrator exactly if an admin group is set
-- and one of the account's group ids is that group's.
pub resolve-Resolved :
    (r : SystemResolver) (username : String) (identity : Identity)
    → resolve r username ≡ ok identity
    → Resolved r username identity
unfolding resolve
resolve-Resolved r username identity h =
    let (account, known, h1) = >>=-eq-ok (found (r.lookup_account username) account_failed) _ h in
    let (uid, parsed, h2) = >>=-eq-ok (found (parse_uid account.uid) uid_invalid) _ h1 in
    let (u, not_root, h3) = >>=-eq-ok (require (not (uid == 0)) root_disabled) _ h2 in
    let (ids, listed, h4) = >>=-eq-ok (found account.group_ids groups_failed) _ h3 in
    let groups = sort (group_names r.lookup_group ids) in
    let (v, allowed, h5) =
      >>=-eq-ok (require (r.login_group == "" || contains groups r.login_group) not_in_login_group)
        _ h4 in
    let member : (name : String) → contains groups name ≡ has_group r.lookup_group ids name =
      λ name.
        contains-sort name (group_names r.lookup_group ids)
        ∙ contains-group_names r.lookup_group name ids in
    let same : uid ≡ identity.uid = ground arith in
    let positive = require-eq-ok (not (uid == 0)) root_disabled u not_root in
    let entered =
      require-eq-ok (r.login_group == "" || contains groups r.login_group) not_in_login_group v
        allowed in
    record {
      account = account;
      ids = ids;
      known = found-eq-ok _ account_failed known;
      listed = found-eq-ok _ groups_failed listed;
      parsed = found-eq-ok _ uid_invalid parsed ∙ ap some same;
      not_root = ground (arith, same, positive, nat_eq.beq_iff uid 0);
      named = ground arith;
      may_login = ground (arith, entered, member r.login_group);
      administers = ground (arith, member r.admin_group);
    }
