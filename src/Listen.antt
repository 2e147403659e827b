-- ===== src/Listen.antt =====
-- cmd/pilothouse/listen.go and the part of `run` in cmd/pilothouse/main.go that decides how the web
-- server is served. Flags and the environment are an argument; `strings.TrimSpace`,
-- `strconv.ParseBool`, `net.SplitHostPort`, `net.ParseIP` (with `IsLoopback` of the address),
-- `strings.EqualFold` and `filepath.Join` are parameters.
pub mod Plaintext
use pilothouse.Base.{
  String, Bool, true, false, not, ◌&&◌, ◌||◌, Option, none, some, List, [], ◌∷◌, string_eq, ◌==◌,
  Eq, if◌then◌else◌, Result, ok, err, ◌>>=◌, nat_eq,
}
use Prim.Native.Char.{code}

-- `serveMode`
pub data ServeMode : Type 0 where
  serve_http serve_tls_provided serve_tls_self_signed : ServeMode

pub data ListenError : Type 0 where
  not_boolean not_host_port half_certificate : ListenError

-- A flag, whether it was passed, and the variable of the environment behind it.
pub record Setting (A : Type 0) : Type 0 where
  pub passed : Bool
  pub flag : A
  pub env : String

pub record Settings : Type 0 where
  pub listen : Setting String
  pub tls_cert : Setting String
  pub tls_key : Setting String
  pub allow_insecure_http : Setting Bool

pub record Decision : Type 0 where
  pub mode : ServeMode
  pub loopback : Bool

-- `decideServeMode`
unfoldable pub decide_serve_mode : (loopback cert_configured allow_insecure : Bool) → ServeMode
decide_serve_mode loopback cert_configured allow_insecure =
    if cert_configured
    then serve_tls_provided
    else if loopback
    then serve_http
    else if allow_insecure
    then serve_http
    else serve_tls_self_signed

-- Are both true or both false?
abbrev pub both : Bool → Bool → Bool
both true b = b
both false b = not b

-- `strings.Cut(dir, ":")`: what stands before the first colon, `none` without one.
unfoldable pub before_colon : String → Option String
before_colon String.[] = none
before_colon (String.◌∷◌ c s) =
    let rest = before_colon s in
    if code c == 58 then some "" else elim rest [ none ↦ none | some t ↦ some (String.◌∷◌ c t) ]

-- `certStateDir`, of `STATE_DIRECTORY`, `XDG_STATE_HOME` and the home directory.
unfoldable pub cert_state_dir :
    (List String → String) → String → String → Option String → Option String
cert_state_dir join state_directory xdg_state_home home =
    if not (state_directory == "")
    then elim (before_colon state_directory) [
      | some first ↦ some first
      | none ↦ some state_directory
    ]
    else if not (xdg_state_home == "")
    then some (join (xdg_state_home ∷ "pilothouse" ∷ []))
    else elim home [
      | none ↦ none
      | some dir ↦ some (join (dir ∷ ".local" ∷ "state" ∷ "pilothouse" ∷ []))
    ]

module _ (trim_space : String → String) (parse_bool : String → Option Bool)
    (split_host : String → Option String) (parse_ip : String → Option Bool)
    (equal_fold : String → String → Bool) where
  -- `resolveString`
  unfoldable pub resolve_string : Setting String → String
  resolve_string s =
      if s.passed then s.flag else if not (trim_space s.env == "") then trim_space s.env else s.flag

  -- `resolveBool`
  unfoldable pub resolve_bool : Setting Bool → Result ListenError Bool
  resolve_bool s =
      if s.passed
      then ok s.flag
      else if trim_space s.env == ""
      then ok s.flag
      else elim (parse_bool (trim_space s.env)) [ none ↦ err not_boolean | some b ↦ ok b ]

  host_is_loopback : String → Bool
  host_is_loopback host = if host == "" then false else elim (parse_ip host) [
    | some is_loopback ↦ is_loopback
    | none ↦ equal_fold host "localhost"
  ]

  -- `isLoopbackListen`
  unfoldable pub is_loopback_listen : String → Result ListenError Bool
  unfolding host_is_loopback
  is_loopback_listen addr = elim (split_host addr) [
    | none ↦ err not_host_port
    | some host ↦ ok (host_is_loopback host)
  ]

  abbrev pub whole_certificate : Bool → Result ListenError (Unit {0})
  whole_certificate b = if b then ok tt else err half_certificate

  -- The decision of `run`.
  unfoldable pub decide : Settings → Result ListenError Decision
  decide s = do
    let cert = resolve_string s.tls_cert
    let key = resolve_string s.tls_key
    allow ← resolve_bool s.allow_insecure_http
    _ ← whole_certificate (both (cert == "") (key == ""))
    loopback ← is_loopback_listen (resolve_string s.listen)
    ok (record { mode = decide_serve_mode loopback (not (cert == "")) allow; loopback = loopback })
