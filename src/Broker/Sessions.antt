-- ===== src/Broker/Sessions.antt =====
-- internal/broker/sessions.go: the session store of the broker.
-- A `time.Time` is a number of nanoseconds, and so is a `time.Duration`; `now.Sub(t) >= d` is
-- written `t + d <= now`, which is the same over the integers. The digest `tokenKey` (SHA-256) is
-- a parameter, and the random tokens are arguments: `none` is a failure of `rand.Read`. The mutex
-- makes each method one step.
pub mod Expiry
pub mod History
use pilothouse.Base.{
  ℕ, ◌+◌, String, Bool, true, false, not, ◌&&◌, ◌||◌, Option, none, some, [], Map, string_eq,
  lookup, insert, erase, retain, ltb, leb, min, if◌then◌else◌, ◌==◌,
}
use pilothouse.Auth.{Identity}

pub record Session : Type 0 where
  pub abs_expires_at : ℕ
  pub csrf : String
  pub identity : Identity
  pub last_active_at : ℕ

pub record SessionStore : Type 0 where
  pub absolute_ttl : ℕ
  pub idle_ttl : ℕ
  pub sessions : Map String Session

pub record SessionResponse : Type 0 where
  pub csrf : String
  pub expires_at : ℕ
  pub identity : Identity

unfoldable pub new_session_store : ℕ → ℕ → SessionStore
new_session_store idle_ttl absolute_ttl = record {
  absolute_ttl = absolute_ttl;
  idle_ttl = idle_ttl;
  sessions = [];
}

-- `!now.Before(absExpiresAt) || now.Sub(lastActiveAt) >= idleTTL`
abbrev pub is_expired : ℕ → ℕ → Session → Bool
is_expired idle_ttl now s = not (ltb now s.abs_expires_at) || leb (s.last_active_at + idle_ttl) now

unfoldable pub session_response : Session → ℕ → ℕ → SessionResponse
session_response entry now idle_ttl =
    let expires_at = now + idle_ttl in
    record {
      csrf = entry.csrf;
      expires_at = if ltb entry.abs_expires_at expires_at then entry.abs_expires_at else expires_at;
      identity = entry.identity;
    }

-- The entry that `Create` makes.
unfoldable pub new_session : ℕ → Identity → String → ℕ → Session
new_session absolute_ttl identity csrf now = record {
  abs_expires_at = now + absolute_ttl;
  csrf = csrf;
  identity = identity;
  last_active_at = now;
}

module _ (token_key : String → String) where
  -- `Create`, with the two results of `randomToken` and the clock's reading.
  unfoldable pub create :
      SessionStore
      → Identity
      → Option String
      → Option String
      → ℕ
      → SessionStore × Option (String × SessionResponse)
  unfolding session_response new_session
  create s identity none csrf now = (s, none)
  create s identity (some token) none now = (s, none)
  create s identity (some token) (some csrf) now =
      let entry = new_session s.absolute_ttl identity csrf now in
      let live = retain (λ e. not (is_expired s.idle_ttl now e)) s.sessions in
      (
        record s { sessions = insert (token_key token) entry live },
        some (token, session_response entry now s.idle_ttl),
      )

  -- `Delete`
  unfoldable pub delete : SessionStore → String → SessionStore
  delete s token = record s { sessions = erase (token_key token) s.sessions }

  -- The part of `Get` under the lock.
  get_entry : SessionStore → String → ℕ → Option Session → SessionStore × Option SessionResponse
  unfolding session_response
  get_entry s key now none = (record s { sessions = erase key s.sessions }, none)
  get_entry s key now (some entry) =
      if is_expired s.idle_ttl now entry
      then (record s { sessions = erase key s.sessions }, none)
      else (
        record s { sessions = insert key (record entry { last_active_at = now }) s.sessions },
        some (session_response (record entry { last_active_at = now }) now s.idle_ttl),
      )

  -- `Get`
  unfoldable pub get : SessionStore → String → ℕ → SessionStore × Option SessionResponse
  unfolding get_entry
  get s token now =
      if token == ""
      then (s, none)
      else get_entry s (token_key token) now (lookup (token_key token) s.sessions)
