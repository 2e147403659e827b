-- ===== src/Tests/Sessions.antt =====
-- The session store with an idle time of 10 and an absolute time of 25; a token is its own digest.
use pilothouse.Base.{
  refl, String, true, false, some, List, [], ◌∷◌, insert, erase, retain, lookup, string_eq,
}
use pilothouse.Auth.{Identity}
use pilothouse.Broker.Sessions.{
  SessionStore, SessionResponse, create, get, new_session_store, new_session, session_response,
  delete,
}
use pilothouse.Broker.Sessions.History.{
  Call, created, asked, deleted, step, after, Genuine, get-Genuine,
}

abbrev ada : Identity
ada = record { admin = true; groups = "wheel" ∷ []; uid = 1000; username = "ada" }

abbrev bob : Identity
bob = record { admin = false; groups = []; uid = 1001; username = "bob" }

abbrev digest : String → String
digest token = token

-- Two logins, a request of the first at 109, and the logout of the second.
abbrev calls : List Call
calls =
    deleted "bob-token"
    ∷ asked "ada-token" 109
    ∷ created bob (some "bob-token") (some "bob-csrf") 102
    ∷ created ada (some "ada-token") (some "ada-csrf") 100
    ∷ []

abbrev answer : SessionResponse
answer = record { csrf = "ada-csrf"; expires_at = 125; identity = ada }

get-Genuine_example : Genuine digest 25 calls "ada-token" 118 answer
unfolding get after step create delete new_session_store new_session session_response insert erase
    retain lookup
get-Genuine_example = get-Genuine digest 10 25 calls "ada-token" 118 answer refl

abbrev filled : SessionStore
filled = after digest 10 25 calls
