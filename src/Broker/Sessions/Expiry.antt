-- ===== src/Broker/Sessions/Expiry.antt =====
-- What one method of the session store promises to the next.
use pilothouse.Base.{
  ℕ, ◌+◌, ◌<◌, ◌≡◌, ◌≢◌, ◌↔◌, String, true, false, Option, none, some, arith, lookup, insert,
  string_eq, ◌==◌, lookup-erase, insert-HasDistinctKeys, erase-HasDistinctKeys,
  retain-HasDistinctKeys, HasDistinctKeys, lookup-insert_self, lookup-erase_self, is_some,
  Bool-cases, Option-cases, inl, inr,
}
use pilothouse.Auth.{Identity}
use pilothouse.Broker.Sessions.{
  Session, SessionStore, SessionResponse, create, delete, get, is_expired, new_session,
  session_response,
}

module _ (token_key : String → String) where
  -- The three methods keep the keys of the map distinct.
  pub create-HasDistinctKeys :
      (s : SessionStore) (identity : Identity) (token csrf : Option String) (now : ℕ)
      → HasDistinctKeys s.sessions
      → HasDistinctKeys (create token_key s identity token csrf now).0.sessions
  unfolding create
  create-HasDistinctKeys s identity none csrf now h = h
  create-HasDistinctKeys s identity (some t) none now h = h
  create-HasDistinctKeys s identity (some t) (some c) now h =
      insert-HasDistinctKeys _ _ _ (retain-HasDistinctKeys _ _ h)

  pub delete-HasDistinctKeys :
      (s : SessionStore) (token : String)
      → HasDistinctKeys s.sessions
      → HasDistinctKeys (delete token_key s token).sessions
  unfolding delete
  delete-HasDistinctKeys s token h = erase-HasDistinctKeys _ _ h

  pub get-HasDistinctKeys :
      (s : SessionStore) (token : String) (now : ℕ)
      → HasDistinctKeys s.sessions
      → HasDistinctKeys (get token_key s token now).0.sessions
  unfolding get
  get-HasDistinctKeys s token now h = elim (Option-cases (lookup (token_key token) s.sessions)) [
    | inl missing ↦ ground (arith, erase-HasDistinctKeys (token_key token) s.sessions h)
    | inr (entry, found) ↦ ground (
      arith,
      erase-HasDistinctKeys (token_key token) s.sessions h,
      insert-HasDistinctKeys (token_key token) (record entry { last_active_at = now }) s.sessions h,
    )
  ]

  -- What a successful `Get` has found and stored.
  pub record Answered (s : SessionStore) (token : String) (now : ℕ) (r : SessionResponse)
      (entry : Session) : Type 0 where
    pub nonempty : (token == "") ≡ false
    pub found : lookup (token_key token) s.sessions ≡ some entry
    pub live : is_expired s.idle_ttl now entry ≡ false
    pub response : r ≡ session_response (record entry { last_active_at = now }) now s.idle_ttl
    pub stored : (get token_key s token now).0 ≡ record s {
      sessions = insert (token_key token) (record entry { last_active_at = now }) s.sessions;
    }

  pub get-Answered :
      (s : SessionStore) (token : String) (now : ℕ) (r : SessionResponse)
      → (get token_key s token now).1 ≡ some r
      → (entry : Session) × Answered s token now r entry
  unfolding get
  get-Answered s token now r e = elim (Bool-cases (token == "")) [
    | inl empty ↦ ground arith
    | inr nonempty ↦ elim (Option-cases (lookup (token_key token) s.sessions)) [
      | inl missing ↦ absurd (ground arith)
      | inr (entry, found) ↦ elim (Bool-cases (is_expired s.idle_ttl now entry)) [
        | inl old ↦ absurd (ground arith)
        | inr live ↦ (
          entry,
          record {
            nonempty = nonempty;
            found = found;
            live = live;
            response = ground arith;
            stored = ground arith;
          },
        )
      ]
    ]
  ]

  pub get_live :
      (s : SessionStore) (token : String) (now : ℕ) (entry : Session)
      → (token == "") ≡ false
      → lookup (token_key token) s.sessions ≡ some entry
      → is_expired s.idle_ttl now entry ≡ false
      → get token_key s token now ≡ (
        record s {
          sessions = insert (token_key token) (record entry { last_active_at = now }) s.sessions;
        },
        some (session_response (record entry { last_active_at = now }) now s.idle_ttl),
      )
  unfolding get
  get_live s token now entry t f l = rw (t, f, l)

  pub get_expired :
      (s : SessionStore) (token : String) (now : ℕ) (entry : Session)
      → lookup (token_key token) s.sessions ≡ some entry
      → is_expired s.idle_ttl now entry ≡ true
      → (get token_key s token now).1 ≡ none
  unfolding get
  get_expired s token now entry f l = ground arith

  get-is_some_iff :
      (s : SessionStore) (token : String) (now : ℕ) (entry : Session)
      → (token == "") ≡ false
      → lookup (token_key token) s.sessions ≡ some entry
      → (is_some (get token_key s token now).1 ≡ true)
        ↔ ((now < entry.abs_expires_at) × (now < entry.last_active_at + s.idle_ttl))
  unfolding get
  get-is_some_iff s token now entry t f = ground arith

  touched : SessionStore → String → ℕ → Session → SessionStore
  touched s token now entry = record s {
    sessions = insert (token_key token) (record entry { last_active_at = now }) s.sessions;
  }

  -- A session that `Get` has just answered for is answered again exactly as long as the clock is
  -- before the `ExpiresAt` of that answer.
  pub get-get_iff :
      (s : SessionStore) (token : String) (now later : ℕ) (r : SessionResponse)
      → (get token_key s token now).1 ≡ some r
      → (is_some (get token_key (get token_key s token now).0 token later).1 ≡ true)
        ↔ (later < r.expires_at)
  unfolding touched session_response
  get-get_iff s token now later r e =
      let (entry, a) = get-Answered s token now r e in
      let again =
        get-is_some_iff (touched s token now entry) token later
          (record entry { last_active_at = now }) a.nonempty
          (lookup-insert_self (token_key token) (record entry { last_active_at = now })
            s.sessions) in
      rw a.stored (ground (arith, again, a.response))

  -- A session that `Create` has returned is answered for exactly as long as the clock is before
  -- the `ExpiresAt` that came with it.
  pub get-create_iff :
      (s : SessionStore) (identity : Identity) (rand1 rand2 : Option String) (now later : ℕ)
      (token : String) (r : SessionResponse)
      → token ≢ ""
      → (create token_key s identity rand1 rand2 now).1 ≡ some (token, r)
      → (is_some (get token_key (create token_key s identity rand1 rand2 now).0 token later).1
          ≡ true)
        ↔ (later < r.expires_at)
  unfolding create session_response new_session
  get-create_iff s identity none rand2 now later token r t e = cc
  get-create_iff s identity (some t') none now later token r t e = cc
  get-create_iff s identity (some t') (some csrf) now later token r t e =
      let st = (create token_key s identity (some t') (some csrf) now).0 in
      let entry = new_session s.absolute_ttl identity csrf now in
      let same : t' ≡ token = ground arith in
      let fresh =
        get-is_some_iff st token later entry (ground (arith, string_eq.beq_iff token ""))
          (rw same (lookup-insert_self (token_key token) entry _)) in
      ground (arith, fresh)

  get-eq-none :
      (s : SessionStore) (token : String) (now : ℕ)
      → lookup (token_key token) s.sessions ≡ none
      → (get token_key s token now).1 ≡ none
  unfolding get
  get-eq-none s token now h = ground arith

  -- After `Delete` the token is refused, whatever the clock says.
  pub get-delete :
      (s : SessionStore) (token : String) (now : ℕ)
      → (get token_key (delete token_key s token) token now).1 ≡ none
  unfolding delete
  get-delete s token now =
      get-eq-none (delete token_key s token) token now
        (lookup-erase_self (token_key token) s.sessions)

  -- A token with another digest is answered as before.
  pub get-delete_other :
      (s : SessionStore) (token other : String) (now : ℕ)
      → token_key token ≢ token_key other
      → (get token_key (delete token_key s token) other now).1 ≡ (get token_key s other now).1
  unfolding delete get
  get-delete_other s token other now differ = ground (
    arith,
    lookup-erase (token_key token) (token_key other) s.sessions,
    string_eq.beq_iff (token_key token) (token_key other),
  )
