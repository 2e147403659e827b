-- ===== src/Broker/Sessions/History.antt =====
-- A session store after any sequence of calls: whom `Get` answers for.
use pilothouse.Base.{
  ℕ, ◌+◌, ◌≤◌, ◌<◌, ◌≡◌, ◌⊎◌, ◌∙◌, refl, String, Bool, false, not, Option, none, some, List, [],
  ◌∷◌, arith, lookup, retain, string_eq, ◌==◌, lookup-insert, lookup-erase, lookup-retain,
  HasDistinctKeys, Bool-cases, Option-cases, inl, inr,
}
use pilothouse.Auth.{Identity}
use pilothouse.Broker.Sessions.{
  Session, SessionStore, SessionResponse, create, delete, get, is_expired, new_session,
  new_session_store, session_response,
}
use pilothouse.Broker.Sessions.Expiry.{
  create-HasDistinctKeys, delete-HasDistinctKeys, get-HasDistinctKeys, get-Answered,
}

-- A call of the store, with the random tokens and the clock that it met.
pub data Call : Type 0 where
  created : Identity → Option String → Option String → ℕ → Call
  asked : String → ℕ → Call
  deleted : String → Call

module _ (token_key : String → String) where
  unfoldable pub step : Call → SessionStore → SessionStore
  step (created identity rand1 rand2 now) s = (create token_key s identity rand1 rand2 now).0
  step (asked token now) s = (get token_key s token now).0
  step (deleted token) s = delete token_key s token

  -- The store after the calls, of which the newest stands first.
  unfoldable pub after : ℕ → ℕ → List Call → SessionStore
  after idle_ttl absolute_ttl [] = new_session_store idle_ttl absolute_ttl
  after idle_ttl absolute_ttl (c ∷ cs) = step c (after idle_ttl absolute_ttl cs)

  abbrev deletes : String → Call → Bool
  deletes key (created identity rand1 rand2 now) = false
  deletes key (asked token now) = false
  deletes key (deleted token) = token_key token == key

  -- Among the calls stands a `Create` for this identity and CSRF token at this time, whose token
  -- has this digest, and no later call deletes a token of that digest.
  pub data Granted (key : String) (identity : Identity) (csrf : String) (at : ℕ)
      : List Call → Type 0 where
    by_create :
        (token : String) {cs : List Call}
        → token_key token ≡ key
        → Granted key identity csrf at (created identity (some token) (some csrf) at ∷ cs)
    kept :
        (c : Call) {cs : List Call}
        → deletes key c ≡ false
        → Granted key identity csrf at cs
        → Granted key identity csrf at (c ∷ cs)

  -- What the calls say of an entry that the store holds.
  record Explained (absolute_ttl : ℕ) (cs : List Call) (key : String) (s : Session) : Type 0 where
    at : ℕ
    deadline : s.abs_expires_at ≡ at + absolute_ttl
    granted : Granted key s.identity s.csrf at cs

  after-ttls :
      (idle_ttl absolute_ttl : ℕ) (cs : List Call)
      → ((after idle_ttl absolute_ttl cs).idle_ttl ≡ idle_ttl)
        × ((after idle_ttl absolute_ttl cs).absolute_ttl ≡ absolute_ttl)
  unfolding after step create get delete new_session_store
  after-ttls i a [] = (refl, refl)
  after-ttls i a (created d none r2 now ∷ cs) = after-ttls i a cs
  after-ttls i a (created d (some t) none now ∷ cs) = after-ttls i a cs
  after-ttls i a (created d (some t) (some c) now ∷ cs) = after-ttls i a cs
  after-ttls i a (asked t now ∷ cs) = ground (arith, after-ttls i a cs)
  after-ttls i a (deleted t ∷ cs) = after-ttls i a cs

  after-HasDistinctKeys :
      (idle_ttl absolute_ttl : ℕ) (cs : List Call)
      → HasDistinctKeys (after idle_ttl absolute_ttl cs).sessions
  unfolding after step new_session_store
  after-HasDistinctKeys i a [] = tt
  after-HasDistinctKeys i a (created d r1 r2 now ∷ cs) =
      create-HasDistinctKeys token_key _ d r1 r2 now (after-HasDistinctKeys i a cs)
  after-HasDistinctKeys i a (asked t now ∷ cs) =
      get-HasDistinctKeys token_key _ t now (after-HasDistinctKeys i a cs)
  after-HasDistinctKeys i a (deleted t ∷ cs) =
      delete-HasDistinctKeys token_key _ t (after-HasDistinctKeys i a cs)

  Explained-kept :
      (a : ℕ) (cs : List Call) (key : String) (s : Session) (c : Call)
      → deletes key c ≡ false
      → Explained a cs key s
      → Explained a (c ∷ cs) key s
  Explained-kept a cs key s c d x = record {
    at = x.at;
    deadline = x.deadline;
    granted = kept c d x.granted;
  }

  -- Where an entry of the map was before the last call.
  create-origin :
      (st : SessionStore) (d : Identity) (t c : String) (now : ℕ) (key : String) (s : Session)
      → HasDistinctKeys st.sessions
      → lookup key (create token_key st d (some t) (some c) now).0.sessions ≡ some s
      → (token_key t ≡ key) × (s ≡ new_session st.absolute_ttl d c now)
        ⊎ (lookup key st.sessions ≡ some s)
  unfolding create
  create-origin st d t c now key s distinct h =
      let live = retain (λ e. not (is_expired st.idle_ttl now e)) st.sessions in
      let entry = new_session st.absolute_ttl d c now in
      ground (
        arith,
        lookup-insert (token_key t) key entry live,
        string_eq.beq_iff (token_key t) key,
        lookup-retain (λ e. not (is_expired st.idle_ttl now e)) key st.sessions distinct,
      )

  -- The same session, apart from the time of its last use.
  abbrev SameGrant : Session → Session → Type 0
  SameGrant s s' =
      (s.abs_expires_at ≡ s'.abs_expires_at) × (s.identity ≡ s'.identity) × (s.csrf ≡ s'.csrf)

  get-origin :
      (st : SessionStore) (t : String) (now : ℕ) (key : String) (s : Session)
      → lookup key (get token_key st t now).0.sessions ≡ some s
      → (s' : Session) × (lookup key st.sessions ≡ some s') × SameGrant s s'
  unfolding get
  get-origin st t now key s h = elim (Option-cases (lookup (token_key t) st.sessions)) [
    | inl missing ↦
        (s, ground (arith, lookup-erase (token_key t) key st.sessions), (refl, refl, refl))
    | inr (entry, found) ↦ elim (Bool-cases (token_key t == key)) [
      | inl same ↦
          let eq : token_key t ≡ key = (string_eq.beq_iff _ _).0 same in
          let changed = record entry { last_active_at = now } in
          (
            entry,
            rw (← eq) found,
            ground (
              arith,
              lookup-erase (token_key t) key st.sessions,
              lookup-insert (token_key t) key changed st.sessions,
            ),
          )
      | inr other ↦
          let changed = record entry { last_active_at = now } in
          (
            s,
            ground (
              arith,
              lookup-erase (token_key t) key st.sessions,
              lookup-insert (token_key t) key changed st.sessions,
            ),
            (refl, refl, refl),
          )
    ]
  ]

  delete-origin :
      (st : SessionStore) (t key : String) (s : Session)
      → lookup key (delete token_key st t).sessions ≡ some s
      → ((token_key t == key) ≡ false) × (lookup key st.sessions ≡ some s)
  unfolding delete
  delete-origin st t key s h = ground (arith, lookup-erase (token_key t) key st.sessions)

  Explained-created :
      (i a : ℕ) (cs : List Call) (d : Identity) (t c : String) (now : ℕ) (key : String)
      (s : Session)
      → token_key t ≡ key
      → s ≡ new_session (after i a cs).absolute_ttl d c now
      → Explained a (created d (some t) (some c) now ∷ cs) key s
  unfolding new_session
  Explained-created i a cs d t c now key s same made = record {
    at = now;
    deadline = ground (arith, made, after-ttls i a cs);
    granted = rw made (by_create t same);
  }

  -- The grant of an entry is a matter of its deadline, identity and CSRF token.
  Explained-same :
      (a : ℕ) (cs : List Call) (key : String) (s s' : Session)
      → SameGrant s s'
      → Explained a cs key s'
      → Explained a cs key s
  Explained-same a cs key s s' (deadline, identity, csrf) x = record {
    at = x.at;
    deadline = deadline ∙ x.deadline;
    granted = rw (identity, csrf) x.granted;
  }

  after-Explained :
      (i a : ℕ) (cs : List Call) (key : String) (s : Session)
      → lookup key (after i a cs).sessions ≡ some s
      → Explained a cs key s
  unfolding after step create new_session_store lookup
  after-Explained i a [] key s h = cc
  after-Explained i a (created d none r2 now ∷ cs) key s h =
      Explained-kept a cs key s _ refl (after-Explained i a cs key s h)
  after-Explained i a (created d (some t) none now ∷ cs) key s h =
      Explained-kept a cs key s _ refl (after-Explained i a cs key s h)
  after-Explained i a (created d (some t) (some c) now ∷ cs) key s h =
      let earlier = after-Explained i a cs key s in
      elim (create-origin (after i a cs) d t c now key s (after-HasDistinctKeys i a cs) h) [
        | inl (same, made) ↦ Explained-created i a cs d t c now key s same made
        | inr before ↦ Explained-kept a cs key s _ refl (earlier before)
      ]
  after-Explained i a (asked t now ∷ cs) key s h =
      let (s', before, same) = get-origin (after i a cs) t now key s h in
      Explained-kept a cs key s _ refl
        (Explained-same a cs key s s' same (after-Explained i a cs key s' before))
  after-Explained i a (deleted t ∷ cs) key s h =
      let (other, before) = delete-origin (after i a cs) t key s h in
      Explained-kept a cs key s (deleted t) other (after-Explained i a cs key s before)

  -- What the calls say of an answer.
  pub record Genuine (absolute_ttl : ℕ) (cs : List Call) (token : String) (now : ℕ)
      (r : SessionResponse) : Type 0 where
    pub at : ℕ
    pub granted : Granted (token_key token) r.identity r.csrf at cs
    pub in_time : now < at + absolute_ttl
    pub bounded : r.expires_at ≤ at + absolute_ttl

  -- Whoever `Get` answers for was given the session by a `Create` with the same identity and CSRF
  -- token, for a token of the same digest, which no later call deleted; and less than the absolute
  -- lifetime has passed since then, which the answer's `ExpiresAt` does not exceed.
  pub get-Genuine :
      (idle_ttl absolute_ttl : ℕ) (cs : List Call) (token : String) (now : ℕ) (r : SessionResponse)
      → (get token_key (after idle_ttl absolute_ttl cs) token now).1 ≡ some r
      → Genuine absolute_ttl cs token now r
  unfolding session_response
  get-Genuine i a cs token now r e =
      let (entry, answer) = get-Answered token_key (after i a cs) token now r e in
      let x = after-Explained i a cs (token_key token) entry answer.found in
      record {
        at = x.at;
        granted = rw answer.response x.granted;
        in_time = ground (arith, x.deadline, answer.live);
        bounded = ground (arith, x.deadline, answer.response);
      }
