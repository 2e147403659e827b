-- ===== src/Listen/Plaintext.antt =====
-- When the web server speaks plaintext beyond loopback.
use pilothouse.Base.{
  ◌≡◌, ap, ◌∙◌, ◌⊎◌, String, Bool, true, false, not, Option, some, string_eq, ◌==◌, arith, ok,
  >>=-eq-ok, Bool-cases, Option-cases, inl, inr,
}
use pilothouse.Listen.{
  serve_http, Setting, Settings, Decision, decide_serve_mode, both, resolve_string, resolve_bool,
  is_loopback_listen, whole_certificate, decide,
}

module _ (trim_space : String → String) (parse_bool : String → Option Bool)
    (split_host : String → Option String) (parse_ip : String → Option Bool)
    (equal_fold : String → String → Bool) where
  -- The operator's word for plaintext: the flag, or the variable of the environment where the flag
  -- was not passed.
  abbrev pub Acknowledged : Setting Bool → Type 0
  Acknowledged s =
      (s.flag ≡ true) ⊎ ((s.passed ≡ false) × (parse_bool (trim_space s.env) ≡ some true))

  resolve_bool-true :
      (s : Setting Bool)
      → resolve_bool trim_space parse_bool split_host parse_ip equal_fold s ≡ ok true
      → Acknowledged s
  unfolding resolve_bool
  resolve_bool-true s h = elim (Bool-cases s.passed) [
    | inl passed ↦ inl (ground arith)
    | inr silent ↦ elim (Bool-cases (trim_space s.env == "")) [
      | inl empty ↦ inl (ground arith)
      | inr given ↦ elim (Option-cases (parse_bool (trim_space s.env))) [
        | inl bad ↦ absurd (ground arith)
        | inr (b, parsed) ↦
            let same : b ≡ true = ground arith in inr (silent, parsed ∙ ap some same)
      ]
    ]
  ]

  -- What a decision for plaintext beyond loopback says of the settings.
  pub record Exposed (s : Settings) : Type 0 where
    pub no_certificate :
        resolve_string trim_space parse_bool split_host parse_ip equal_fold s.tls_cert ≡ ""
    pub no_key : resolve_string trim_space parse_bool split_host parse_ip equal_fold s.tls_key ≡ ""
    pub acknowledged : Acknowledged s.allow_insecure_http

  -- Plaintext is served on an address that is not a loopback only if neither a certificate nor a key
  -- is configured, and plaintext is asked for by the flag, or, where the flag is not passed, by the
  -- environment.
  pub decide-Exposed :
      (s : Settings) (d : Decision)
      → decide trim_space parse_bool split_host parse_ip equal_fold s ≡ ok d
      → d.mode ≡ serve_http
      → d.loopback ≡ false
      → Exposed s
  unfolding decide decide_serve_mode
  decide-Exposed s d h plain beyond =
      let cert = resolve_string trim_space parse_bool split_host parse_ip equal_fold s.tls_cert in
      let key = resolve_string trim_space parse_bool split_host parse_ip equal_fold s.tls_key in
      let (allow, resolved, h1) =
        >>=-eq-ok
          (resolve_bool trim_space parse_bool split_host parse_ip equal_fold s.allow_insecure_http)
          _ h in
      let (u, whole, h2) =
        >>=-eq-ok
          (whole_certificate trim_space parse_bool split_host parse_ip equal_fold
            (both (cert == "") (key == "")))
          _ h1 in
      let (loopback, listened, h3) =
        >>=-eq-ok
          (is_loopback_listen trim_space parse_bool split_host parse_ip equal_fold
            (resolve_string trim_space parse_bool split_host parse_ip equal_fold s.listen))
          _ h2 in
      let made : record {
        mode = decide_serve_mode loopback (not (cert == "")) allow;
        loopback = loopback;
      }
          ≡ d =
        ground arith in
      let mode : decide_serve_mode loopback (not (cert == "")) allow ≡ serve_http =
        ap (λ d. d.mode) made ∙ plain in
      let far : loopback ≡ false = ap (λ d. d.loopback) made ∙ beyond in
      let no_cert : (cert == "") ≡ true = ground arith in
      let allowed : allow ≡ true = ground arith in
      record {
        no_certificate = (string_eq.beq_iff cert "").0 no_cert;
        no_key = (string_eq.beq_iff key "").0 (ground arith);
        acknowledged = resolve_bool-true s.allow_insecure_http (resolved ∙ ap ok allowed);
      }
