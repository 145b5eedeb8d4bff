-- ===== src/Calendar/Cookie.antt =====
-- The cookie of the OAuth flow, backend/app/services/calendar_security.py, from its issue to its
-- verification.
use shiftmate_web.Prelude.{
  ℕ, ◌+◌, ◌*◌, ◌/◌, ◌≤◌, ◌≡◌, ◌↔◌, refl, sym, ◌∙◌, subst, true, false, not, ◌||◌, some, arith,
  length, ltb,
}
use shiftmate_web.Prelude.Result.{ok, >>=-eq-ok, raise_if-eq-ok, or_raise-eq-ok}
use shiftmate_web.Prelude.Text.{Text, text_eq, text_eq→eq, text_eq_refl}
use shiftmate_web.Database.{Uuid}
use shiftmate_web.Calendar.OAuth.{
  OAuthState, Payload, state_expired, state_mismatch, url_value_error, redirect_invalid,
  secret_too_short, Library, us_per_second, state_ttl, check_secret, is_ascii, compare_digest,
  validate_return_path, issue, read_payload, expired, verify, starts_slash, starts_slashes,
}

module _ (library : Library) where
  validate_return_path-same :
      (path : Text) {safe : Text} → validate_return_path library path ≡ ok safe → safe ≡ path
  unfolding validate_return_path
  validate_return_path-same path h =
      let (parts, found, h₁) = or_raise-eq-ok (library.has_parts path) url_value_error _ h in
      let (plain, h₂) =
        raise_if-eq-ok (not (starts_slash path) || starts_slashes path) redirect_invalid _ h₁ in
      let (bare, h₃) = raise_if-eq-ok parts redirect_invalid _ h₂ in cc

  module _
      (opens : (secret value : Text)
        → library.decrypt secret (library.encrypt secret value) ≡ some value)
      (reads : (payload : Payload) → library.loads (library.dumps payload) ≡ some payload) where
    -- A cookie that was issued opens to what it was issued for.
    issue-read_payload :
        (secret : Text) (owner_id : Uuid) (path state verifier : Text) (now : ℕ) {cookie : Text}
        {oauth : OAuthState}
        → issue library secret owner_id path state verifier now ≡ ok (cookie, oauth)
        → (check_secret secret ≡ ok tt)
          × (oauth.state ≡ state)
          × (read_payload library secret cookie
              ≡ ok (record { oauth = oauth; issued_at = now / us_per_second }))
    unfolding issue read_payload
    issue-read_payload secret owner_id path state verifier now {cookie} {oauth} h =
        let (long, h₁) = raise_if-eq-ok (ltb (length secret) 32) secret_too_short _ h in
        let (safe, made, h₂) = >>=-eq-ok (validate_return_path library path) _ h₁ in
        let same = validate_return_path-same path made in
        let payload : Payload = record {
          oauth = record {
            owner_id = owner_id;
            state = state;
            code_verifier = verifier;
            return_path = safe;
          };
          issued_at = now / us_per_second;
        } in
        let sealed : library.encrypt secret (library.dumps payload) ≡ cookie = cc in
        let same_oauth : payload.oauth ≡ oauth = cc in
        let again : validate_return_path library safe ≡ ok safe =
          subst (λ p. validate_return_path library p ≡ ok safe) (sym same) made in
        (
          rw long refl,
          cc,
          rw
              (
                sym sealed,
                sym same_oauth,
                opens secret (library.dumps payload),
                reads payload,
                again,
              )
              refl,
        )

    -- Where what is sealed opens again and what is dumped is read again: the state that a cookie was
    -- issued for is what the verification of that cookie returns, at a later time and for an ASCII
    -- text, exactly if that time is at most ten minutes after the second of the issue and the text is
    -- the state that was drawn.
    pub issue-verify :
        (secret : Text) (owner_id : Uuid) (path state verifier returned : Text) (now later : ℕ)
        {cookie : Text} {oauth : OAuthState}
        → issue library secret owner_id path state verifier now ≡ ok (cookie, oauth)
        → is_ascii state ≡ true
        → is_ascii returned ≡ true
        → now ≤ later
        → (verify library secret cookie returned later ≡ ok oauth)
          ↔ ((later ≤ now / us_per_second * us_per_second + state_ttl) × (state ≡ returned))
    unfolding verify compare_digest
    issue-verify secret owner_id path state verifier returned now later {cookie} {oauth} h plain
          plain' after =
        let (long, same, read) = issue-read_payload secret owner_id path state verifier now h in
        let drawn : is_ascii oauth.state ≡ true = rw same plain in
        let start = now / us_per_second in
        let on_time : start * us_per_second ≤ later = omega arith in
        (
          λ ends.
              (let ends' = rw (long, read) at ends in
                let (fresh, h₁) = raise_if-eq-ok (expired later start) state_expired _ ends' in
                let h₂ = rw (drawn, plain') at h₁ in
                let (matches, h₃) =
                  raise_if-eq-ok (not (text_eq oauth.state returned)) state_mismatch _ h₂ in
                let equal : text_eq oauth.state returned ≡ true = ground arith in
                (ground arith, sym same ∙ text_eq→eq oauth.state returned equal)),
          λ (in_time, match).
              (let fresh : expired later start ≡ false = ground arith in
                let equal : text_eq oauth.state returned ≡ true =
                  rw (same, match) (text_eq_refl returned) in
                rw (long, read, fresh, drawn, plain', equal) refl),
        )
