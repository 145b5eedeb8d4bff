-- ===== src/Calendar/Connected.antt =====
-- The OAuth flow of backend/app/services/calendar_security.py and backend/app/api/v1/calendar.py, from
-- the cookie that is issued to the connection that is stored.
use shiftmate_web.Prelude.{
  ◌==◌, ==_iff, ap, ℕ, ◌≡◌, ◌⊎◌, inl, inr, refl, sym, ◌∙◌, subst, true, false, not, Option, none,
  some, List, [], ◌∷◌, arith, any, Bool-cases,
}
use shiftmate_web.Prelude.Result.{
  Result, ok, >>=-eq-ok, raise_if-eq-ok, or_raise-eq-ok, map_error-eq-ok, Result-cases,
}
use shiftmate_web.Prelude.Text.{Text, text_eq}
use shiftmate_web.Database.{Db, Uuid, CalendarConnection, active}
use shiftmate_web.Calendar.Tables.{save_connection}
use shiftmate_web.Calendar.OAuth.{OAuthState, Library, verify}
use shiftmate_web.Calendar.Callback.{
  GoogleToken, events_scope, effective_scopes, connection_expiry, OAuthSettings, is_configured,
  Answer, redirect, provider_refused, scope_missing, refresh_token_missing, Owners, put_owner,
  sealed_token, connect, calendar_callback,
}

==_refl : (n : ℕ) → (n == n) ≡ true
==_refl n = (==_iff n n).1 refl

put_owner-own : (owner : Uuid) (db : Db) (owners : Owners) → put_owner owner db owners owner ≡ db
put_owner-own owner db owners = rw (==_refl owner) refl

put_owner-others :
    (owner : Uuid) (db : Db) (owners : Owners) (o : Uuid)
    → (o == owner) ≡ false
    → put_owner owner db owners o ≡ owners o
put_owner-others owner db owners o other = rw other refl

-- A user's calendar is connected: the cookie and the returned state verify, and the tables of the user
-- whom the cookie names get an active connection with the scope that the sync needs.
pub record IsConnected (library : Library) (secret state : Text) (cookie : Option Text) (now : ℕ)
    (owners owners' : Owners) (answer : Answer) : Type 0 where
  pub sealed : Text
  pub verified : OAuthState
  pub row : CalendarConnection
  pub given : cookie ≡ some sealed
  pub genuine : verify library secret sealed state now ≡ ok verified
  pub written :
      owners' verified.owner_id
      ≡ record (owners verified.owner_id) { calendar_connection = some row }
  pub others : (o : Uuid) → (o == verified.owner_id) ≡ false → owners' o ≡ owners o
  pub is_active : row.status ≡ active
  pub scoped : any (text_eq events_scope) row.scopes ≡ true
  pub answered : answer ≡ redirect verified.return_path

module _ (library : Library) (exchange : Text → Text → Result Text GoogleToken) where
  save_connection-row :
      (sealed : Option Text) (scopes : List Text) (expires_at : Option ℕ) (db : Db)
      {saved : CalendarConnection × Db}
      → save_connection sealed scopes expires_at db ≡ some saved
      → (saved.0.status ≡ active)
        × (saved.0.scopes ≡ scopes)
        × (saved.1 ≡ record db { calendar_connection = some saved.0 })
  unfolding save_connection
  save_connection-row sealed scopes expires_at db h = ground arith

  connect-row :
      (settings : OAuthSettings) (code : Text) (verified : OAuthState) (now : ℕ) (owners : Owners)
      {owners' : Owners}
      → connect library exchange settings code verified now owners ≡ ok owners'
      → (row : CalendarConnection) × (row.status ≡ active)
        × (any (text_eq events_scope) row.scopes ≡ true)
        × (owners'
            ≡ put_owner verified.owner_id
                (record (owners verified.owner_id) { calendar_connection = some row })
                owners)
  unfolding connect
  connect-row settings code verified now owners {owners'} h =
      let (token, exchanged, h₁) =
        map_error-eq-ok provider_refused (exchange code verified.code_verifier) _ h in
      let scopes = effective_scopes token in
      let (scoped, h₂) =
        raise_if-eq-ok (not (any (text_eq events_scope) scopes)) scope_missing _ h₁ in
      let (sealed, made, h₃) =
        >>=-eq-ok (sealed_token library exchange settings.token_secret token.refresh_token) _ h₂ in
      let (saved, stored, h₄) =
        or_raise-eq-ok
          (save_connection sealed scopes (connection_expiry token now) (owners verified.owner_id))
          refresh_token_missing _ h₃ in
      let (is_active, same_scopes, same) =
        save_connection-row sealed scopes _ (owners verified.owner_id) stored in
      let has_scope : any (text_eq events_scope) scopes ≡ true = ground arith in
      let left : put_owner verified.owner_id saved.1 owners ≡ owners' = cc in
      (
        saved.0,
        is_active,
        rw same_scopes has_scope,
        subst (λ d. owners' ≡ put_owner verified.owner_id d owners) same (sym left),
      )

  -- The callback leaves the tables of every user as they are, or else it connects the calendar of the
  -- user whom its cookie names, where the cookie and the returned state verify, changes nothing else,
  -- and redirects to the path that was asked for.
  pub calendar_callback-IsConnected :
      (settings : OAuthSettings) (code state : Text) (cookie : Option Text) (now : ℕ)
      (owners : Owners) {answer : Answer} {owners' : Owners}
      → calendar_callback library exchange settings code state cookie now owners ≡ (answer, owners')
      → (owners' ≡ owners)
        ⊎ IsConnected library settings.state_secret state cookie now owners owners' answer
  unfolding calendar_callback
  calendar_callback-IsConnected settings code state none now owners h = inl (ground arith)
  calendar_callback-IsConnected settings code state (some []) now owners h = inl (ground arith)
  calendar_callback-IsConnected settings code state (some (c ∷ s)) now owners {answer} {owners'} h =
      elim (Bool-cases (is_configured settings)) [
        | inr missing ↦ inl (let h' = rw missing at h in cc h')
        | inl configured ↦
            let h₁ = rw configured at h in
            elim (Result-cases (verify library settings.state_secret (c ∷ s) state now)) [
              | inl (e, refused) ↦ inl (let h' = rw refused at h₁ in cc h')
              | inr (verified, genuine) ↦
                  let h₂ = rw genuine at h₁ in
                  elim (Result-cases (connect library exchange settings code verified now owners)) [
                    | inl (e, failed) ↦ inl (let h' = rw failed at h₂ in cc h')
                    | inr (written, done) ↦
                        let h₃ = rw done at h₂ in
                        let (row, is_active, scoped, left) =
                          connect-row settings code verified now owners done in
                        let sent : owners' ≡ written = cc h₃ in
                        inr (record {
                          sealed = c ∷ s;
                          verified = verified;
                          row = row;
                          given = refl;
                          genuine = genuine;
                          written =
                              (ap (λ w. w verified.owner_id) (sent ∙ left))
                              ∙ put_owner-own verified.owner_id _ owners;
                          others = λ o other.
                              (ap (λ w. w o) (sent ∙ left))
                              ∙ put_owner-others verified.owner_id _ owners o other;
                          is_active = is_active;
                          scoped = scoped;
                          answered = cc h₃;
                        })
                  ]
            ]
      ]
