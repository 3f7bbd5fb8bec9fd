-- ===== src/Handshake/Session/Admission.antt =====
-- Who gets past the handshake, and what happens to the others.
use wispurr.Base.{
  ℕ, ◌≡◌, ◌≢◌, refl, sym, ap, ◌∙◌, List, [], ◌∷◌, Bool, true, false, Option, none, some, arith,
}
use wispurr.WriteQueue.Invariant.{close-is_closed}
use wispurr.Handshake.Extensions.{
  Extensions, Parsed, parsed, error_invalid, panics, out_of_fuel, parse_client_info,
}
use wispurr.Handshake.Password.{check_password}
use wispurr.Handshake.Session.{
  Session, SessionConfig, Decision, refuse, admit, judge, decide_parsed, decide_auth, knows,
  is_empty, handle_info, carry_out, accept, close_with,
}

-- The user and password of the extensions are those of a user of the configuration.
pub record Knows (bcrypt_matches : List ℕ → List ℕ → Bool) (c : SessionConfig) (exts : Extensions)
    : Type 0 where
  pub enabled : c.password_auth ≡ true
  pub named : exts.password_username ≢ []
  pub stored : List ℕ
  pub listed : c.password_users exts.password_username ≡ some stored
  pub matches : check_password bcrypt_matches stored exts.password_password ≡ true

-- What an admission rests on.
pub record Admits (bcrypt_matches : List ℕ → List ℕ → Bool) (c : SessionConfig) (payload : List ℕ)
    (auth_passed : Bool) (exts : Extensions) : Type 0 where
  pub version : (rest : List ℕ) × (payload ≡ 2 ∷ rest)
  pub extensions : parse_client_info payload ≡ parsed exts
  pub known : auth_passed ≡ true → Knows bcrypt_matches c exts
  pub required : c.password_auth_required ≡ true → auth_passed ≡ true

is_empty-nil : (xs : List ℕ) → is_empty xs ≡ false → xs ≢ []
unfolding is_empty
is_empty-nil [] e = cc
is_empty-nil (x ∷ xs) e = λ p. cc

module _ (bcrypt_matches : List ℕ → List ℕ → Bool) where
  knows-Knows :
      (c : SessionConfig) (exts : Extensions) (o : Option (List ℕ))
      → c.password_users exts.password_username ≡ o
      → c.password_auth ≡ true
      → is_empty exts.password_username ≡ false
      → knows bcrypt_matches c exts.password_username exts.password_password ≡ true
      → Knows bcrypt_matches c exts
  unfolding knows
  knows-Knows c exts none o a n k = ground arith
  knows-Knows c exts (some stored) o a n k = record {
    enabled = a;
    named = is_empty-nil exts.password_username n;
    stored = stored;
    listed = o;
    matches = ground arith;
  }

  decide_auth-admit :
      (c : SessionConfig) (exts exts' : Extensions) (auth_passed : Bool)
      → decide_auth bcrypt_matches c exts ≡ admit auth_passed exts'
      → (exts' ≡ exts)
        × (auth_passed ≡ true
            → (c.password_auth ≡ true)
              × (is_empty exts.password_username ≡ false)
              × (knows bcrypt_matches c exts.password_username exts.password_password ≡ true))
        × (c.password_auth_required ≡ true → auth_passed ≡ true)
  unfolding decide_auth
  decide_auth-admit c exts exts' auth_passed e =
      (ground arith, λ h. (ground arith, ground arith, ground arith), λ h. ground arith)

  decide_parsed-admit :
      (c : SessionConfig) (r : Parsed) (auth_passed : Bool) (exts : Extensions)
      → decide_parsed bcrypt_matches c r ≡ admit auth_passed exts
      → (r ≡ parsed exts) × (decide_auth bcrypt_matches c exts ≡ admit auth_passed exts)
  unfolding decide_parsed
  decide_parsed-admit c (parsed exts') auth_passed exts e =
      let same = (decide_auth-admit c exts' exts auth_passed e).0 in
      (ap parsed (sym same), ap (decide_auth bcrypt_matches c) same ∙ e)
  decide_parsed-admit c error_invalid auth_passed exts e = cc
  decide_parsed-admit c panics auth_passed exts e = cc
  decide_parsed-admit c out_of_fuel auth_passed exts e = cc

  judge-version :
      (c : SessionConfig) (payload : List ℕ) (auth_passed : Bool) (exts : Extensions)
      → judge bcrypt_matches c payload ≡ admit auth_passed exts
      → ((rest : List ℕ) × (payload ≡ 2 ∷ rest))
        × (decide_parsed bcrypt_matches c (parse_client_info payload) ≡ admit auth_passed exts)
  unfolding judge
  judge-version c [] auth_passed exts e = cc
  judge-version c (major ∷ []) auth_passed exts e = cc
  judge-version c (major ∷ minor ∷ rest) auth_passed exts e =
      ((minor ∷ rest, ground arith), ground arith)

  judge-Admits :
      (c : SessionConfig) (payload : List ℕ) (auth_passed : Bool) (exts : Extensions)
      → judge bcrypt_matches c payload ≡ admit auth_passed exts
      → Admits bcrypt_matches c payload auth_passed exts
  judge-Admits c payload auth_passed exts e = record {
    version = by_version.0;
    extensions = by_parse.0;
    known = λ p.
        let (a, n, k) = by_auth.1 p in
        knows-Knows c exts (c.password_users exts.password_username) refl a n k;
    required = by_auth.2;
  }
    where
      by_version :
          ((rest : List ℕ) × (payload ≡ 2 ∷ rest))
          × (decide_parsed bcrypt_matches c (parse_client_info payload) ≡ admit auth_passed exts)
      by_version = judge-version c payload auth_passed exts e

      by_parse :
          (parse_client_info payload ≡ parsed exts)
          × (decide_auth bcrypt_matches c exts ≡ admit auth_passed exts)
      by_parse = decide_parsed-admit c (parse_client_info payload) auth_passed exts by_version.1

      by_auth :
          (exts ≡ exts)
          × (auth_passed ≡ true
              → (c.password_auth ≡ true)
                × (is_empty exts.password_username ≡ false)
                × (knows bcrypt_matches c exts.password_username exts.password_password ≡ true))
          × (c.password_auth_required ≡ true → auth_passed ≡ true)
      by_auth = decide_auth-admit c exts exts auth_passed by_parse.1

  close_with-stays :
      (c : SessionConfig) (s : Session) (reason : ℕ) (failed : Option ℕ)
      → ((close_with c s reason failed).handshake_done ≡ s.handshake_done)
        × ((close_with c s reason failed).authenticated ≡ s.authenticated)
        × ((close_with c s reason failed).is_closed ≡ true)
  unfolding close_with
  close_with-stays c s reason failed = grind (arith, close-is_closed)

  accept_lem :
      (c : SessionConfig) (s : Session) (auth_passed : Bool) (exts : Extensions)
      → ((accept c s auth_passed exts).authenticated ≡ auth_passed)
        × ((accept c s auth_passed exts).stream_confirm ≡ exts.stream_confirm)
  unfolding accept
  accept_lem c s auth_passed exts = ground arith

  handle_info-carry_out :
      (c : SessionConfig) (s : Session) (payload : List ℕ) (failed : Option ℕ) (is_done : Bool)
      → s.handshake_done ≡ some is_done
      → handle_info bcrypt_matches c s 0 payload failed
        ≡ carry_out bcrypt_matches c s failed (judge bcrypt_matches c payload)
  unfolding handle_info
  handle_info-carry_out c s payload failed is_done h = ground arith

  -- The two ways in which a client that has sent its INFO packet can stand.
  pub data Judged (c : SessionConfig) (s : Session) (payload : List ℕ) (t : Session) : Type 0 where
    admitted :
        (exts : Extensions)
        → Admits bcrypt_matches c payload t.authenticated exts
        → t.handshake_done ≡ none
        → t.stream_confirm ≡ exts.stream_confirm
        → Judged c s payload t
    turned_away :
        t.is_closed ≡ true
        → t.handshake_done ≡ s.handshake_done
        → t.authenticated ≡ s.authenticated
        → Judged c s payload t

  carry_out-Judged :
      (c : SessionConfig) (s : Session) (payload : List ℕ) (failed : Option ℕ) (d : Decision)
      → judge bcrypt_matches c payload ≡ d
      → Judged c s payload (carry_out bcrypt_matches c s failed d)
  unfolding carry_out
  carry_out-Judged c s payload failed (refuse reason) e =
      let (h, a, o) = close_with-stays c s reason failed in turned_away o h a
  carry_out-Judged c s payload failed (admit auth_passed exts) e =
      admitted exts
        (rw ((accept_lem c s auth_passed exts).0) (judge-Admits c payload auth_passed exts e))
        (unfold accept in refl) (accept_lem c s auth_passed exts).1

  -- What an INFO packet on stream 0 does to a connection that waits for one: either the client is
  -- admitted, on a payload of major version 2 that parses, as authenticated only with the name and
  -- password of a known user, and always so where a password is required; or the connection is closed,
  -- and neither the handshake nor its being authenticated has changed.
  pub handle_info-Judged :
      (c : SessionConfig) (s : Session) (payload : List ℕ) (failed : Option ℕ) (is_done : Bool)
      → s.handshake_done ≡ some is_done
      → Judged c s payload (handle_info bcrypt_matches c s 0 payload failed)
  handle_info-Judged c s payload failed is_done h =
      rw (handle_info-carry_out c s payload failed is_done h)
        (carry_out-Judged c s payload failed (judge bcrypt_matches c payload) refl)
