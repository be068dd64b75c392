-- ===== src/Users/Sessions.antt =====
-- How long a token is good for: src/agentlen/application/use_cases/login_user.py, logout_user.py and
-- authenticate_user.py.
use agent_len.Base.{
  require, ensure, ℕ, ◌+◌, String, ◌≡◌, refl, ap, sym, Bool, false, not, none, some, List, [], ◌∷◌,
  ◌++◌,
}
use agent_len.Base.{
  ok, err, >>=-eq-ok, ok-injective, All, ltb, ◌==◌, nat_eq, string_eq, eq_iff, if◌then◌else◌,
  Bool-cases, inl, inr,
}
use mathlib.Core.Path.{subst}
use agent_len.Python.{Python}
use agent_len.Users.Credentials.{normalize_email}
use agent_len.Users.{
  User, UserSession, Accounts, unauthenticated, invalid_email, invalid_credentials, Hasher,
}
use agent_len.Users.{
  user_by_email, user_by_id, is_active, active_session, keep_session, delete_expired,
  delete_by_token_hash, session_lifetime, hash_of,
}
use agent_len.Users.{extract_token, authenticate, login, logout}

abbrev pub IsFresh : String → List UserSession → Type 0
IsFresh digest sessions = All (λ s. (s.token_hash == digest) ≡ false) sessions

keep-IsFresh :
    (digest : String) (keeps : UserSession → Bool) (sessions : List UserSession)
    → IsFresh digest sessions
    → IsFresh digest (keep_session keeps sessions)
keep-IsFresh digest keeps [] h = tt
keep-IsFresh digest keeps (s ∷ sessions) h = elim (Bool-cases (keeps s)) [
  | inl e ↦ rw e (h.0, keep-IsFresh digest keeps sessions h.1)
  | inr e ↦ rw e (keep-IsFresh digest keeps sessions h.1)
]

dropped-IsFresh :
    (digest : String) (sessions : List UserSession)
    → IsFresh digest (keep_session (λ s. not (s.token_hash == digest)) sessions)
dropped-IsFresh digest [] = tt
dropped-IsFresh digest (s ∷ sessions) = elim (Bool-cases (s.token_hash == digest)) [
  | inl e ↦ rw e (dropped-IsFresh digest sessions)
  | inr e ↦ rw e (e, dropped-IsFresh digest sessions)
]

active_session-none :
    (digest : String) (now : ℕ) (sessions : List UserSession)
    → IsFresh digest sessions
    → active_session digest now sessions ≡ none
unfolding active_session
active_session-none digest now [] h = refl
active_session-none digest now (s ∷ sessions) h =
    rw (h.0) (active_session-none digest now sessions h.1)

-- The session that was made last is found while it is active.
active_session-last :
    (digest : String) (now : ℕ) (sessions : List UserSession) (s : UserSession)
    → IsFresh digest sessions
    → s.token_hash ≡ digest
    → active_session digest now (sessions ++ s ∷ []) ≡ (if is_active now s then some s else none)
unfolding active_session
active_session-last digest now [] s h e = rw ((eq_iff s.token_hash digest).1 e)
active_session-last digest now (x ∷ sessions) s h e =
    rw (h.0) (active_session-last digest now sessions s h.1 e)

module _ (py : Python) where
  -- A request with a token is refused once its token was logged out, whenever it comes.
  pub logout-authenticate :
      (header token : String) (now : ℕ) (accounts : Accounts)
      → extract_token py (some header) ≡ some token
      → authenticate py (some header) now (logout py token accounts) ≡ err unauthenticated
  unfolding authenticate logout delete_by_token_hash
  logout-authenticate header token now accounts h = rw (
    h,
    active_session-none (py.sha256 token) now _
        (dropped-IsFresh (py.sha256 token) accounts.sessions),
  )

  abbrev new_session : String → ℕ → User → UserSession
  new_session token now user = record {
    token_hash = py.sha256 token;
    user_id = user.id;
    expires_at = some (now + session_lifetime);
  }

  login-result :
      (hasher : Hasher) (email password token : String) (now : ℕ) (accounts : Accounts)
      {user : User} {after : Accounts}
      → login py hasher email password token now accounts ≡ ok (user, after)
      → after ≡ record accounts {
        sessions = delete_expired now accounts.sessions ++ new_session token now user ∷ [];
      }
  unfolding login
  login-result hasher email password token now accounts {user} {after} h =
      let (address, _, h1) = >>=-eq-ok (require invalid_email (normalize_email py email)) _ h in
      let found = user_by_email address accounts.users in
      let (_, _, h2) =
        >>=-eq-ok (ensure (hasher.verify password (hash_of found)) invalid_credentials) _ h1 in
      let (u, _, h3) = >>=-eq-ok (require invalid_credentials found) _ h2 in
      let pair = ok-injective h3 in
      subst
        (λ (x : User). after ≡ record accounts {
          sessions = delete_expired now accounts.sessions ++ new_session token now x ∷ [];
        })
        (ap (λ p. p.0) pair) (sym (ap (λ p. p.1) pair))

  -- After a login, a request with the token is the user's for thirty days and refused from then
  -- on, if no earlier session has a token with the same digest and the user's id names the user.
  pub login-authenticate :
      (hasher : Hasher) (email password token header : String) (now later : ℕ) (accounts : Accounts)
      {user : User} {after : Accounts}
      → login py hasher email password token now accounts ≡ ok (user, after)
      → extract_token py (some header) ≡ some token
      → IsFresh (py.sha256 token) accounts.sessions
      → user_by_id user.id accounts.users ≡ some user
      → authenticate py (some header) later after
        ≡ (if ltb later (now + session_lifetime) then ok user else err unauthenticated)
  unfolding authenticate delete_expired
  login-authenticate hasher email password token header now later accounts {user} {after} h sent
        fresh known =
      rw (login-result hasher email password token now accounts h, sent)
        (rw
          (active_session-last (py.sha256 token) later (delete_expired now accounts.sessions)
            (new_session token now user)
            (keep-IsFresh (py.sha256 token) (is_active now) accounts.sessions fresh) refl)
          (elim (Bool-cases (ltb later (now + session_lifetime))) [
            | inl e ↦ rw (e, known)
            | inr e ↦ rw e
          ]))
