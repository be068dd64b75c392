-- ===== src/Users/Entitled.antt =====
-- Who may make a request: src/agentlen/application/use_cases/authenticate_user.py.
use agent_len.Base.{
  require, require-ok, ℕ, ◌<◌, String, ◌≡◌, refl, ap, sym, ◌∙◌, Bool, true, ◌&&◌, Option, none,
  some, List, [], ◌∷◌, ok, ◌==◌, nat_eq, string_eq, eq_iff, nat_eq_iff, Bool-cases, Option-cases,
  inl, inr, ◌⊎◌, ◌↔◌, >>=-eq-ok, arith,
}
use mathlib.Core.Path.{subst}
use mathlib.Core.Option.{some-injective}
use agent_len.Python.{Python}
use agent_len.Users.{User, UserSession, Accounts, unauthenticated}
use agent_len.Users.{user_by_id, is_active, active_session, extract_token, authenticate}

abbrev pub IsIn : {A : Type 0} → A → List A → Type 0
IsIn a [] = ⊥
IsIn a (x ∷ xs) = (x ≡ a) ⊎ IsIn a xs

user_by_id-IsIn :
    (id : ℕ) (u : User) (users : List User)
    → user_by_id id users ≡ some u
    → IsIn u users × (u.id ≡ id)
user_by_id-IsIn id u [] h = cc
user_by_id-IsIn id u (x ∷ users) h = elim (Bool-cases (x.id == id)) [
  | inl e ↦
      let same = some-injective x u (rw e at h) in
      (inl same, sym (ap (λ (y : User). y.id) same) ∙ (nat_eq_iff x.id id).0 e)
  | inr e ↦ let rest = user_by_id-IsIn id u users (rw e at h) in (inr rest.0, rest.1)
]

active_session-IsIn :
    (digest : String) (now : ℕ) (s : UserSession) (sessions : List UserSession)
    → active_session digest now sessions ≡ some s
    → IsIn s sessions × ((s.token_hash == digest && is_active now s) ≡ true)
unfolding active_session
active_session-IsIn digest now s [] h = cc
active_session-IsIn digest now s (x ∷ sessions) h =
    elim (Bool-cases (x.token_hash == digest && is_active now x)) [
      | inl e ↦
          let same = some-injective x s (rw e at h) in
          (
            inl same,
            subst (λ (y : UserSession). (y.token_hash == digest && is_active now y) ≡ true) same e,
          )
      | inr e ↦
          let rest = active_session-IsIn digest now s sessions (rw e at h) in (inr rest.0, rest.1)
    ]

-- The session never expires, or it does so later.
abbrev pub NotExpired : ℕ → UserSession → Type 0
NotExpired now s = (s.expires_at ≡ none) ⊎ ((t : ℕ) × (s.expires_at ≡ some t) × (now < t))

is_active-NotExpired : (now : ℕ) (s : UserSession) → (is_active now s ≡ true) ↔ NotExpired now s
is_active-NotExpired now s = elim (Option-cases s.expires_at) [
  | inl e ↦ (λ h. inl e, λ h. rw e refl)
  | inr (t, e) ↦ (
    λ h. inr (t, e, ground (arith, rw e at h)),
    λ h. rw e (elim h [
      | inl gone ↦ cc
      | inr (u, is, later) ↦ ground (arith, some-injective t u (sym e ∙ is))
    ]),
  )
]

-- Entries that have the same key are the same.
abbrev pub Keyed : {A K : Type 0} → (A → K) → List A → Type 0
Keyed {A} key xs = (a b : A) → IsIn a xs → IsIn b xs → key a ≡ key b → a ≡ b

both_true : (a b : Bool) → (a && b) ≡ true → (a ≡ true) × (b ≡ true)
both_true a b h = (ground arith, ground arith)

both_hold : (a b : Bool) → a ≡ true → b ≡ true → (a && b) ≡ true
both_hold a b h k = ground arith

tail-Keyed : {A K : Type 0} (key : A → K) (x : A) (xs : List A) → Keyed key (x ∷ xs) → Keyed key xs
tail-Keyed key x xs h a b left right = h a b (inr left) (inr right)

active_session-Keyed :
    (digest : String) (now : ℕ) (s : UserSession) (sessions : List UserSession)
    → Keyed (λ (x : UserSession). x.token_hash) sessions
    → IsIn s sessions
    → s.token_hash ≡ digest
    → is_active now s ≡ true
    → active_session digest now sessions ≡ some s
unfolding active_session
active_session-Keyed digest now s [] one there named active = elim there [ ]
active_session-Keyed digest now s (x ∷ sessions) one there named active =
    elim (Bool-cases (x.token_hash == digest && is_active now x)) [
      | inl e ↦
          let same = (eq_iff x.token_hash digest).0 (both_true _ _ e).0 in
          rw e (ap some (one x s (inl refl) there (same ∙ sym named)))
      | inr e ↦ rw e (elim there [
        | inl same ↦
            let is : (x.token_hash == digest && is_active now x) ≡ true =
              subst (λ (y : UserSession). (y.token_hash == digest && is_active now y) ≡ true)
                (sym same) (both_hold _ _ ((eq_iff s.token_hash digest).1 named) active) in
            cc
        | inr rest ↦
            active_session-Keyed digest now s sessions
              (tail-Keyed (λ (y : UserSession). y.token_hash) x sessions one) rest named active
      ])
    ]

user_by_id-Keyed :
    (id : ℕ) (u : User) (users : List User)
    → Keyed (λ (x : User). x.id) users
    → IsIn u users
    → u.id ≡ id
    → user_by_id id users ≡ some u
user_by_id-Keyed id u [] one there named = elim there [ ]
user_by_id-Keyed id u (x ∷ users) one there named = elim (Bool-cases (x.id == id)) [
  | inl e ↦ rw e (ap some (one x u (inl refl) there ((nat_eq_iff x.id id).0 e ∙ sym named)))
  | inr e ↦ rw e (elim there [
    | inl same ↦
        let is : (x.id == id) ≡ true =
          (nat_eq_iff x.id id).1 (ap (λ (y : User). y.id) same ∙ named) in
        cc
    | inr rest ↦
        user_by_id-Keyed id u users (tail-Keyed (λ (y : User). y.id) x users one) rest named
  ])
]

module _ (py : Python) where
  -- Why a request is let through: its token's digest is that of a session of the user that is there
  -- and has not expired.
  pub record Entitled (header : Option String) (now : ℕ) (accounts : Accounts) (user : User)
      : Type 0 where
    pub token : String
    pub session : UserSession
    pub sent : extract_token py header ≡ some token
    pub listed : IsIn session accounts.sessions
    pub digest : session.token_hash ≡ py.sha256 token
    pub not_expired : NotExpired now session
    pub owner : user.id ≡ session.user_id
    pub known : IsIn user accounts.users

  authenticate-ok-Entitled :
      (header : Option String) (now : ℕ) (accounts : Accounts) (user : User)
      → authenticate py header now accounts ≡ ok user
      → Entitled header now accounts user
  unfolding authenticate
  authenticate-ok-Entitled header now accounts user h =
      let (token, sent, h1) = >>=-eq-ok (require unauthenticated (extract_token py header)) _ h in
      let (session, found, h2) =
        >>=-eq-ok (require unauthenticated (active_session (py.sha256 token) now accounts.sessions))
          _ h1 in
      let (listed, fits) =
        active_session-IsIn (py.sha256 token) now session accounts.sessions
          (require-ok unauthenticated _ found) in
      let (known, owner) =
        user_by_id-IsIn session.user_id user accounts.users (require-ok unauthenticated _ h2) in
      let (same, active) =
        both_true (session.token_hash == py.sha256 token) (is_active now session) fits in
      record {
        token = token;
        session = session;
        sent = require-ok unauthenticated _ sent;
        listed = listed;
        digest = (eq_iff session.token_hash (py.sha256 token)).0 same;
        not_expired = (is_active-NotExpired now session).0 active;
        owner = owner;
        known = known;
      }

  Entitled-authenticate :
      (header : Option String) (now : ℕ) (accounts : Accounts) (user : User)
      → Keyed (λ (s : UserSession). s.token_hash) accounts.sessions
      → Keyed (λ (u : User). u.id) accounts.users
      → Entitled header now accounts user
      → authenticate py header now accounts ≡ ok user
  unfolding authenticate
  Entitled-authenticate header now accounts user digests users e = rw (
    e.sent,
    active_session-Keyed (py.sha256 e.token) now e.session accounts.sessions digests e.listed
        e.digest ((is_active-NotExpired now e.session).1 e.not_expired),
    user_by_id-Keyed e.session.user_id user accounts.users users e.known e.owner,
  )

  -- Where no two sessions have one digest and no two users one id, a request is a user's exactly
  -- if it sends a token whose digest is that of a stored session of that user which never
  -- expires or expires later.
  pub authenticate-Entitled :
      (header : Option String) (now : ℕ) (accounts : Accounts) (user : User)
      → Keyed (λ (s : UserSession). s.token_hash) accounts.sessions
      → Keyed (λ (u : User). u.id) accounts.users
      → (authenticate py header now accounts ≡ ok user) ↔ Entitled header now accounts user
  authenticate-Entitled header now accounts user digests users = (
    authenticate-ok-Entitled header now accounts user,
    Entitled-authenticate header now accounts user digests users,
  )
