-- ===== src/Users.antt =====
-- Users and their sessions: src/agentlen/application/use_cases/register_user.py, login_user.py,
-- authenticate_user.py and logout_user.py, over the tables of users and sessions
-- (src/agentlen/infrastructure/persistence/repositories/sql.py). The password hasher is an argument. The
-- draw of a random token is one too. One request runs at a time.
pub mod Credentials
pub mod Entitled
pub mod Sessions
use agent_len.Base.{
  require, ensure, ℕ, zero, suc, ◌+◌, ◌*◌, code, String, Bool, true, false, not, ◌&&◌, Option, none,
  some, List, [], ◌∷◌, ◌++◌,
}
use agent_len.Base.{Result, ok, err, ◌>>=◌, ◌>>◌, ltb, leb, ◌==◌, nat_eq, string_eq, if◌then◌else◌}
use agent_len.Python.{Python}
use Credentials.{normalize_email, is_strong}

pub record User : Type 0 where
  pub id : ℕ
  pub email : String
  pub password_hash : String

-- A row of `user_session`. Only the digest of its token is kept; `none` never expires.
pub record UserSession : Type 0 where
  pub token_hash : String
  pub user_id : ℕ
  pub expires_at : Option ℕ

pub record Accounts : Type 0 where
  pub users : List User
  pub sessions : List UserSession
  pub next_user_id : ℕ

pub data AccountRefusal : Type 0 where
  invalid_email weak_password email_unavailable invalid_credentials unauthenticated : AccountRefusal

-- The port `PasswordHasher`; an unknown user's hash is `none`.
pub record Hasher : Type 0 where
  pub hash_password : String → String
  pub verify : String → Option String → Bool

abbrev pub user_by_email : String → List User → Option User
user_by_email email [] = none
user_by_email email (u ∷ users) = if u.email == email then some u else user_by_email email users

abbrev pub user_by_id : ℕ → List User → Option User
user_by_id id [] = none
user_by_id id (u ∷ users) = if u.id == id then some u else user_by_id id users

abbrev pub is_absent : Option User → Bool
is_absent none = true
is_absent (some u) = false

-- `expires_at IS NULL OR expires_at > now`
abbrev pub is_active : ℕ → UserSession → Bool
is_active now s = elim s.expires_at [ none ↦ true | some t ↦ ltb now t ]

-- `get_active_by_token_hash`
unfoldable pub active_session : String → ℕ → List UserSession → Option UserSession
active_session digest now [] = none
active_session digest now (s ∷ sessions) =
    if s.token_hash == digest && is_active now s then some s else active_session digest now sessions

abbrev pub keep_session : (UserSession → Bool) → List UserSession → List UserSession
keep_session keeps [] = []
keep_session keeps (s ∷ sessions) =
    let rest = keep_session keeps sessions in if keeps s then s ∷ rest else rest

-- `delete_expired`: a row without an expiry is not `<= now`.
unfoldable pub delete_expired : ℕ → List UserSession → List UserSession
delete_expired now = keep_session (is_active now)

-- `delete_by_token_hash`
unfoldable pub delete_by_token_hash : String → List UserSession → List UserSession
delete_by_token_hash digest = keep_session (λ s. not (s.token_hash == digest))

-- 30 days in microseconds.
abbrev pub session_lifetime : ℕ
session_lifetime = 2_592_000_000_000

abbrev pub hash_of : Option User → Option String
hash_of none = none
hash_of (some u) = some u.password_hash

abbrev pub drop_chars : ℕ → String → String
drop_chars zero s = s
drop_chars (suc n) String.[] = String.[]
drop_chars (suc n) (String.◌∷◌ c s) = drop_chars n s

abbrev pub starts_with : String → String → Bool
starts_with String.[] s = true
starts_with (String.◌∷◌ c p) String.[] = false
starts_with (String.◌∷◌ c p) (String.◌∷◌ d s) = code c == code d && starts_with p s

module _ (py : Python) where
  -- `_extract_token`; the prefix has seven characters.
  unfoldable pub extract_token : Option String → Option String
  extract_token none = none
  extract_token (some header) =
      let token = py.strip (drop_chars 7 header) in
      if starts_with "bearer " (py.lower header) && not (token == "") then some token else none

  -- `AuthenticateUser.execute`
  unfoldable pub authenticate : Option String → ℕ → Accounts → Result AccountRefusal User
  unfolding extract_token active_session
  authenticate header now accounts = do
    token ← require unauthenticated (extract_token header)
    session ← require unauthenticated (active_session (py.sha256 token) now accounts.sessions)
    require unauthenticated (user_by_id session.user_id accounts.users)

  -- `LoginUser.execute`, with the token that is drawn.
  unfoldable pub login :
      Hasher → String → String → String → ℕ → Accounts → Result AccountRefusal (User × Accounts)
  unfolding normalize_email delete_expired
  login hasher email password token now accounts = do
    address ← require invalid_email (normalize_email py email)
    let found = user_by_email address accounts.users
    ensure (hasher.verify password (hash_of found)) invalid_credentials
    user ← require invalid_credentials found
    let session : UserSession = record {
      token_hash = py.sha256 token;
      user_id = user.id;
      expires_at = some (now + session_lifetime);
    }
    ok (user, record accounts { sessions = delete_expired now accounts.sessions ++ session ∷ [] })

  -- `LogoutUser.execute`
  unfoldable pub logout : String → Accounts → Accounts
  unfolding delete_by_token_hash
  logout token accounts = record accounts {
    sessions = delete_by_token_hash (py.sha256 token) accounts.sessions;
  }

  -- `RegisterUser.execute`
  unfoldable pub register :
      Hasher → String → String → Accounts → Result AccountRefusal (User × Accounts)
  unfolding normalize_email
  register hasher email password accounts = do
    address ← require invalid_email (normalize_email py email)
    ensure (is_strong password) weak_password
    ensure (is_absent (user_by_email address accounts.users)) email_unavailable
    let user : User = record {
      id = accounts.next_user_id;
      email = address;
      password_hash = hasher.hash_password password;
    }
    ok (
      user,
      record accounts {
        users = accounts.users ++ user ∷ [];
        next_user_id = suc accounts.next_user_id;
      },
    )
