-- ===== src/Examples/Logins.antt =====
-- A login, a request with its token, and a logout.
use agent_len.Base.{
  ◌+◌, String, ◌≡◌, refl, false, none, some, [], ◌∷◌, ok, err, ltb, ◌==◌, string_eq, if◌then◌else◌,
}
use agent_len.Users.{
  User, Accounts, unauthenticated, Hasher, extract_token, authenticate, login, logout,
  session_lifetime,
}
use agent_len.Users.Sessions.{login-authenticate, logout-authenticate}
use agent_len.Users.Entitled.{Entitled, Keyed, authenticate-Entitled}
use agent_len.Base.{inl, inr, sym, ◌∙◌, ◌↔◌}
use agent_len.Examples.Records.{plain}

-- The stand-in keeps the case of letters, so the header is in lower case.
abbrev header : String
header = "bearer t1"

abbrev ann : User
ann = record { id = 4; email = "ann@example.org"; password_hash = "secret" }

abbrev hasher : Hasher
hasher = record {
  hash_password = λ p. p;
  verify = λ p o. elim o [ none ↦ false | some h ↦ p == h ];
}

abbrev accounts : Accounts
accounts = record {
  users = ann ∷ [];
  sessions = record { token_hash = "old"; user_id = 4; expires_at = some 5 } ∷ [];
  next_user_id = 5;
}

abbrev logged_in : Accounts
logged_in = record accounts {
  sessions =
      record { token_hash = "t1"; user_id = 4; expires_at = some (10 + session_lifetime) } ∷ [];
}

sent : extract_token plain (some header) ≡ some "t1"
unfolding extract_token
sent = refl

logged : login plain hasher "ann@example.org" "secret" "t1" 10 accounts ≡ ok (ann, logged_in)
unfolding login
logged = refl

login-authenticate_example :
    authenticate plain (some header) 1_000 logged_in
    ≡ (if ltb 1_000 (10 + session_lifetime) then ok ann else err unauthenticated)
login-authenticate_example =
    login-authenticate plain hasher "ann@example.org" "secret" "t1" header 10 1_000 accounts logged
      sent (refl, tt) refl

logout-authenticate_example :
    authenticate plain (some header) 1_000 (logout plain "t1" logged_in) ≡ err unauthenticated
logout-authenticate_example = logout-authenticate plain header "t1" 1_000 logged_in sent

single-Keyed : {A K : Type 0} (key : A → K) (x : A) → Keyed key (x ∷ [])
single-Keyed key x a b (inl is) (inl also) same = sym is ∙ also
single-Keyed key x a b (inl is) (inr never) same = elim never [ ]
single-Keyed key x a b (inr never) there same = elim never [ ]

authenticate-Entitled_example :
    (authenticate plain (some header) 1_000 logged_in ≡ ok ann)
    ↔ Entitled plain (some header) 1_000 logged_in ann
authenticate-Entitled_example =
    authenticate-Entitled plain (some header) 1_000 logged_in ann (single-Keyed _ _)
      (single-Keyed _ _)
