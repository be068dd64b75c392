-- ===== src/Users/Credentials.antt =====
-- src/agentlen/domain/services/credentials.py: what an e-mail address and a password must be.
use Prim.Native.String.{[], ◌∷◌}
use agent_len.Base.{
  ℕ, ◌+◌, code, String, Bool, true, false, not, ◌&&◌, ◌||◌, Option, none, some, leb, ltb, ◌==◌,
  nat_eq, if◌then◌else◌,
}
use agent_len.JsonPath.{text_length}
use agent_len.Python.{Python}

-- `\s` of Python's `re`, on text.
abbrev is_space : ℕ → Bool
is_space c =
    (leb 9 c && leb c 13)
    || (leb 28 c && leb c 32)
    || c == 133
    || c == 160
    || c == 5760
    || (leb 8192 c && leb c 8202)
    || c == 8232
    || c == 8233
    || c == 8239
    || c == 8287
    || c == 12288

-- `[^@\s.]+(?:\.[^@\s.]+)+` to the end: whether the label at hand has begun, and a dot was seen.
unfoldable pub match_domain : Bool → Bool → String → Bool
match_domain begun dotted [] = begun && dotted
match_domain begun dotted (c ∷ s) =
    let inside = match_domain true dotted s in
    let next = match_domain false true s in
    if code c == b'.'
    then begun && next
    else not (code c == b'@') && not (is_space (code c)) && inside

-- `_EMAIL_PATTERN.fullmatch`
unfoldable pub match_email : Bool → String → Bool
match_email begun [] = false
match_email begun (c ∷ s) =
    let rest = match_email true s in
    if code c == b'@' then begun && match_domain false false s else not (is_space (code c)) && rest

abbrev pub max_email_length : ℕ
max_email_length = 254

-- `none` is an `InvalidEmailError`.
unfoldable pub normalize_email : Python → String → Option String
unfolding match_email match_domain
normalize_email py email =
    let normalized = py.lower (py.strip email) in
    if ltb max_email_length (text_length email)
    then none
    else if match_email false normalized
    then some normalized
    else none

-- `len(s.encode("utf-8"))`
abbrev pub utf8_length : String → ℕ
utf8_length [] = 0
utf8_length (c ∷ s) =
    (if ltb (code c) 128
      then 1
      else if ltb (code c) 2_048
      then 2
      else if ltb (code c) 65_536
      then 3
      else 4)
    + utf8_length s

-- `validate_password_strength`
abbrev pub is_strong : String → Bool
is_strong password = leb 8 (text_length password) && leb (utf8_length password) 72
