-- ===== src/JsonPath.antt =====
-- src/agentlen/domain/services/json_path.py: the path notation, parsed and resolved.
-- Texts are walked by characters; `position` counts them, as in the source.
pub mod Resolve
pub mod Print
mod Scan
pub mod RoundTrip
pub mod Newline
pub mod Total
pub mod Rows
pub mod Source
use Prim.Native.String.{[], ◌∷◌}
use agent_len.Base.{ℕ, zero, suc, ◌+◌, Char, code, String, Bool, false, ◌&&◌, ◌||◌}
use agent_len.Base.{
  is_decimal, List, Result, ok, err, ◌>>=◌, catch, leb, ◌==◌, nat_eq, if◌then◌else◌,
}

pub data Segment : Type 0 where
  key : String → Segment
  each : Segment

abbrev pub JsonPath : Type 0
JsonPath = List Segment

-- Why a path is refused, one constructor for each message of the source. `loops` stands for a run
-- out of fuel, and is never the answer.
pub data Reason : Type 0 where
  not_rooted recursive_descent filter_expression wildcard single_quoted index_or_slice : Reason
  trailing_dot : Reason
  unexpected : Char → ℕ → Reason
  not_closed bad_escape unterminated : Reason
  each_in_source : Reason
  loops : Reason

-- `UnsupportedPathError` as the parser raises it.
pub record PathError : Type 0 where
  pub path : String
  pub reason : Reason

abbrev is_letter : ℕ → Bool
is_letter c = (leb b'A' c && leb c b'Z') || (leb b'a' c && leb c b'z') || c == b'_'

abbrev is_digit : ℕ → Bool
is_digit c = leb b'0' c && leb c b'9'

-- The character classes of `_IDENTIFIER`.
unfoldable pub ident_start : Char → Bool
ident_start c = is_letter (code c)

unfoldable pub ident_part : Char → Bool
ident_part c = is_letter (code c) || is_digit (code c)

-- The longest run of identifier characters, what follows it, and its length.
unfoldable pub span_ident : String → String × String × ℕ
span_ident [] = ([], [], 0)
span_ident (c ∷ s) =
    let r = span_ident s in if ident_part c then (c ∷ r.0, r.1, suc r.2) else ([], c ∷ s, 0)

unfoldable pub starts_ident : String → Bool
starts_ident [] = false
starts_ident (c ∷ s) = ident_start c

abbrev pub text_length : String → ℕ
text_length [] = 0
text_length (c ∷ s) = suc (text_length s)

abbrev pub Read : Type 0
Read = Result Reason (String × String × ℕ)

abbrev pub prepend : Char → Read → Read
prepend c r = do (name, rest, position) ← r; ok (c ∷ name, rest, position)

-- `_read_quoted`: the name, the text after `"]` and its position.
unfoldable pub read_quoted : String → ℕ → Read
read_quoted [] position = err unterminated
read_quoted (c ∷ []) position =
    if code c == b'"'
    then err not_closed
    else if code c == 92
    then err bad_escape
    else err unterminated
read_quoted (c ∷ d ∷ s) position =
    let plain = read_quoted (d ∷ s) (position + 1) in
    let escaped = read_quoted s (position + 2) in
    if code c == b'"'
    then (if code d == b']' then ok ([], s, position + 2) else err not_closed)
    else if code c == 92
    then (if code d == 92 || code d == b'"' then prepend d escaped else err bad_escape)
    else prepend c plain

-- `_why`, from the character where the parse stops and the two-character starts that it knows.
unfoldable pub why : Char → String → ℕ → Reason
why c [] position = if code c == b'.' then trailing_dot else unexpected c position
why c (d ∷ s) position =
    let dot = code c == b'.' in
    let bracket = code c == b'[' in
    if dot && code d == b'.'
    then recursive_descent
    else if bracket && code d == b'?'
    then filter_expression
    else if bracket && code d == b'*'
    then wildcard
    else if dot && code d == b'*'
    then wildcard
    else if bracket && code d == 39
    then single_quoted
    else if bracket && (code d == b'-' || code d == b':' || is_decimal (code d))
    then index_or_slice
    else unexpected c position

abbrev pub as_key : Read → Result Reason (Segment × String × ℕ)
as_key r = do (name, rest, position) ← r; ok (key name, rest, position)

-- What follows `[`: an element, a quoted name, or something else.
unfoldable pub bracketed : Char → String → ℕ → Result Reason (Segment × String × ℕ)
bracketed c [] position = err (why c [] position)
bracketed c (d ∷ s) position =
    if code d == b']'
    then ok (each, s, position + 2)
    else if code d == b'"'
    then as_key (read_quoted s (position + 2))
    else err (why c (d ∷ s) position)

-- One round of the loop of `parse_path`: a segment, the text after it and its position.
unfoldable pub next_segment : Char → String → ℕ → Result Reason (Segment × String × ℕ)
next_segment c s position =
    if code c == b'.' && starts_ident s
    then (let r = span_ident s in ok (key r.0, r.1, position + 1 + r.2))
    else if code c == b'['
    then bracketed c s position
    else err (why c s position)

unfoldable pub parse_from : ℕ → String → ℕ → Result Reason JsonPath
parse_from fuel [] position = ok List.[]
parse_from zero (c ∷ s) position = err loops
parse_from (suc fuel) (c ∷ s) position = do
  (segment, rest, next) ← next_segment c s position
  segments ← parse_from fuel rest next
  ok (List.◌∷◌ segment segments)

abbrev pub blame : {A : Type 0} → String → Result Reason A → Result PathError A
blame path r = catch r (λ why. err (record { path = path; reason = why }))

-- `path.startswith("$")`, then the loop from position 1.
unfoldable pub parse_rooted : String → Result Reason JsonPath
parse_rooted [] = err not_rooted
parse_rooted (c ∷ s) = if code c == b'$' then parse_from (text_length s) s 1 else err not_rooted

unfoldable pub parse_path : String → Result PathError JsonPath
unfolding parse_rooted parse_from next_segment bracketed read_quoted why is_decimal span_ident
    starts_ident
parse_path path = blame path (parse_rooted path)
