-- ===== src/JsonPath/RoundTrip.antt =====
-- The parser of src/agentlen/domain/services/json_path.py against the paths that
-- src/agentlen/infrastructure/files/polars_profiler.py writes.
use Prim.Native.String.{[], ◌∷◌}
use text.Mathlib.TextLemmas.{cons-append, nil-append, append_assoc}
use agent_len.Base.{Char, Result, ℕ, zero, suc, ◌+◌, ◌≤◌, ◌<◌, code, String, ◌<>◌, ◌≡◌, refl, ap}
use agent_len.Base.{Bool, true, false, List, ok, ◌>>=◌, inl, inr}
use agent_len.Base.{arith, length, All, ◌==◌, nat_eq, Bool-cases, if◌then◌else◌}
use agent_len.JsonPath.{Segment, key, each, JsonPath, Reason, ident_start, ident_part}
use agent_len.JsonPath.{
  next_segment, text_length, parse_from, parse_path, bracketed, blame, starts_ident,
}
use agent_len.JsonPath.Print.{safe_unquoted, safe_rest, escape, path_segment}
use agent_len.JsonPath.Print.{segment_text, segments_text, path_text}
use agent_len.JsonPath.Scan.{all_part, is_identifier, starts_part, span_ident-append, next}
use agent_len.JsonPath.Scan.{read_quoted-escape}

abbrev pub ends_newline : String → Bool
ends_newline [] = false
ends_newline (c ∷ []) = code c == 10
ends_newline (c ∷ d ∷ s) = ends_newline (d ∷ s)

-- No name of the path ends in a newline.
abbrev pub Printable : Segment → Type 0
Printable each = Unit
Printable (key name) = ends_newline name ≡ false

safe_rest-all_part : (s : String) → safe_rest s ≡ true → ends_newline s ≡ false → all_part s ≡ true
unfolding safe_rest
safe_rest-all_part [] h n = refl
safe_rest-all_part (c ∷ []) h n = ground arith
safe_rest-all_part (c ∷ d ∷ s) h n = ground (arith, safe_rest-all_part (d ∷ s))

head_not_newline : (c : _) (s : String) → ends_newline (c ∷ s) ≡ false → ends_newline s ≡ false
head_not_newline c [] h = refl
head_not_newline c (d ∷ s) h = h

safe-is_identifier :
    (name : String)
    → safe_unquoted name ≡ true
    → ends_newline name ≡ false
    → is_identifier name ≡ true
unfolding safe_unquoted
safe-is_identifier [] h n = cc
safe-is_identifier (c ∷ s) h n = ground (arith, safe_rest-all_part s, head_not_newline c s n)

identifier_parts : (name : String) → is_identifier name ≡ true → all_part name ≡ true
unfolding ident_start ident_part
identifier_parts [] h = refl
identifier_parts (c ∷ s) h = ground arith

after : Segment → ℕ → ℕ
after each p = p + 2
after (key name) p = if safe_unquoted name then p + 1 + text_length name else next name (p + 2)

first_start : (c : Char) (s : String) → is_identifier (c ∷ s) ≡ true → ident_start c ≡ true
first_start c s h = ground arith

pub plain_segment :
    (name rest : String) (p : ℕ)
    → is_identifier name ≡ true
    → starts_part rest ≡ false
    → next_segment "." (name <> rest) p ≡ ok (key name, rest, p + 1 + text_length name)
unfolding next_segment starts_ident
plain_segment [] rest p h stop = cc
plain_segment (c ∷ name) rest p h stop =
    rw (span_ident-append (c ∷ name) rest (identifier_parts (c ∷ name) h) stop)
      (rw (cons-append, first_start c name h))

quoted_segment :
    (name rest : String) (p : ℕ)
    → next_segment "[" ("\"" ∷ (escape name <> ("\"" ∷ "]" ∷ rest))) p
      ≡ ok (key name, rest, next name (p + 2))
unfolding next_segment bracketed
quoted_segment name rest p = rw (read_quoted-escape name rest (p + 2))

abbrev follow : ℕ → Segment → String → ℕ → Result Reason JsonPath
follow f s rest p = do segments ← parse_from f rest (after s p); ok (List.◌∷◌ s segments)

key_round :
    (f : ℕ) (name rest : String) (p : ℕ)
    → ends_newline name ≡ false
    → starts_part rest ≡ false
    → parse_from (suc f) (path_segment name <> rest) p ≡ follow f (key name) rest p
unfolding parse_from path_segment after
key_round f name rest p h stop = elim (Bool-cases (safe_unquoted name)) [
  | inl e ↦ rw (e, cons-append) (rw (plain_segment name rest p (safe-is_identifier name e h) stop))
  | inr e ↦
      rw (e, cons-append)
        (rw cons-append (
          rw (append_assoc, cons-append, cons-append, nil-append)
            (rw (quoted_segment name rest p))))
]

round :
    (f : ℕ) (s : Segment) (rest : String) (p : ℕ)
    → Printable s
    → starts_part rest ≡ false
    → parse_from (suc f) (segment_text s <> rest) p ≡ follow f s rest p
round f (key name) rest p h stop = key_round f name rest p h stop
round f each rest p h stop =
    rw (cons-append, cons-append, nil-append)
      (unfold parse_from next_segment bracketed after in refl)

segment_stops : (s : Segment) (t : String) → starts_part (segment_text s <> t) ≡ false
unfolding path_segment ident_part
segment_stops each t = rw cons-append
segment_stops (key name) t = elim (Bool-cases (safe_unquoted name)) [
  | inl e ↦ rw (e, cons-append)
  | inr e ↦ rw (e, cons-append)
]

segments_stop : (path : JsonPath) → starts_part (segments_text path) ≡ false
segments_stop List.[] = refl
segments_stop (List.◌∷◌ s path) = segment_stops s (segments_text path)

parse_from-segments_text :
    (f : ℕ) (path : JsonPath) (p : ℕ)
    → All Printable path
    → length path ≤ f
    → parse_from f (segments_text path) p ≡ ok path
parse_from-segments_text f List.[] p h le = unfold parse_from in refl
parse_from-segments_text zero (List.◌∷◌ s path) p h le = elim le [ ]
parse_from-segments_text (suc f) (List.◌∷◌ s path) p h le =
    rw (round f s (segments_text path) p h.0 (segments_stop path))
      (rw (parse_from-segments_text f path (after s p) h.1 (omega arith)))

pub text_length-append : (s t : String) → text_length (s <> t) ≡ text_length s + text_length t
text_length-append [] t = rw nil-append (omega arith)
text_length-append (c ∷ s) t = rw cons-append (omega (arith, text_length-append s t))

segment_text_pos : (s : Segment) → 0 < text_length (segment_text s)
unfolding path_segment
segment_text_pos each = omega arith
segment_text_pos (key name) = elim (Bool-cases (safe_unquoted name)) [
  | inl e ↦ rw e (omega arith)
  | inr e ↦ rw e (omega arith)
]

length-le-text : (path : JsonPath) → length path ≤ text_length (segments_text path)
length-le-text List.[] = omega arith
length-le-text (List.◌∷◌ s path) = omega (
  arith,
  segment_text_pos s,
  length-le-text path,
  text_length-append (segment_text s) (segments_text path),
)

-- A path that the profiler writes for segments none of whose names ends in a newline is parsed
-- back to these segments: names that are no identifiers are quoted, and names with quotes or
-- backslashes are escaped, without loss.
pub parse_path-path_text :
    (path : JsonPath) → All Printable path → parse_path (path_text path) ≡ ok path
unfolding parse_path path_text
parse_path-path_text path h =
    ap (blame (path_text path))
      (parse_from-segments_text (text_length (segments_text path)) path 1 h (length-le-text path))
