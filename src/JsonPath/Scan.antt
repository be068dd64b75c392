-- ===== src/JsonPath/Scan.antt =====
-- How the scanner of src/agentlen/domain/services/json_path.py reads what the profiler writes:
-- identifiers, and names quoted and escaped.
use Prim.Native.String.{[], ◌∷◌}
use text.Mathlib.TextLemmas.{cons-append, nil-append}
use text.Mathlib.TextEquality.{Char-path}
use agent_len.Base.{ℕ, ◌+◌, Char, code, String, ◌<>◌, ◌≡◌, refl, Bool, true, false}
use agent_len.Base.{inl, inr, ◌&&◌, ok, arith, ◌==◌, nat_eq, nat_eq_iff, Bool-cases, if◌then◌else◌}
use agent_len.JsonPath.{ident_start, ident_part, span_ident, text_length, prepend, read_quoted}
use agent_len.JsonPath.Print.{escape}

abbrev pub all_part : String → Bool
all_part [] = true
all_part (c ∷ s) = ident_part c && all_part s

-- A plain identifier, as `_IDENTIFIER` matches it.
abbrev pub is_identifier : String → Bool
is_identifier [] = false
is_identifier (c ∷ s) = ident_start c && all_part s

abbrev pub starts_part : String → Bool
starts_part [] = false
starts_part (c ∷ s) = ident_part c

span_ident-stops : (rest : String) → starts_part rest ≡ false → span_ident rest ≡ ([], rest, 0)
unfolding span_ident
span_ident-stops [] h = refl
span_ident-stops (c ∷ rest) h = rw h

pub span_ident-append :
    (name rest : String)
    → all_part name ≡ true
    → starts_part rest ≡ false
    → span_ident (name <> rest) ≡ (name, rest, text_length name)
unfolding span_ident
span_ident-append [] rest h stop = rw nil-append (span_ident-stops rest stop)
span_ident-append (c ∷ name) rest h stop =
    rw cons-append (ground (arith, span_ident-append name rest (ground arith) stop))

-- The escaped name with its closing `"]`, one character after another.
abbrev quoted : String → String → String
quoted [] rest = "\"" ∷ "]" ∷ rest
quoted (c ∷ s) rest =
    let more = quoted s rest in
    if code c == 92
    then "\\" ∷ "\\" ∷ more
    else if code c == b'"'
    then "\\" ∷ "\"" ∷ more
    else c ∷ more

escape-quoted : (name rest : String) → escape name <> ("\"" ∷ "]" ∷ rest) ≡ quoted name rest
unfolding escape
escape-quoted [] rest = nil-append _
escape-quoted (c ∷ name) rest = elim (Bool-cases (code c == 92)) [
  | inl e ↦ rw e (rw (cons-append, cons-append, escape-quoted name rest))
  | inr e ↦ rw e (elim (Bool-cases (code c == b'"')) [
    | inl q ↦ rw q (rw (cons-append, cons-append, escape-quoted name rest))
    | inr q ↦ rw q (rw (cons-append, escape-quoted name rest))
  ])
]

quoted-cons : (name rest : String) → (d : Char) × (t : String) × (quoted name rest ≡ d ∷ t)
quoted-cons [] rest = ("\"", "]" ∷ rest, refl)
quoted-cons (c ∷ name) rest = elim (Bool-cases (code c == 92)) [
  | inl e ↦ ("\\", "\\" ∷ quoted name rest, rw e)
  | inr e ↦ elim (Bool-cases (code c == b'"')) [
    | inl q ↦ ("\\", "\"" ∷ quoted name rest, rw (e, q))
    | inr q ↦ (c, quoted name rest, rw (e, q))
  ]
]

abbrev pub next : String → ℕ → ℕ
next [] p = p + 2
next (c ∷ s) p = next s (if code c == 92 then p + 2 else if code c == b'"' then p + 2 else p + 1)

read_plain :
    (c : Char) (t : String) (p : ℕ) (d : Char) (s : String)
    → t ≡ d ∷ s
    → (code c == 92) ≡ false
    → (code c == b'"') ≡ false
    → read_quoted (c ∷ t) p ≡ prepend c (read_quoted t (p + 1))
unfolding read_quoted
read_plain c t p d s e h q = rw e (rw (h, q))

same_char : (c d : Char) → (code c == code d) ≡ true → c ≡ d
same_char c d h = Char-path c d ((nat_eq_iff _ _).0 h)

read-quoted :
    (name rest : String) (p : ℕ) → read_quoted (quoted name rest) p ≡ ok (name, rest, next name p)
unfolding read_quoted
read-quoted [] rest p = refl
read-quoted (c ∷ name) rest p =
    let (d, t, shape) = quoted-cons name rest in
    elim (Bool-cases (code c == 92)) [
      | inl e ↦ rw e (rw (read-quoted name rest (p + 2)) (rw (same_char c "\\" e)))
      | inr e ↦ rw e (elim (Bool-cases (code c == b'"')) [
        | inl q ↦ rw q (rw (read-quoted name rest (p + 2)) (rw (same_char c "\"" q)))
        | inr q ↦ rw q (
            rw (read_plain c (quoted name rest) p d t shape e q)
              (rw (read-quoted name rest (p + 1))))
      ])
    ]

-- A name escaped and closed by `"]` is read back whole, and the reader stops behind it.
pub read_quoted-escape :
    (name rest : String) (p : ℕ)
    → read_quoted (escape name <> ("\"" ∷ "]" ∷ rest)) p ≡ ok (name, rest, next name p)
read_quoted-escape name rest p = rw escape-quoted (read-quoted name rest p)
