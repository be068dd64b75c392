-- ===== src/JsonPath/Total.antt =====
-- The loops of src/agentlen/domain/services/json_path.py end: the fuel of the model is enough for
-- every text.
use Prim.Native.String.{[], ◌∷◌}
use agent_len.Base.{ℕ, zero, suc, ◌+◌, ◌≤◌, Char, String, ◌≡◌, ◌≢◌, ◌∙◌, ap}
use agent_len.Base.{List, Result, ok, err, ◌>>=◌, arith, nat_eq}
use agent_len.JsonPath.{Segment, JsonPath, PathError, Reason, loops, text_length}
use agent_len.JsonPath.{blame, span_ident, read_quoted, bracketed, why, next_segment, parse_from}
use agent_len.JsonPath.{parse_rooted, parse_path}

-- What is left to read is shorter, and the answer is not `loops`.
abbrev Shrinks : {A : Type 0} → ℕ → Result Reason (A × String × ℕ) → Type 0
Shrinks n (ok (a, rest, p)) = text_length rest ≤ n
Shrinks n (err e) = e ≢ loops

span_ident-shrinks : (s : String) → text_length (span_ident s).1 ≤ text_length s
unfolding span_ident
span_ident-shrinks [] = omega arith
span_ident-shrinks (c ∷ s) = ground (arith, span_ident-shrinks s)

why-ne-loops : (c : Char) (s : String) (p : ℕ) → why c s p ≢ loops
unfolding why
why-ne-loops c [] p = ground arith
why-ne-loops c (d ∷ s) p = ground arith

read_quoted-Shrinks : (s : String) (p : ℕ) → Shrinks (text_length s) (read_quoted s p)
unfolding read_quoted
read_quoted-Shrinks [] p = ground arith
read_quoted-Shrinks (c ∷ []) p = ground arith
read_quoted-Shrinks (c ∷ d ∷ s) p =
    ground (arith, read_quoted-Shrinks (d ∷ s) (p + 1), read_quoted-Shrinks s (p + 2))

bracketed-Shrinks : (c : Char) (s : String) (p : ℕ) → Shrinks (text_length s) (bracketed c s p)
unfolding bracketed
bracketed-Shrinks c [] p = why-ne-loops c [] p
bracketed-Shrinks c (d ∷ s) p =
    ground (arith, read_quoted-Shrinks s (p + 2), why-ne-loops c (d ∷ s) p)

next_segment-Shrinks :
    (c : Char) (s : String) (p : ℕ) → Shrinks (text_length s) (next_segment c s p)
unfolding next_segment
next_segment-Shrinks c s p =
    ground (arith, span_ident-shrinks s, bracketed-Shrinks c s p, why-ne-loops c s p)

cons-ne-loops :
    (s : Segment) (r : Result Reason JsonPath)
    → r ≢ err loops
    → (do segments ← r; ok (List.◌∷◌ s segments)) ≢ err loops
cons-ne-loops s (ok path) h = ground arith
cons-ne-loops s (err e) h = λ p. h (cc)

round-ne-loops :
    (r : Result Reason (Segment × String × ℕ)) (more : String → ℕ → Result Reason JsonPath) (n : ℕ)
    → Shrinks n r
    → ((rest : String) (q : ℕ) → text_length rest ≤ n → more rest q ≢ err loops)
    → (do (segment, rest, q) ← r; segments ← more rest q; ok (List.◌∷◌ segment segments))
      ≢ err loops
round-ne-loops (ok (segment, rest, q)) more n h k = cons-ne-loops segment (more rest q) (k rest q h)
round-ne-loops (err e) more n h k = λ p. h (cc)

parse_from-ne-loops :
    (f : ℕ) (s : String) (p : ℕ) → text_length s ≤ f → parse_from f s p ≢ err loops
unfolding parse_from
parse_from-ne-loops f [] p h = ground arith
parse_from-ne-loops zero (c ∷ s) p h = elim h [ ]
parse_from-ne-loops (suc f) (c ∷ s) p h =
    round-ne-loops (next_segment c s p) (parse_from f) (text_length s) (next_segment-Shrinks c s p)
      (λ rest q le. parse_from-ne-loops f rest q (omega arith))

blame-eq-err :
    {A : Type 0} (path : String) (r : Result Reason A) (e : PathError)
    → blame path r ≡ err e
    → r ≡ err e.reason
blame-eq-err path (ok a) e h = cc
blame-eq-err path (err why) e h = ground arith

parse_rooted-ne-loops : (s : String) → parse_rooted s ≢ err loops
unfolding parse_rooted
parse_rooted-ne-loops [] = ground arith
parse_rooted-ne-loops (c ∷ s) =
    ground (arith, parse_from-ne-loops (text_length s) s 1 (omega arith))

-- The parser stops on every text, with segments or with one of the reasons that it gives: the
-- number of characters is enough fuel for its loop.
pub parse_path-ne-loops :
    (path : String) (e : PathError) → parse_path path ≡ err e → e.reason ≢ loops
parse_path-ne-loops path e h reason =
    parse_rooted-ne-loops path (blame-eq-err path (parse_rooted path) e (parsed h) ∙ ap err reason)
  where
    parsed : parse_path path ≡ err e → blame path (parse_rooted path) ≡ err e
    parsed = unfold parse_path in λ q. q
