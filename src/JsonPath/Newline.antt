-- ===== src/JsonPath/Newline.antt =====
-- A field whose name ends in a newline: what src/agentlen/infrastructure/files/polars_profiler.py
-- writes for it is no path of src/agentlen/domain/services/json_path.py.
use Prim.Native.String.{[], ◌∷◌}
use text.Mathlib.TextLemmas.{cons-append, nil-append, append_assoc}
use agent_len.Base.{ℕ, suc, ◌+◌, String, ◌<>◌, ◌≡◌, refl, ap, true, List}
use agent_len.Base.{err, arith, nat_eq}
use agent_len.JsonPath.{key, JsonPath, unexpected, ident_part, why}
use agent_len.JsonPath.{blame, next_segment, parse_from, parse_path, text_length}
use agent_len.JsonPath.Print.{safe_unquoted, safe_rest, path_segment, segments_text, path_text}
use agent_len.JsonPath.Scan.{all_part, is_identifier}
use agent_len.JsonPath.RoundTrip.{plain_segment, text_length-append}

abbrev pub newline : String
newline = "\n"

safe_rest-newline : (s : String) → all_part s ≡ true → safe_rest (s <> newline) ≡ true
unfolding safe_rest
safe_rest-newline [] h = ground arith
safe_rest-newline (c ∷ []) h = rw cons-append (ground arith)
safe_rest-newline (c ∷ d ∷ s) h =
    rw (cons-append, cons-append)
      (ground (arith, rw cons-append at (safe_rest-newline (d ∷ s) (ground arith))))

safe_unquoted-newline :
    (name : String) → is_identifier name ≡ true → safe_unquoted (name <> newline) ≡ true
unfolding safe_unquoted
safe_unquoted-newline [] h = cc
safe_unquoted-newline (c ∷ s) h = rw cons-append (ground (arith, safe_rest-newline s))

parse_from-newline :
    (f : ℕ) (t : String) (p : ℕ) → parse_from (suc f) ("\n" ∷ t) p ≡ err (unexpected "\n" p)
unfolding parse_from next_segment why
parse_from-newline f [] p = refl
parse_from-newline f (d ∷ t) p = refl

parse_from-name_newline :
    (f g : ℕ) (name t : String)
    → g ≡ suc (suc f)
    → is_identifier name ≡ true
    → parse_from g ("." ∷ (name <> ("\n" ∷ t))) 1 ≡ err (unexpected "\n" (1 + 1 + text_length name))
unfolding parse_from
parse_from-name_newline f g name t e h =
    rw (e, plain_segment name ("\n" ∷ t) 1 h (unfold ident_part in refl))
      (rw (parse_from-newline f t (1 + 1 + text_length name)))

fuel_for :
    (name t : String)
    → text_length ("." ∷ (name <> ("\n" ∷ t))) ≡ suc (suc (text_length name + text_length t))
fuel_for name t = omega (arith, text_length-append name ("\n" ∷ t))

written_newline :
    (name t : String)
    → is_identifier name ≡ true
    → path_segment (name <> newline) <> t ≡ "." ∷ (name <> ("\n" ∷ t))
unfolding path_segment
written_newline name t h =
    rw (safe_unquoted-newline name h) (rw (cons-append, append_assoc, cons-append, nil-append))

parse_from-written :
    (name t : String)
    → is_identifier name ≡ true
    → let w = path_segment (name <> newline) <> t in
      parse_from (text_length w) w 1 ≡ err (unexpected "\n" (1 + 1 + text_length name))
parse_from-written name t h =
    rw (written_newline name t h) (parse_from-name_newline _ _ name t (fuel_for name t) h)

-- An identifier with a newline behind it passes for a plain identifier (`$` in the profiler's
-- pattern matches before a final newline), so it is written unquoted, and the parser refuses every
-- path that begins with such a name.
pub parse_path-newline :
    (name : String) (path : JsonPath)
    → is_identifier name ≡ true
    → let written = path_text (List.◌∷◌ (key (name <> newline)) path) in
      parse_path written
      ≡ err (record { path = written; reason = unexpected "\n" (1 + 1 + text_length name) })
unfolding parse_path path_text
parse_path-newline name path h =
    ap (blame (path_text (List.◌∷◌ (key (name <> newline)) path)))
      (parse_from-written name (segments_text path) h)
