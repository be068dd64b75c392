-- ===== src/JsonPath/Print.antt =====
-- src/agentlen/infrastructure/files/polars_profiler.py: how the profiler writes a path, which
-- `_leaf_columns` and `_flatten_series` build up from `$` by one segment at a time.
use Prim.Native.String.{[], ◌∷◌}
use agent_len.Base.{code, String, ◌<>◌, Bool, true, false, ◌&&◌, ◌||◌, List}
use agent_len.Base.{◌==◌, nat_eq, if◌then◌else◌}
use agent_len.JsonPath.{Segment, key, each, JsonPath, ident_start, ident_part}

-- `[A-Za-z0-9_]*$`: in Python `$` matches at the end and before a newline that ends the text.
unfoldable pub safe_rest : String → Bool
safe_rest [] = true
safe_rest (c ∷ []) = ident_part c || code c == 10
safe_rest (c ∷ d ∷ s) = ident_part c && safe_rest (d ∷ s)

-- `_SAFE_UNQUOTED_NAME.match(name)`
unfoldable pub safe_unquoted : String → Bool
unfolding safe_rest
safe_unquoted [] = false
safe_unquoted (c ∷ s) = ident_start c && safe_rest s

-- `name.replace("\\", "\\\\").replace('"', '\\"')`
unfoldable pub escape : String → String
escape [] = []
escape (c ∷ s) =
    let rest = escape s in
    if code c == 92
    then "\\" ∷ "\\" ∷ rest
    else if code c == b'"'
    then "\\" ∷ "\"" ∷ rest
    else c ∷ rest

unfoldable pub path_segment : String → String
unfolding safe_unquoted escape
path_segment name =
    if safe_unquoted name then "." ∷ name else "[" ∷ "\"" ∷ (escape name <> ("\"" ∷ "]" ∷ []))

abbrev pub segment_text : Segment → String
segment_text (key name) = path_segment name
segment_text each = "[" ∷ "]" ∷ []

abbrev pub segments_text : JsonPath → String
segments_text List.[] = []
segments_text (List.◌∷◌ s path) = segment_text s <> segments_text path

unfoldable pub path_text : JsonPath → String
unfolding path_segment
path_text path = "$" ∷ segments_text path
