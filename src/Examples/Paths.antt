-- ===== src/Examples/Paths.antt =====
-- Paths, rows and sources of small documents.
use agent_len.Base.{◌<>◌, ◌≡◌, ◌≢◌, ◌↔◌, refl, some, [], ◌∷◌, ok, err, ◌+◌}
use agent_len.Json.{Value, str, arr, obj, nil, item, end, member}
use agent_len.JsonPath.{
  key, each, JsonPath, PathError, Reason, recursive_descent, unexpected, parse_path, text_length,
  ident_start, ident_part,
}
use agent_len.JsonPath.Resolve.{iterate_path, source_path, resolve_rows, has_each, ends_each}
use agent_len.JsonPath.Print.{path_text}
use agent_len.JsonPath.RoundTrip.{parse_path-path_text}
use agent_len.JsonPath.Newline.{newline, parse_path-newline}
use agent_len.JsonPath.Total.{parse_path-ne-loops}
use agent_len.JsonPath.Rows.{branches, Fits, resolve_rows-branches, resolve_rows-Fits}
use agent_len.JsonPath.Source.{source_path-prefix, iterate_path-append}

abbrev messages : JsonPath
messages = key "messages" ∷ each ∷ []

abbrev quoted : JsonPath
quoted = key "tool \"name\"" ∷ key "back\\slash" ∷ []

parse_path-path_text_example : parse_path (path_text quoted) ≡ ok quoted
parse_path-path_text_example = parse_path-path_text quoted (refl, (refl, tt))

parse_path-newline_example :
    parse_path (path_text (key ("id" <> newline) ∷ messages))
    ≡ err (record {
      path = path_text (key ("id" <> newline) ∷ messages);
      reason = unexpected "\n" (1 + 1 + text_length "id");
    })
parse_path-newline_example =
    parse_path-newline "id" messages (unfold ident_start ident_part in refl)

abbrev descent : PathError
descent = record { path = "$.a..b"; reason = recursive_descent }

parse_path-ne-loops_example : descent.reason ≢ Reason.loops
parse_path-ne-loops_example =
    parse_path-ne-loops "$.a..b" descent (unfold parse_path ident_start ident_part in refl)

abbrev document : Value
document = obj (
    member "messages"
      (arr (item (obj (member "text" (str "hello") end)) (item (str "no object") nil))) end)

abbrev texts : JsonPath
texts = key "messages" ∷ each ∷ key "text" ∷ []

resolve_rows-branches_example : (resolve_rows document texts).0 ≡ branches texts document
resolve_rows-branches_example = resolve_rows-branches document texts

resolve_rows-Fits_example : ((resolve_rows document texts).1 ≡ []) ↔ Fits texts document
resolve_rows-Fits_example = resolve_rows-Fits document texts

source_path-prefix_example :
    source_path "$[\"messages\"][].text" (some messages) ≡ ok (key "text" ∷ [])
source_path-prefix_example =
    source_path-prefix "$[\"messages\"][].text" messages (key "text" ∷ [])
      (unfold parse_path ident_start ident_part in refl) (unfold has_each in refl)

iterate_path-append_example : iterate_path "$[\"items\"]" ≡ iterate_path "$.items[]"
iterate_path-append_example =
    iterate_path-append "$[\"items\"]" "$.items[]" (key "items" ∷ [])
      (unfold parse_path ident_start ident_part in refl)
      (unfold parse_path ident_start ident_part in refl) (unfold ends_each in refl)
