-- ===== src/JsonPath/Source.antt =====
-- `source_path` and `iterate_path` of src/agentlen/domain/services/json_path.py: a field's path
-- relative to the rows of its entity.
use Prim.Native.String.{String}
use agent_len.Base.{◌≡◌, refl, ap, true, false, Option, some}
use agent_len.Base.{[], ◌∷◌, ◌++◌, ok, arith, length, take, drop}
use agent_len.Base.{string_eq, eq_iff}
use agent_len.Json.{Value}
use agent_len.JsonPath.{Segment, key, each, JsonPath, parse_path}
use agent_len.JsonPath.Resolve.{segment_eq, path_eq, strip_prefix, has_each, source_path}
use agent_len.JsonPath.Resolve.{ends_each, with_each, iterate_path, resolve, child}

segment_eq_refl : (s : Segment) → segment_eq s s ≡ true
segment_eq_refl (key n) = (eq_iff n n).1 refl
segment_eq_refl each = refl

path_eq_refl : (p : JsonPath) → path_eq p p ≡ true
path_eq_refl [] = refl
path_eq_refl (s ∷ p) = rw (segment_eq_refl s, path_eq_refl p)

take-append : (p q : JsonPath) → take (length p) (p ++ q) ≡ p
take-append [] q = refl
take-append (s ∷ p) q = ap (λ r. s ∷ r) (take-append p q)

drop-append : (p q : JsonPath) → drop (length p) (p ++ q) ≡ q
drop-append [] q = refl
drop-append (s ∷ p) q = drop-append p q

strip_prefix-append : (p q : JsonPath) → strip_prefix (some p) (p ++ q) ≡ q
unfolding strip_prefix
strip_prefix-append [] q = refl
strip_prefix-append (s ∷ p) q =
    rw (take-append p q) (rw (segment_eq_refl s, path_eq_refl p) (drop-append p q))

-- A source that repeats the path of the rows, however it spells it, names what is left, if that
-- has no `[]`.
pub source_path-prefix :
    (source : String) (prefix rest : JsonPath)
    → parse_path source ≡ ok (prefix ++ rest)
    → has_each rest ≡ false
    → source_path source (some prefix) ≡ ok rest
unfolding source_path
source_path-prefix source prefix rest parsed flat =
    rw parsed (rw (strip_prefix-append prefix rest) (rw flat))

-- What is accepted as a field's source has no `[]` left.
source_path-flat :
    (path : String) (iterate : Option JsonPath) {segments : JsonPath}
    → source_path path iterate ≡ ok segments
    → has_each segments ≡ false
unfolding source_path
source_path-flat path iterate h = ground arith

resolve-append :
    (v : Value) (p q : JsonPath) → has_each p ≡ false → resolve v (p ++ q) ≡ resolve (resolve v p) q
unfolding resolve has_each
resolve-append v [] q h = refl
resolve-append v (each ∷ p) q h = cc
resolve-append v (key n ∷ p) q h = resolve-append (child n v) p q h

ends_each-append : (p : JsonPath) → ends_each (p ++ each ∷ []) ≡ true
unfolding ends_each
ends_each-append [] = refl
ends_each-append (key n ∷ []) = refl
ends_each-append (each ∷ []) = refl
ends_each-append (s ∷ t ∷ p) = ends_each-append (t ∷ p)

with_each-append : (p : JsonPath) → ends_each p ≡ false → with_each p ≡ with_each (p ++ each ∷ [])
unfolding with_each
with_each-append p h = rw (h, ends_each-append p)

-- An `iterate` path that does not end in `[]` is read as the same path with a `[]` at its end,
-- however the two are spelled.
pub iterate_path-append :
    (first second : String) (p : JsonPath)
    → parse_path first ≡ ok p
    → parse_path second ≡ ok (p ++ each ∷ [])
    → ends_each p ≡ false
    → iterate_path first ≡ iterate_path second
unfolding iterate_path
iterate_path-append first second p opens closes open_end =
    rw (opens, closes) (ap ok (with_each-append p open_end))
