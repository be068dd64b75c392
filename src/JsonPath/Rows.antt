-- ===== src/JsonPath/Rows.antt =====
-- `resolve_rows` of src/agentlen/domain/services/json_path.py, which goes through a document level
-- by level, against the plain reading of a path, which follows each branch to its end.
use agent_len.Base.{◌≡◌, sym, ◌≢◌, ◌↔◌, refl, ap, ◌∙◌, String, none, some, List, [], ◌∷◌, ◌++◌}
use agent_len.Base.{arith, All, All-append, All-left, All-right, All-zip, string_eq}
use mathlib.Core.List.{append-nil, append_assoc}
use agent_len.Base.{Option-cases, inl, inr}
use agent_len.Json.{Value, Items, Members, arr, obj}
use agent_len.JsonPath.{Segment, key, each, JsonPath}
use agent_len.JsonPath.Resolve.{reach, explanation, add_once, advance, walk_rows, resolve_rows}

abbrev gather : (Value → List Value) → List Value → List Value
gather f [] = []
gather f (v ∷ vs) = f v ++ gather f vs

abbrev pub children : Segment → Value → List Value
children s v = elim (reach s v) [ none ↦ [] | some found ↦ found ]

-- All that a path reaches from a value, branch by branch. A value of the wrong type has no branch.
unfoldable pub branches : JsonPath → Value → List Value
branches [] v = v ∷ []
branches (s ∷ path) v = gather (branches path) (children s v)

-- What a segment asks for: `[]` a list, a name an object.
abbrev pub Wanted : Segment → Value → Type 0
Wanted each v = (vs : Items) × (v ≡ arr vs)
Wanted (key name) v = (ms : Members) × (v ≡ obj ms)

-- Every value on the way has the type that its segment asks for.
abbrev pub Fits : JsonPath → Value → Type 0
Fits [] v = Unit
Fits (s ∷ path) v = Wanted s v × All (Fits path) (children s v)

gather-append :
    (f : Value → List Value) (xs ys : List Value) → gather f (xs ++ ys) ≡ gather f xs ++ gather f ys
gather-append f [] ys = refl
gather-append f (x ∷ xs) ys = rw (gather-append f xs ys) (rw append_assoc)

gather-gather :
    (f g : Value → List Value) (xs : List Value)
    → gather f (gather g xs) ≡ gather (λ v. gather f (g v)) xs
gather-gather f g [] = refl
gather-gather f g (x ∷ xs) = rw (gather-append f (g x) (gather g xs), gather-gather f g xs)

gather-single : (xs : List Value) → gather (λ v. v ∷ []) xs ≡ xs
gather-single [] = refl
gather-single (x ∷ xs) = rw (gather-single xs)

advance-found :
    (s : Segment) (vs : List Value) (wrong : List String)
    → (advance s vs wrong).0 ≡ gather (children s) vs
unfolding advance
advance-found s [] wrong = refl
advance-found s (v ∷ vs) wrong =
    ground (arith, advance-found s vs wrong, advance-found s vs (add_once wrong (explanation s v)))

walk_rows-found :
    (path : JsonPath) (vs : List Value) (wrong : List String)
    → (walk_rows vs path wrong).0 ≡ gather (branches path) vs
unfolding walk_rows branches
walk_rows-found [] vs wrong = sym (gather-single vs)
walk_rows-found (s ∷ path) vs wrong =
    walk_rows-found path (advance s vs wrong).0 (advance s vs wrong).1
    ∙ ap (gather (branches path)) (advance-found s vs wrong)
    ∙ gather-gather (branches path) (children s) vs

-- The rows are what the path reaches branch by branch, in the order of the document.
pub resolve_rows-branches :
    (document : Value) (path : JsonPath) → (resolve_rows document path).0 ≡ branches path document
unfolding resolve_rows
resolve_rows-branches document path =
    walk_rows-found path (document ∷ []) [] ∙ append-nil (branches path document)

add_once-ne-nil : (wrong : List String) (e : String) → add_once wrong e ≢ []
add_once-ne-nil [] e = ground arith
add_once-ne-nil (w ∷ wrong) e = ground arith

-- An explanation stays.
advance-wrong :
    (s : Segment) (vs : List Value) (wrong : List String) → (advance s vs wrong).1 ≡ [] → wrong ≡ []
unfolding advance
advance-wrong s [] wrong h = h
advance-wrong s (v ∷ vs) wrong h = ground (
  arith,
  advance-wrong s vs wrong,
  advance-wrong s vs (add_once wrong (explanation s v)),
  add_once-ne-nil wrong (explanation s v),
)

walk_rows-wrong :
    (path : JsonPath) (vs : List Value) (wrong : List String)
    → (walk_rows vs path wrong).1 ≡ []
    → wrong ≡ []
unfolding walk_rows
walk_rows-wrong [] vs wrong h = h
walk_rows-wrong (s ∷ path) vs wrong h =
    advance-wrong s vs wrong (walk_rows-wrong path (advance s vs wrong).0 (advance s vs wrong).1 h)

reach-Wanted : (s : Segment) (v : Value) {found : List Value} → reach s v ≡ some found → Wanted s v
unfolding reach
reach-Wanted each (arr vs) h = (vs, refl)
reach-Wanted (key name) (obj ms) h = (ms, refl)
reach-Wanted s v h = cc

Wanted-reach : (s : Segment) (v : Value) → Wanted s v → reach s v ≢ none
unfolding reach
Wanted-reach each v (vs, is) e = cc
Wanted-reach (key name) v (ms, is) e = cc

advance-Wanted : (s : Segment) (vs : List Value) → ((advance s vs []).1 ≡ []) ↔ All (Wanted s) vs
unfolding advance
advance-Wanted s [] = (λ h. tt, λ h. refl)
advance-Wanted s (v ∷ vs) = (
  λ h. elim (Option-cases (reach s v)) [
    | inl e ↦ ground (
      arith,
      e,
      advance-wrong s vs (add_once [] (explanation s v)),
      add_once-ne-nil [] (explanation s v),
    )
    | inr (found, e) ↦ (reach-Wanted s v e, (advance-Wanted s vs).0 (rw (e, advance) at h))
  ],
  λ h. ground (arith, Wanted-reach s v h.0, (advance-Wanted s vs).1 h.1),
)

All-gather :
    (P : Value → Type 0) (f : Value → List Value) (vs : List Value)
    → All P (gather f vs) ↔ All (λ v. All P (f v)) vs
All-gather P f [] = (λ h. tt, λ h. tt)
All-gather P f (v ∷ vs) = (
  λ h.
      (All-left P (f v) (gather f vs) h, (All-gather P f vs).0 (All-right P (f v) (gather f vs) h)),
  λ h. All-append P (f v) (gather f vs) h.0 ((All-gather P f vs).1 h.1),
)

All-unit : (vs : List Value) → All (λ v. Unit {0}) vs
All-unit [] = tt
All-unit (v ∷ vs) = (tt, All-unit vs)

walk_rows-Fits :
    (path : JsonPath) (vs : List Value) → ((walk_rows vs path []).1 ≡ []) ↔ All (Fits path) vs
unfolding walk_rows
walk_rows-Fits [] vs = (λ h. All-unit vs, λ h. refl)
walk_rows-Fits (s ∷ path) vs = (
  λ h.
      let clean = walk_rows-wrong path (advance s vs []).0 (advance s vs []).1 h in
      let rest : (walk_rows (advance s vs []).0 path (advance s vs []).1).1 ≡ [] = h in
      let deeper = (walk_rows-Fits path (advance s vs []).0).0 (rw clean at rest) in
      (All-zip (Wanted s) (λ v. All (Fits path) (children s v)) vs).1 (
        (advance-Wanted s vs).0 clean,
        (All-gather (Fits path) (children s) vs).0 (rw (advance-found s vs []) at deeper),
      ),
  λ h.
      let parts = (All-zip (Wanted s) (λ v. All (Fits path) (children s v)) vs).0 h in
      let clean = (advance-Wanted s vs).1 parts.0 in
      let rest : (walk_rows (advance s vs []).0 path (advance s vs []).1).1 ≡ [] =
        rw (clean, advance-found s vs [])
          ((walk_rows-Fits path (gather (children s) vs)).1
            ((All-gather (Fits path) (children s) vs).1 parts.1)) in
      rest,
)

-- No explanation is recorded exactly when every value on the way has the type that its segment
-- asks for: a list for `[]`, an object for a name. An absent or null member is no problem.
pub resolve_rows-Fits :
    (document : Value) (path : JsonPath)
    → ((resolve_rows document path).1 ≡ []) ↔ Fits path document
unfolding resolve_rows
resolve_rows-Fits document path = (
  λ h. ((walk_rows-Fits path (document ∷ [])).0 h).0,
  λ h. (walk_rows-Fits path (document ∷ [])).1 (h, tt),
)
