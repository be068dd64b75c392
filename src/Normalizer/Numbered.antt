-- ===== src/Normalizer/Numbered.antt =====
-- The numbers and the lines in src/agentlen/domain/services/record_normalizer.py: entities take the next
-- numbers of the supply in their order, and issues stand on the record's line.
use mathlib.Core.Path.{subst}
use mathlib.Core.List.{map-append}
use agent_len.Base.{ℕ, suc, ◌≤◌, String, ◌≡◌, refl, ap, sym, Bool, true, false}
use agent_len.Base.{Option, none, some, List, [], ◌∷◌, ◌++◌, map, ok, err, >>=-eq-ok}
use agent_len.Base.{ok-injective, arith, All-append, nat_eq}
use agent_len.Base.{inl, inr, Bool-cases, string_eq}
use agent_len.Base.Dict.{lookup}
use agent_len.Json.{Value, Object, or_null, is_null, str}
use agent_len.Mapping.{EntityMapping, Mapping, ImportIssue}
use agent_len.Python.{Python}
use agent_len.Engine.{Entry}
use agent_len.Engine.Operators.{Run, or_else}
use agent_len.Normalizer.{NormalizationResult, any_missing, parent_missing, tool_step, model_step}
use agent_len.Normalizer.{
  session_step, session_named, session_made, session_keyed, several, build_session,
}
use agent_len.Normalizer.{sessions_of, normalize, by_target, of_target, construction_issue}
use agent_len.Normalizer.Entities.{required}
use agent_len.Engine.{apply}
use agent_len.Normalizer.{Calls, no_calls, constructed, with_call, with_issues, indexed}
use agent_len.Normalizer.{add_tool_call, add_tool_calls, tool_named, tool_keyed, build_tool_calls}
use agent_len.Normalizer.{add_model_call, add_model_calls, model_named, model_keyed}
use agent_len.Normalizer.{build_model_calls, name_of, named, check_natural_key, reference_name}
use agent_len.Normalizer.Entities.{Session, ModelCall, ToolCall, ReferenceRequest, make_tool_call}
use agent_len.Normalizer.Entities.{
  make_model_call, make_session, valid_statuses, one_of, check_outcome,
}
use agent_len.Engine.Placed.{OnLine, apply-OnLine}
use agent_len.Normalizer.Tools.{constructed-some}

-- Numbers that rise within bounds.
abbrev pub Rising : ℕ → List ℕ → ℕ → Type 0
Rising low [] high = low ≤ high
Rising low (n ∷ ns) high = (low ≤ n) × Rising (suc n) ns high

pub Rising-append :
    (low middle high : ℕ) (ms ns : List ℕ)
    → Rising low ms middle
    → Rising middle ns high
    → Rising low (ms ++ ns) high
Rising-append low middle high [] [] h k = omega arith
Rising-append low middle high [] (n ∷ ns) h k = (omega (arith, k.0), k.1)
Rising-append low middle high (m ∷ ms) ns h k = (h.0, Rising-append (suc m) middle high ms ns h.1 k)

OnLine-four :
    (line : Option ℕ) (a b c d : List ImportIssue)
    → OnLine line a
    → OnLine line b
    → OnLine line c
    → OnLine line d
    → OnLine line (a ++ b ++ c ++ d)
OnLine-four line a b c d ha hb hc hd =
    let on = λ (i : ImportIssue). i.line_number ≡ line in
    All-append on (a ++ b ++ c) d (All-append on (a ++ b) c (All-append on a b ha hb) hc) hd

abbrev MaybeOnLine : Option ℕ → Option ImportIssue → Type 0
MaybeOnLine line none = Unit
MaybeOnLine line (some i) = i.line_number ≡ line

-- The calls built from a number on: their numbers rise up to the next, the issues are on the line.
record Numbered {A : Type 0} (id_of : A → ℕ) (low : ℕ) (line : Option ℕ) (c : Calls A)
    : Type 0 where
  pub rising : Rising low (map id_of c.calls) c.next_id
  pub placed : OnLine line c.issues

abbrev pub tool_id : ToolCall → ℕ
tool_id t = t.id

abbrev pub model_id : ModelCall → ℕ
model_id m = m.id

abbrev pub session_id : Session → ℕ
session_id x = x.id

-- A record's entities have rising numbers: the session, then the model calls, then the tool calls.
pub record Supplied (first last : ℕ) (r : NormalizationResult) : Type 0 where
  pub middle : ℕ
  pub sessions : Rising first (map session_id r.sessions) (suc first)
  pub models : Rising (suc first) (map model_id r.model_calls) middle
  pub tools : Rising middle (map tool_id r.tool_calls) last

module _ (py : Python) where
  issues-Numbered :
      {A : Type 0} (id_of : A → ℕ) (low : ℕ) (line : Option ℕ) (c : Calls A)
      (issues : List ImportIssue)
      → OnLine line issues
      → Numbered id_of low line c
      → Numbered id_of low line (with_issues py c issues)
  issues-Numbered id_of low line c issues on h = record {
    rising = h.rising;
    placed = All-append (λ i. i.line_number ≡ line) c.issues issues h.placed on;
  }

  call-Numbered :
      {A : Type 0} (id_of : A → ℕ) (low : ℕ) (line : Option ℕ) (c : Calls A)
      (references : List ReferenceRequest) (r : Run A) (made : Option A)
      → ((a : A) → r ≡ ok a → id_of a ≡ c.next_id)
      → constructed r ≡ ok made
      → Numbered id_of low line c
      → Numbered id_of low line (with_call py c references line made)
  call-Numbered id_of low line c references r none own e h =
      issues-Numbered id_of low line c _ (refl, tt) h
  call-Numbered id_of low line c references r (some a) own e h = record {
    rising =
        subst (λ l. Rising low l (suc c.next_id)) (sym (map-append id_of c.calls (a ∷ [])))
          (Rising-append low c.next_id (suc c.next_id) (map id_of c.calls) (id_of a ∷ []) h.rising (
            omega (arith, own a (constructed-some r a e)),
            omega (arith, own a (constructed-some r a e)),
          ));
    placed = h.placed;
  }

  make_tool_call-id :
      (id session : ℕ) (name : String) (content : Object) (t : ToolCall)
      → make_tool_call py id session name content ≡ ok t
      → t.id ≡ id
  unfolding make_tool_call
  make_tool_call-id id session name content t h =
      let (index, _, h1) = >>=-eq-ok (py.to_int (or_null (lookup "sequence_index" content))) _ h in
      let (_, valid, h2) =
        >>=-eq-ok (one_of valid_statuses (or_else (lookup "status" content) (str "unknown"))) _
          h1 in
      ap (λ t. t.id) (sym (ok-injective h2))

  make_model_call-id :
      (id session : ℕ) (name provider_name : Option String) (content : Object) (m : ModelCall)
      → make_model_call py id session name provider_name content ≡ ok m
      → m.id ≡ id
  unfolding make_model_call
  make_model_call-id id session name provider_name content m h =
      let (index, _, h1) = >>=-eq-ok (py.to_int (or_null (lookup "sequence_index" content))) _ h in
      let (_, valid, h2) =
        >>=-eq-ok (one_of valid_statuses (or_else (lookup "status" content) (str "unknown"))) _
          h1 in
      ap (λ t. t.id) (sym (ok-injective h2))

  named-line :
      (target field : String) (line : Option ℕ) (blank : Bool) (raw : Value)
      (r : Run (Option String))
      → MaybeOnLine line (named py target field line blank raw r).1
  named-line target field line blank raw (err e) = refl
  named-line target field line blank raw (ok (some name)) = tt
  named-line target field line blank raw (ok none) = elim (Bool-cases (is_null raw)) [
    | inl p ↦ rw p tt
    | inr p ↦ rw p (elim (Bool-cases blank) [ inl q ↦ rw q refl | inr q ↦ rw q tt ])
  ]

  name_of-line :
      (target field : String) (content : Object) (line : Option ℕ) (blank : Bool)
      → MaybeOnLine line (name_of py target field content line blank).1
  unfolding name_of
  name_of-line target field content line blank =
      named-line target field line blank _ (reference_name py _)

  check_natural_key-line :
      (entity : EntityMapping) (content : Object) (line : Option ℕ)
      → MaybeOnLine line (check_natural_key entity content line)
  unfolding check_natural_key
  check_natural_key-line entity content line =
      elim (Bool-cases (any_missing entity.natural_key content)) [
        | inl y ↦ rw (y, check_natural_key) refl
        | inr n ↦ rw (n, check_natural_key) tt
      ]

  tool_named-Numbered :
      (session : Session) (low : ℕ) (c : Calls ToolCall) (content : Object) (line : Option ℕ)
      (n : Option String × Option ImportIssue) {next : Calls ToolCall}
      → MaybeOnLine line n.1
      → Numbered tool_id low line c
      → tool_named py session content line n c ≡ ok next
      → Numbered tool_id low line next
  tool_named-Numbered session low c content line (name, some i) on h e =
      subst (Numbered tool_id low line) (ok-injective e)
        (issues-Numbered tool_id low line c (i ∷ []) (on, tt) h)
  tool_named-Numbered session low c content line (none, none) on h e =
      subst (Numbered tool_id low line) (ok-injective e)
        (issues-Numbered tool_id low line c _ (refl, tt) h)
  tool_named-Numbered session low c content line (some name, none) on h e =
      let (o, made, e1) =
        >>=-eq-ok (constructed (make_tool_call py c.next_id session.id name content)) _ e in
      subst (Numbered tool_id low line) (ok-injective e1) (
        call-Numbered tool_id low line c _ (make_tool_call py c.next_id session.id name content) o
          (make_tool_call-id c.next_id session.id name content) made h)

  tool_keyed-Numbered :
      (entity : EntityMapping) (session : Session) (low : ℕ) (c : Calls ToolCall) (content : Object)
      (line : Option ℕ) (key : Option ImportIssue) {next : Calls ToolCall}
      → MaybeOnLine line key
      → Numbered tool_id low line c
      → tool_keyed py entity session content line key c ≡ ok next
      → Numbered tool_id low line next
  tool_keyed-Numbered entity session low c content line (some i) on h e =
      subst (Numbered tool_id low line) (ok-injective e)
        (issues-Numbered tool_id low line c (i ∷ []) (on, tt) h)
  tool_keyed-Numbered entity session low c content line none on h e =
      tool_named-Numbered session low c content line _
        (name_of-line entity.target "tool_name" content line true) h e

  add_tool_calls-Numbered :
      (entity : EntityMapping) (session : Session) (line : Option ℕ) (es : List Entry) (low : ℕ)
      (c : Calls ToolCall) {done : Calls ToolCall}
      → Numbered tool_id low line c
      → add_tool_calls py entity session line es c ≡ ok done
      → Numbered tool_id low line done
  unfolding add_tool_calls add_tool_call
  add_tool_calls-Numbered entity session line [] low c h e =
      subst (Numbered tool_id low line) (ok-injective e) h
  add_tool_calls-Numbered entity session line (row ∷ es) low c h e =
      let (next, one, rest) = >>=-eq-ok (add_tool_call py entity session line row c) _ e in
      add_tool_calls-Numbered entity session line es low next
        (tool_keyed-Numbered entity session low c (indexed row) line _
          (check_natural_key-line entity (indexed row) line) h one)
        rest

  no_calls-Numbered :
      {A : Type 0} (id_of : A → ℕ) (low : ℕ) (line : Option ℕ) (es : List Entry)
      → Numbered id_of low line (no_calls (parent_missing line es) low)
  no_calls-Numbered id_of low line [] = record { rising = omega arith; placed = tt }
  no_calls-Numbered id_of low line (e ∷ es) = record { rising = omega arith; placed = (refl, tt) }

  tool_step-Numbered :
      (entity : Option EntityMapping) (es : List Entry) (session : Option Session) (next : ℕ)
      (line : Option ℕ) {done : Calls ToolCall}
      → tool_step py entity es session next line ≡ ok done
      → Numbered tool_id next line done
  unfolding build_tool_calls
  tool_step-Numbered none es session next line e =
      subst (Numbered tool_id next line) (ok-injective e) (no_calls-Numbered tool_id next line [])
  tool_step-Numbered (some entity) es none next line e =
      subst (Numbered tool_id next line) (ok-injective e) (no_calls-Numbered tool_id next line es)
  tool_step-Numbered (some entity) es (some session) next line e =
      add_tool_calls-Numbered entity session line es next (no_calls [] next)
        (no_calls-Numbered tool_id next line []) e

  model_named-Numbered :
      (session : Session) (low : ℕ) (c : Calls ModelCall) (content : Object) (line : Option ℕ)
      (n p : Option String × Option ImportIssue) {next : Calls ModelCall}
      → MaybeOnLine line n.1
      → MaybeOnLine line p.1
      → Numbered model_id low line c
      → model_named py session content line n p c ≡ ok next
      → Numbered model_id low line next
  model_named-Numbered session low c content line (name, none) (provider_name, none) on also h e =
      let (o, made, e1) =
        >>=-eq-ok (constructed (make_model_call py c.next_id session.id name provider_name content))
          _ e in
      subst (Numbered model_id low line) (ok-injective e1) (
        call-Numbered model_id low line c _
          (make_model_call py c.next_id session.id name provider_name content) o
          (make_model_call-id c.next_id session.id name provider_name content) made h)
  model_named-Numbered session low c content line (name, some i) (provider_name, none) on also h e =
      subst (Numbered model_id low line) (ok-injective e)
        (issues-Numbered model_id low line c _ (on, tt) h)
  model_named-Numbered session low c content line (name, none) (provider_name, some j) on also h e =
      subst (Numbered model_id low line) (ok-injective e)
        (issues-Numbered model_id low line c _ (also, tt) h)
  model_named-Numbered session low c content line (name, some i) (provider_name, some j) on also h
        e =
      subst (Numbered model_id low line) (ok-injective e)
        (issues-Numbered model_id low line c _ (on, (also, tt)) h)

  model_keyed-Numbered :
      (entity : EntityMapping) (session : Session) (low : ℕ) (c : Calls ModelCall)
      (content : Object) (line : Option ℕ) (key : Option ImportIssue) {next : Calls ModelCall}
      → MaybeOnLine line key
      → Numbered model_id low line c
      → model_keyed py entity session content line key c ≡ ok next
      → Numbered model_id low line next
  model_keyed-Numbered entity session low c content line (some i) on h e =
      subst (Numbered model_id low line) (ok-injective e)
        (issues-Numbered model_id low line c (i ∷ []) (on, tt) h)
  model_keyed-Numbered entity session low c content line none on h e =
      model_named-Numbered session low c content line _ _
        (name_of-line entity.target "model_name" content line false)
        (name_of-line entity.target "provider_name" content line false) h e

  add_model_calls-Numbered :
      (entity : EntityMapping) (session : Session) (line : Option ℕ) (es : List Entry) (low : ℕ)
      (c : Calls ModelCall) {done : Calls ModelCall}
      → Numbered model_id low line c
      → add_model_calls py entity session line es c ≡ ok done
      → Numbered model_id low line done
  unfolding add_model_calls add_model_call
  add_model_calls-Numbered entity session line [] low c h e =
      subst (Numbered model_id low line) (ok-injective e) h
  add_model_calls-Numbered entity session line (row ∷ es) low c h e =
      let (next, one, rest) = >>=-eq-ok (add_model_call py entity session line row c) _ e in
      add_model_calls-Numbered entity session line es low next
        (model_keyed-Numbered entity session low c (indexed row) line _
          (check_natural_key-line entity (indexed row) line) h one)
        rest

  model_step-Numbered :
      (entity : Option EntityMapping) (es : List Entry) (session : Option Session) (next : ℕ)
      (line : Option ℕ) {done : Calls ModelCall}
      → model_step py entity es session next line ≡ ok done
      → Numbered model_id next line done
  unfolding build_model_calls
  model_step-Numbered none es session next line e =
      subst (Numbered model_id next line) (ok-injective e) (no_calls-Numbered model_id next line [])
  model_step-Numbered (some entity) es none next line e =
      subst (Numbered model_id next line) (ok-injective e) (no_calls-Numbered model_id next line es)
  model_step-Numbered (some entity) es (some session) next line e =
      add_model_calls-Numbered entity session line es next (no_calls [] next)
        (no_calls-Numbered model_id next line []) e

  make_session-id :
      (id source : ℕ) (name : Option String) (content : Object) (x : Session)
      → make_session py id source name content ≡ ok x
      → x.id ≡ id
  unfolding make_session
  make_session-id id source name content x h =
      let (external, _, h1) = >>=-eq-ok (required "external_id" content) _ h in
      let (_, valid, h2) = >>=-eq-ok (check_outcome (or_null (lookup "outcome" content))) _ h1 in
      ap (λ t. t.id) (sym (ok-injective h2))

  -- At most one session, with the number given, and issues on the line.
  abbrev SessionNumbered : ℕ → Option ℕ → Option Session × List ImportIssue → Type 0
  SessionNumbered next line (session, issues) =
      Rising next (map session_id (sessions_of py session)) (suc next) × OnLine line issues

  -- What `session_made` does with what the constructor gave.
  abbrev given :
      List ImportIssue → Option ℕ → Option Session → Run (Option Session × List ImportIssue)
  given issues line session = elim session [
    | some s ↦ ok (some s, issues)
    | none ↦ ok (none, issues ++ construction_issue line ∷ [])
  ]

  given-Numbered :
      (issues : List ImportIssue) (next : ℕ) (line : Option ℕ) (r : Run Session)
      {done : Option Session × List ImportIssue}
      → OnLine line issues
      → ((x : Session) → r ≡ ok x → x.id ≡ next)
      → (o : Option Session) → constructed r ≡ ok o
      → given issues line o ≡ ok done
      → SessionNumbered next line done
  given-Numbered issues next line r on own none made h =
      subst (SessionNumbered next line) (ok-injective h)
        (omega arith, All-append (λ i. i.line_number ≡ line) issues _ on (refl, tt))
  given-Numbered issues next line r on own (some x) made h =
      subst (SessionNumbered next line) (ok-injective h) (
        (
          omega (arith, own x (constructed-some r x made)),
          omega (arith, own x (constructed-some r x made)),
        ),
        on,
      )

  session_made-Numbered :
      (issues : List ImportIssue) (next : ℕ) (line : Option ℕ) (r : Run Session)
      {done : Option Session × List ImportIssue}
      → OnLine line issues
      → ((x : Session) → r ≡ ok x → x.id ≡ next)
      → session_made py issues line (constructed r) ≡ ok done
      → SessionNumbered next line done
  session_made-Numbered issues next line r on own h =
      let (o, made, h1) = >>=-eq-ok (constructed r) (given issues line) h in
      given-Numbered issues next line r on own o made h1

  session_named-Numbered :
      (content : Object) (issues : List ImportIssue) (source next : ℕ) (line : Option ℕ)
      (n : Option String × Option ImportIssue) {done : Option Session × List ImportIssue}
      → OnLine line issues
      → MaybeOnLine line n.1
      → session_named py content issues source next line n ≡ ok done
      → SessionNumbered next line done
  session_named-Numbered content issues source next line (name, some i) on also h =
      subst (SessionNumbered next line) (ok-injective h)
        (omega arith, All-append (λ i. i.line_number ≡ line) issues _ on (also, tt))
  session_named-Numbered content issues source next line (name, none) on also h =
      session_made-Numbered issues next line (make_session py next source name content) on
        (make_session-id next source name content) h

  session_keyed-Numbered :
      (entity : EntityMapping) (content : Object) (issues : List ImportIssue) (source next : ℕ)
      (line : Option ℕ) (key : Option ImportIssue) {done : Option Session × List ImportIssue}
      → OnLine line issues
      → MaybeOnLine line key
      → session_keyed py entity content issues source next line key ≡ ok done
      → SessionNumbered next line done
  session_keyed-Numbered entity content issues source next line (some i) on also h =
      subst (SessionNumbered next line) (ok-injective h)
        (omega arith, All-append (λ i. i.line_number ≡ line) issues _ on (also, tt))
  session_keyed-Numbered entity content issues source next line none on also h =
      session_named-Numbered content issues source next line _ on
        (name_of-line entity.target "agent_name" content line false) h

  several-line : (es : List Entry) (line : Option ℕ) → OnLine line (several py es line)
  several-line [] line = tt
  several-line (a ∷ []) line = tt
  several-line (a ∷ b ∷ es) line = (refl, tt)

  session_step-Numbered :
      (entity : Option EntityMapping) (es : List Entry) (source next : ℕ) (line : Option ℕ)
      {done : Option Session × List ImportIssue}
      → session_step py entity es source next line ≡ ok done
      → SessionNumbered next line done
  unfolding build_session
  session_step-Numbered none es source next line h =
      subst (SessionNumbered next line) (ok-injective h) (omega arith, tt)
  session_step-Numbered (some entity) [] source next line h =
      subst (SessionNumbered next line) (ok-injective h) (omega arith, tt)
  session_step-Numbered (some entity) (e ∷ es) source next line h =
      session_keyed-Numbered entity e.content (several py (e ∷ es) line) source next line _
        (several-line (e ∷ es) line) (check_natural_key-line entity e.content line) h

  -- The entities of a record take rising numbers from the supply, and every issue is on its line.
  pub normalize-Supplied :
      (mapping : Mapping) (raw : Value) (source : ℕ) (line : Option ℕ) (next : ℕ)
      {result : NormalizationResult} {after : ℕ}
      → normalize py mapping raw source line next ≡ ok (result, after)
      → Supplied next after result × OnLine line result.issues
  unfolding normalize
  normalize-Supplied mapping raw source line next h =
      let applied = apply py none mapping raw line in
      let ((session, issues), begun, h1) =
        >>=-eq-ok
          (session_step py (by_target "session" mapping.entities) (of_target "session" applied.0)
            source next line)
          _ h in
      let (models, made, h2) =
        >>=-eq-ok
          (model_step py (by_target "model_call" mapping.entities)
            (of_target "model_call" applied.0) session (suc next) line)
          _ h1 in
      let (tools, used, h3) =
        >>=-eq-ok
          (tool_step py (by_target "tool_call" mapping.entities) (of_target "tool_call" applied.0)
            session models.next_id line)
          _ h2 in
      let x =
        session_step-Numbered (by_target "session" mapping.entities) _ source next line begun in
      let m =
        model_step-Numbered (by_target "model_call" mapping.entities) _ session (suc next) line
          made in
      let t =
        tool_step-Numbered (by_target "tool_call" mapping.entities) _ session models.next_id line
          used in
      subst (λ p. Supplied next p.1 p.0 × OnLine line p.0.issues) (ok-injective h3)
        (
          record { sessions = x.0; middle = models.next_id; models = m.rising; tools = t.rising },
          OnLine-four line applied.1 issues models.issues tools.issues
              (apply-OnLine py none line mapping raw) x.1 m.placed t.placed,
        )
