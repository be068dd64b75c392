-- ===== src/Normalizer/Tools.antt =====
-- The tool calls of one record in src/agentlen/domain/services/record_normalizer.py: what
-- `_build_tool_calls` makes of the entities that the engine has transformed.
use mathlib.Core.Path.{subst}
use mathlib.Core.List.{map-append}
use agent_len.Base.{
  ℕ, suc, ◌+◌, String, ◌≡◌, refl, ap, sym, ◌∙◌, true, Option, none, some, List, [],
}
use agent_len.Base.{
  ◌∷◌, ◌++◌, map, ok, err, >>=-eq-ok, ok-injective, arith, All, All-append, length, length-append,
}
use agent_len.Base.{contains, string_eq}
use agent_len.Base.Dict.{lookup}
use agent_len.Json.{Value, str, Object, or_null}
use agent_len.Mapping.{EntityMapping, ImportIssue}
use agent_len.Python.{Python}
use agent_len.Engine.{Entry}
use agent_len.Engine.Operators.{Run, or_else}
use agent_len.Normalizer.{Calls, no_calls, constructed, with_call, with_issues, indexed}
use agent_len.Normalizer.{add_tool_call, add_tool_calls, tool_named, tool_keyed, build_tool_calls}
use agent_len.Normalizer.Entities.{
  Session, ToolCall, ReferenceRequest, tool, valid_statuses, make_tool_call, one_of,
}

-- The status is one of `ok`, `error` and `unknown`.
abbrev pub ValidStatus : Value → Type 0
ValidStatus v = (s : String) × (v ≡ str s) × (contains s valid_statuses ≡ true)

pub one_of-ValidStatus : (v : Value) {u : Unit {0}} → one_of valid_statuses v ≡ ok u → ValidStatus v
one_of-ValidStatus (str s) h = (s, refl, ground arith)
one_of-ValidStatus v h = cc

abbrev pub tool_request : ToolCall → ReferenceRequest
tool_request t = record { kind = tool; name = t.tool_name; context = [] }

-- The calls belong to the session, their tools are what is asked for, in their order, and calls
-- and issues together are as many as the rows.
pub record Accounted (session : Session) (rows : ℕ) (c : Calls ToolCall) : Type 0 where
  pub linked : All (λ t. t.session_id ≡ session.id) c.calls
  pub statuses : All (λ t. ValidStatus t.status) c.calls
  pub asked : c.references ≡ map tool_request c.calls
  pub counted : length c.calls + length c.issues ≡ rows

with_issue-Accounted :
    (py : Python) (session : Session) (rows : ℕ) (c : Calls ToolCall) (i : ImportIssue)
    → Accounted session rows c
    → Accounted session (suc rows) (with_issues py c (i ∷ []))
with_issue-Accounted py session rows c i h = record {
  linked = h.linked;
  statuses = h.statuses;
  asked = h.asked;
  counted = omega (arith, h.counted, length-append c.issues (i ∷ []));
}

with_call-Accounted :
    (py : Python) (session : Session) (rows : ℕ) (c : Calls ToolCall) (line : Option ℕ)
    (t : ToolCall)
    → t.session_id ≡ session.id
    → ValidStatus t.status
    → Accounted session rows c
    → Accounted session (suc rows) (with_call py c (tool_request t ∷ []) line (some t))
with_call-Accounted py session rows c line t mine valid h = record {
  linked = All-append (λ t. t.session_id ≡ session.id) c.calls (t ∷ []) h.linked (mine, tt);
  statuses = All-append (λ t. ValidStatus t.status) c.calls (t ∷ []) h.statuses (valid, tt);
  asked =
      ap (λ r. r ++ tool_request t ∷ []) h.asked ∙ sym (map-append tool_request c.calls (t ∷ []));
  counted = omega (arith, h.counted, length-append c.calls (t ∷ []));
}

pub constructed-some : {A : Type 0} (r : Run A) (a : A) → constructed r ≡ ok (some a) → r ≡ ok a
constructed-some (ok b) a e = ground arith
constructed-some (err x) a e = ground arith

module _ (py : Python) where
  -- A tool call that is made is the session's, has the name given and a valid status.
  abbrev Made : Session → String → ToolCall → Type 0
  Made session name t = (t.session_id ≡ session.id) × (t.tool_name ≡ name) × ValidStatus t.status

  make_tool_call-Made :
      (id : ℕ) (session : Session) (name : String) (content : Object) {t : ToolCall}
      → make_tool_call py id session.id name content ≡ ok t
      → Made session name t
  unfolding make_tool_call
  make_tool_call-Made id session name content h =
      let (index, _, h1) = >>=-eq-ok (py.to_int (or_null (lookup "sequence_index" content))) _ h in
      let (_, valid, h2) =
        >>=-eq-ok (one_of valid_statuses (or_else (lookup "status" content) (str "unknown"))) _
          h1 in
      subst (Made session name) (ok-injective h2) (refl, refl, one_of-ValidStatus _ valid)

  call_of_tool-Accounted :
      (session : Session) (rows : ℕ) (c : Calls ToolCall) (line : Option ℕ) (name : String)
      (r : Run ToolCall) (o : Option ToolCall)
      → ((t : ToolCall) → r ≡ ok t → Made session name t)
      → constructed r ≡ ok o
      → Accounted session rows c
      → Accounted session
          (suc rows)
          (with_call py c (record { kind = tool; name = name; context = [] } ∷ []) line o)
  call_of_tool-Accounted session rows c line name r none made e h =
      with_issue-Accounted py session rows c _ h
  call_of_tool-Accounted session rows c line name r (some t) made e h =
      let (mine, named, valid) = made t (constructed-some r t e) in
      subst
        (λ (n : String).
          Accounted session (suc rows)
            (with_call py c (record { kind = tool; name = n; context = [] } ∷ []) line (some t)))
        named (with_call-Accounted py session rows c line t mine valid h)

  tool_named-Accounted :
      (session : Session) (rows : ℕ) (c : Calls ToolCall) (content : Object) (line : Option ℕ)
      (n : Option String × Option ImportIssue) {next : Calls ToolCall}
      → Accounted session rows c
      → tool_named py session content line n c ≡ ok next
      → Accounted session (suc rows) next
  tool_named-Accounted session rows c content line (name, some i) h e =
      subst (Accounted session (suc rows)) (ok-injective e)
        (with_issue-Accounted py session rows c i h)
  tool_named-Accounted session rows c content line (none, none) h e =
      subst (Accounted session (suc rows)) (ok-injective e)
        (with_issue-Accounted py session rows c _ h)
  tool_named-Accounted session rows c content line (some name, none) h e =
      let (o, made, e1) =
        >>=-eq-ok (constructed (make_tool_call py c.next_id session.id name content)) _ e in
      subst (Accounted session (suc rows)) (ok-injective e1) (
        call_of_tool-Accounted session rows c line name _ o
          (λ t. make_tool_call-Made c.next_id session name content) made h)

  tool_keyed-Accounted :
      (entity : EntityMapping) (session : Session) (rows : ℕ) (c : Calls ToolCall)
      (content : Object) (line : Option ℕ) (key : Option ImportIssue) {next : Calls ToolCall}
      → Accounted session rows c
      → tool_keyed py entity session content line key c ≡ ok next
      → Accounted session (suc rows) next
  tool_keyed-Accounted entity session rows c content line (some i) h e =
      subst (Accounted session (suc rows)) (ok-injective e)
        (with_issue-Accounted py session rows c i h)
  tool_keyed-Accounted entity session rows c content line none h e =
      tool_named-Accounted session rows c content line _ h e

  add_tool_calls-Accounted :
      (entity : EntityMapping) (session : Session) (line : Option ℕ) (es : List Entry) (rows : ℕ)
      (c : Calls ToolCall) {done : Calls ToolCall}
      → Accounted session rows c
      → add_tool_calls py entity session line es c ≡ ok done
      → Accounted session (rows + length es) done
  unfolding add_tool_calls add_tool_call
  add_tool_calls-Accounted entity session line [] rows c h e =
      subst (Accounted session (rows + 0)) (ok-injective e)
        (subst (λ n. Accounted session n c) (omega arith) h)
  add_tool_calls-Accounted entity session line (row ∷ es) rows c {done} h e =
      let (next, one, rest) = >>=-eq-ok (add_tool_call py entity session line row c) _ e in
      let keep = tool_keyed-Accounted entity session rows c (indexed row) line _ h one in
      subst (λ n. Accounted session n done) (omega arith)
        (add_tool_calls-Accounted entity session line es (suc rows) next keep rest)

  -- When the record has a session, each row of tool calls becomes a call of that session with a
  -- valid status, or one issue: none is lost. The tools asked for are those of the calls, in order.
  pub build_tool_calls-Accounted :
      (entity : EntityMapping) (es : List Entry) (session : Session) (next : ℕ) (line : Option ℕ)
      {done : Calls ToolCall}
      → build_tool_calls py entity es (some session) next line ≡ ok done
      → Accounted session (length es) done
  unfolding build_tool_calls
  build_tool_calls-Accounted entity es session next line {done} e =
      subst (λ n. Accounted session n done) (omega arith)
        (add_tool_calls-Accounted entity session line es 0 (no_calls [] next)
          (record { linked = tt; statuses = tt; asked = refl; counted = refl }) e)
