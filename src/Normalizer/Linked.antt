-- ===== src/Normalizer/Linked.antt =====
-- What `RecordNormalizer.normalize` of src/agentlen/domain/services/record_normalizer.py returns for
-- one record: how its calls and its requests for references relate to its session.
use mathlib.Core.Path.{subst}
use mathlib.Core.List.{append-nil}
use agent_len.Base.{ℕ, suc, ◌≤◌, ◌≡◌, refl, sym, ◌∙◌, Option, none, some, List, [], ◌∷◌, ◌++◌, map}
use agent_len.Base.{ok, >>=-eq-ok, ok-injective, arith, All, length}
use agent_len.Json.{Value}
use agent_len.Mapping.{EntityMapping, Mapping}
use agent_len.Python.{Python}
use agent_len.Engine.{Entry, apply}
use agent_len.Normalizer.{
  NormalizationResult, Calls, by_target, of_target, build_model_calls, build_tool_calls,
}
use agent_len.Normalizer.{
  sessions_of, agent_request, session_step, model_step, tool_step, normalize,
}
use agent_len.Normalizer.Entities.{Session, ModelCall, ToolCall, ReferenceRequest, agent}
use agent_len.Normalizer.Tools.{tool_request, build_tool_calls-Accounted}
use agent_len.Normalizer.Models.{
  asked_by, named_request, request-named, build_model_calls-Accounted,
}

append3 :
    {A : Type 0} {a b c x y z : List A} → a ≡ x → b ≡ y → c ≡ z → (a ++ b ++ c) ≡ (x ++ y ++ z)
append3 p q r = cc

-- There is one session, and it has this id.
abbrev pub BelongsTo : List Session → ℕ → Type 0
BelongsTo sessions id = (s : Session) × (sessions ≡ s ∷ []) × (id ≡ s.id)

-- What the sessions ask for: each its agent, where it names one.
abbrev agents_asked : List Session → List ReferenceRequest
agents_asked [] = []
agents_asked (s ∷ sessions) = named_request agent [] s.agent_name ++ agents_asked sessions

module _ (py : Python) where
  -- At most one session, every call is of that session, and what is asked for is what the
  -- session and the calls name.
  pub record IsLinked (r : NormalizationResult) : Type 0 where
    pub one_session : length r.sessions ≤ 1
    pub models : All (λ m. BelongsTo r.sessions m.session_id) r.model_calls
    pub tools : All (λ t. BelongsTo r.sessions t.session_id) r.tool_calls
    pub asked :
        r.reference_requests
        ≡ agents_asked r.sessions ++ asked_by r.model_calls ++ map tool_request r.tool_calls

  belong :
      {A : Type 0} (id_of : A → ℕ) (s : Session) (xs : List A)
      → All (λ x. id_of x ≡ s.id) xs
      → All (λ x. BelongsTo (s ∷ []) (id_of x)) xs
  belong id_of s [] h = tt
  belong id_of s (x ∷ xs) h = ((s, refl, h.0), belong id_of s xs h.1)

  abbrev ModelsLinked : List Session → Calls ModelCall → Type 0
  ModelsLinked sessions c =
      All (λ m. BelongsTo sessions m.session_id) c.calls × (c.references ≡ asked_by c.calls)

  abbrev ToolsLinked : List Session → Calls ToolCall → Type 0
  ToolsLinked sessions c =
      All (λ t. BelongsTo sessions t.session_id) c.calls × (c.references ≡ map tool_request c.calls)

  model_step-ModelsLinked :
      (entity : Option EntityMapping) (es : List Entry) (session : Option Session) (next : ℕ)
      (line : Option ℕ) {c : Calls ModelCall}
      → model_step py entity es session next line ≡ ok c
      → ModelsLinked (sessions_of py session) c
  unfolding build_model_calls
  model_step-ModelsLinked none es session next line h =
      subst (ModelsLinked (sessions_of py session)) (ok-injective h) (tt, refl)
  model_step-ModelsLinked (some entity) es none next line h =
      subst (ModelsLinked []) (ok-injective h) (tt, refl)
  model_step-ModelsLinked (some entity) es (some s) next line {c} h =
      let done = build_model_calls-Accounted py entity es s next line h in
      (belong (λ (m : ModelCall). m.session_id) s c.calls done.linked, done.asked)

  tool_step-ToolsLinked :
      (entity : Option EntityMapping) (es : List Entry) (session : Option Session) (next : ℕ)
      (line : Option ℕ) {c : Calls ToolCall}
      → tool_step py entity es session next line ≡ ok c
      → ToolsLinked (sessions_of py session) c
  unfolding build_tool_calls
  tool_step-ToolsLinked none es session next line h =
      subst (ToolsLinked (sessions_of py session)) (ok-injective h) (tt, refl)
  tool_step-ToolsLinked (some entity) es none next line h =
      subst (ToolsLinked []) (ok-injective h) (tt, refl)
  tool_step-ToolsLinked (some entity) es (some s) next line {c} h =
      let done = build_tool_calls-Accounted py entity es s next line h in
      (belong (λ (t : ToolCall). t.session_id) s c.calls done.linked, done.asked)

  sessions_of-one : (session : Option Session) → length (sessions_of py session) ≤ 1
  sessions_of-one none = omega arith
  sessions_of-one (some s) = omega arith

  agents_asked-agent_request :
      (session : Option Session) → agents_asked (sessions_of py session) ≡ agent_request py session
  agents_asked-agent_request none = refl
  agents_asked-agent_request (some s) =
      append-nil (named_request agent [] s.agent_name)
      ∙ sym (request-named py agent [] s.agent_name)

  -- A record that normalizes gives at most one session; every model call and tool call that it
  -- gives is of that session, so without a session there are none; and the references asked for
  -- are the session's agent, the calls' providers and models, and the calls' tools, in order,
  -- where the session and the calls have a name for them that is not empty.
  pub normalize-IsLinked :
      (mapping : Mapping) (raw : Value) (source : ℕ) (line : Option ℕ) (next : ℕ)
      {result : NormalizationResult} {after : ℕ}
      → normalize py mapping raw source line next ≡ ok (result, after)
      → IsLinked result
  unfolding normalize
  normalize-IsLinked mapping raw source line next h =
      let applied = apply py none mapping raw line in
      let ((session, issues), _, h1) =
        >>=-eq-ok
          (session_step py (by_target "session" mapping.entities) (of_target "session" applied.0)
            source next line)
          _ h in
      let (models, made, h2) =
        >>=-eq-ok
          (model_step py (by_target "model_call" mapping.entities)
            (of_target "model_call" applied.0) session (suc next) line)
          _ h1 in
      let (tools, used, h3) =
        >>=-eq-ok
          (tool_step py (by_target "tool_call" mapping.entities) (of_target "tool_call" applied.0)
            session models.next_id line)
          _ h2 in
      let m = model_step-ModelsLinked _ _ session (suc next) line made in
      let t = tool_step-ToolsLinked _ _ session models.next_id line used in
      subst (λ p. IsLinked p.0) (ok-injective h3)
        (record {
          one_session = sessions_of-one session;
          models = m.0;
          tools = t.0;
          asked = append3 (sym (agents_asked-agent_request session)) m.1 t.1;
        })
