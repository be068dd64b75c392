-- ===== src/Normalizer/Models.antt =====
-- The model calls of one record in src/agentlen/domain/services/record_normalizer.py: what
-- `_build_model_calls` makes of the entities that the engine has transformed.
use mathlib.Core.Path.{subst}
use mathlib.Core.List.{append-nil, append_assoc}
use agent_len.Base.{
  ℕ, suc, ◌+◌, ◌*◌, String, string_eq, false, ◌≡◌, refl, ap, sym, ◌∙◌, Option, none, some, List, [],
}
use agent_len.Base.{
  ◌∷◌, ◌++◌, ok, >>=-eq-ok, ok-injective, arith, All, All-append, length, length-append,
}
use agent_len.Base.Dict.{lookup}
use agent_len.Json.{str, Object, or_null}
use agent_len.Mapping.{EntityMapping, ImportIssue, truthy}
use agent_len.Python.{Python}
use agent_len.Engine.{Entry}
use agent_len.Engine.Operators.{Run, or_else}
use agent_len.Normalizer.{
  Calls, name_of, no_calls, constructed, with_call, with_issues, indexed, model_references,
}
use agent_len.Normalizer.{
  add_model_call, add_model_calls, model_named, model_keyed, build_model_calls, request,
  provider_context,
}
use agent_len.Normalizer.Entities.{
  Session, ModelCall, ReferenceRequest, ReferenceKind, provider, model, valid_statuses,
  make_model_call, one_of,
}
use agent_len.Normalizer.Tools.{ValidStatus, one_of-ValidStatus, constructed-some}

-- A request for the entry of a kind that a name names: an absent or empty name asks for none.
abbrev pub named_request :
    ReferenceKind → List (String × String) → Option String → List ReferenceRequest
named_request kind context none = []
named_request kind context (some String.[]) = []
named_request kind context (some (String.◌∷◌ c s)) =
    record { kind = kind; name = String.◌∷◌ c s; context = context } ∷ []

-- The key of a model has the name of its provider, if the call names one.
abbrev pub provider_key : Option String → List (String × String)
provider_key none = []
provider_key (some String.[]) = []
provider_key (some (String.◌∷◌ c s)) = ("provider_name", String.◌∷◌ c s) ∷ []

-- A call asks for its provider, then for its model, where it names them.
abbrev pub call_requests : Option String → Option String → List ReferenceRequest
call_requests provider_name model_name =
    named_request provider [] provider_name
    ++ named_request model (provider_key provider_name) model_name

abbrev pub asked_by : List ModelCall → List ReferenceRequest
asked_by [] = []
asked_by (c ∷ cs) = call_requests c.provider_name c.model_name ++ asked_by cs

pub request-named :
    (py : Python) (kind : ReferenceKind) (context : List (String × String)) (name : Option String)
    → request py (truthy name) (λ n. record { kind = kind; name = n; context = context })
      ≡ named_request kind context name
request-named py kind context none = refl
request-named py kind context (some String.[]) = refl
request-named py kind context (some (String.◌∷◌ c s)) = refl

provider_context-key :
    (py : Python) (name : Option String) → provider_context py (truthy name) ≡ provider_key name
provider_context-key py none = refl
provider_context-key py (some String.[]) = refl
provider_context-key py (some (String.◌∷◌ c s)) = refl

model_references-named :
    (py : Python) (provider_name model_name : Option String)
    → model_references py provider_name model_name ≡ call_requests provider_name model_name
model_references-named py provider_name model_name =
    rw
      (
        sym (request-named py provider [] provider_name),
        sym (provider_context-key py provider_name),
        sym (request-named py model (provider_context py (truthy provider_name)) model_name),
      )
      refl

module _ (py : Python) where
  -- The calls belong to the session, what is asked for is what they name, in their order, and each
  -- row has become a call, or one issue (`told_once` of them), or two (`told_twice`).
  pub record Accounted (session : Session) (rows : ℕ) (c : Calls ModelCall) : Type 0 where
    pub linked : All (λ m. m.session_id ≡ session.id) c.calls
    pub statuses : All (λ m. ValidStatus m.status) c.calls
    pub asked : c.references ≡ asked_by c.calls
    pub told_once : ℕ
    pub told_twice : ℕ
    pub none_lost : rows ≡ length c.calls + told_once + told_twice
    pub none_more : length c.issues ≡ told_once + 2 * told_twice

  asked_by-append : (xs ys : List ModelCall) → asked_by (xs ++ ys) ≡ asked_by xs ++ asked_by ys
  asked_by-append [] ys = refl
  asked_by-append (x ∷ xs) ys =
      let first = call_requests x.provider_name x.model_name in
      ap (λ r. first ++ r) (asked_by-append xs ys)
      ∙ sym (append_assoc first (asked_by xs) (asked_by ys))

  asked_by-last :
      (cs : List ModelCall) (m : ModelCall)
      → asked_by (cs ++ m ∷ []) ≡ asked_by cs ++ model_references py m.provider_name m.model_name
  asked_by-last cs m =
      asked_by-append cs (m ∷ [])
      ∙ ap (λ r. asked_by cs ++ r)
          (append-nil (call_requests m.provider_name m.model_name)
            ∙ sym (model_references-named py m.provider_name m.model_name))

  one_issue-Accounted :
      (session : Session) (rows : ℕ) (c : Calls ModelCall) (i : ImportIssue)
      → Accounted session rows c
      → Accounted session (suc rows) (with_issues py c (i ∷ []))
  one_issue-Accounted session rows c i h = record {
    linked = h.linked;
    statuses = h.statuses;
    asked = h.asked;
    told_once = suc h.told_once;
    told_twice = h.told_twice;
    none_lost = omega (arith, h.none_lost);
    none_more = omega (arith, h.none_more, length-append c.issues (i ∷ []));
  }

  two_issues-Accounted :
      (session : Session) (rows : ℕ) (c : Calls ModelCall) (i j : ImportIssue)
      → Accounted session rows c
      → Accounted session (suc rows) (with_issues py c (i ∷ j ∷ []))
  two_issues-Accounted session rows c i j h = record {
    linked = h.linked;
    statuses = h.statuses;
    asked = h.asked;
    told_once = h.told_once;
    told_twice = suc h.told_twice;
    none_lost = omega (arith, h.none_lost);
    none_more = omega (arith, h.none_more, length-append c.issues (i ∷ j ∷ []));
  }

  -- A model call that is made is the session's, has the names given and a valid status.
  abbrev Made : Session → Option String → Option String → ModelCall → Type 0
  Made session name provider_name m =
      (m.session_id ≡ session.id)
      × (m.model_name ≡ name)
      × (m.provider_name ≡ provider_name)
      × ValidStatus m.status

  make_model_call-Made :
      (id : ℕ) (session : Session) (name provider_name : Option String) (content : Object)
      {m : ModelCall}
      → make_model_call py id session.id name provider_name content ≡ ok m
      → Made session name provider_name m
  unfolding make_model_call
  make_model_call-Made id session name provider_name content h =
      let (index, _, h1) = >>=-eq-ok (py.to_int (or_null (lookup "sequence_index" content))) _ h in
      let (_, valid, h2) =
        >>=-eq-ok (one_of valid_statuses (or_else (lookup "status" content) (str "unknown"))) _
          h1 in
      subst (Made session name provider_name) (ok-injective h2)
        (refl, refl, refl, one_of-ValidStatus _ valid)

  with_call-Accounted :
      (session : Session) (rows : ℕ) (c : Calls ModelCall) (line : Option ℕ) (m : ModelCall)
      → m.session_id ≡ session.id
      → ValidStatus m.status
      → Accounted session rows c
      → Accounted session
          (suc rows)
          (with_call py c (model_references py m.provider_name m.model_name) line (some m))
  with_call-Accounted session rows c line m mine valid h = record {
    linked = All-append (λ m. m.session_id ≡ session.id) c.calls (m ∷ []) h.linked (mine, tt);
    statuses = All-append (λ m. ValidStatus m.status) c.calls (m ∷ []) h.statuses (valid, tt);
    asked =
        ap (λ r. r ++ model_references py m.provider_name m.model_name) h.asked
        ∙ sym (asked_by-last c.calls m);
    told_once = h.told_once;
    told_twice = h.told_twice;
    none_lost = omega (arith, h.none_lost, length-append c.calls (m ∷ []));
    none_more = h.none_more;
  }

  call_of_model-Accounted :
      (session : Session) (rows : ℕ) (c : Calls ModelCall) (line : Option ℕ)
      (name provider_name : Option String) (r : Run ModelCall) (o : Option ModelCall)
      → ((m : ModelCall) → r ≡ ok m → Made session name provider_name m)
      → constructed r ≡ ok o
      → Accounted session rows c
      → Accounted session
          (suc rows)
          (with_call py c (model_references py provider_name name) line o)
  call_of_model-Accounted session rows c line name provider_name r none made e h =
      one_issue-Accounted session rows c _ h
  call_of_model-Accounted session rows c line name provider_name r (some m) made e h =
      let (mine, named, provided, valid) = made m (constructed-some r m e) in
      subst
        (λ (n : Option String).
          Accounted session (suc rows)
            (with_call py c (model_references py provider_name n) line (some m)))
        named
        (subst
          (λ (p : Option String).
            Accounted session (suc rows)
              (with_call py c (model_references py p m.model_name) line (some m)))
          provided (with_call-Accounted session rows c line m mine valid h))

  model_named-Accounted :
      (session : Session) (rows : ℕ) (c : Calls ModelCall) (content : Object) (line : Option ℕ)
      (n p : Option String × Option ImportIssue) {next : Calls ModelCall}
      → Accounted session rows c
      → model_named py session content line n p c ≡ ok next
      → Accounted session (suc rows) next
  model_named-Accounted session rows c content line (name, none) (provider_name, none) h e =
      let (o, made, e1) =
        >>=-eq-ok (constructed (make_model_call py c.next_id session.id name provider_name content))
          _ e in
      subst (Accounted session (suc rows)) (ok-injective e1) (
        call_of_model-Accounted session rows c line name provider_name _ o
          (λ m. make_model_call-Made c.next_id session name provider_name content) made h)
  model_named-Accounted session rows c content line (name, some i) (provider_name, none) h e =
      subst (Accounted session (suc rows)) (ok-injective e) (one_issue-Accounted session rows c i h)
  model_named-Accounted session rows c content line (name, none) (provider_name, some j) h e =
      subst (Accounted session (suc rows)) (ok-injective e) (one_issue-Accounted session rows c j h)
  model_named-Accounted session rows c content line (name, some i) (provider_name, some j) h e =
      subst (Accounted session (suc rows)) (ok-injective e)
        (two_issues-Accounted session rows c i j h)

  model_keyed-Accounted :
      (entity : EntityMapping) (session : Session) (rows : ℕ) (c : Calls ModelCall)
      (content : Object) (line : Option ℕ) (key : Option ImportIssue) {next : Calls ModelCall}
      → Accounted session rows c
      → model_keyed py entity session content line key c ≡ ok next
      → Accounted session (suc rows) next
  model_keyed-Accounted entity session rows c content line (some i) h e =
      subst (Accounted session (suc rows)) (ok-injective e) (one_issue-Accounted session rows c i h)
  model_keyed-Accounted entity session rows c content line none h e =
      model_named-Accounted session rows c content line
        (name_of py entity.target "model_name" content line false)
        (name_of py entity.target "provider_name" content line false) h e

  add_model_calls-Accounted :
      (entity : EntityMapping) (session : Session) (line : Option ℕ) (es : List Entry) (rows : ℕ)
      (c : Calls ModelCall) {done : Calls ModelCall}
      → Accounted session rows c
      → add_model_calls py entity session line es c ≡ ok done
      → Accounted session (rows + length es) done
  unfolding add_model_calls add_model_call
  add_model_calls-Accounted entity session line [] rows c h e =
      subst (Accounted session (rows + 0)) (ok-injective e)
        (subst (λ n. Accounted session n c) (omega arith) h)
  add_model_calls-Accounted entity session line (row ∷ es) rows c {done} h e =
      let (next, one, rest) = >>=-eq-ok (add_model_call py entity session line row c) _ e in
      let keep = model_keyed-Accounted entity session rows c (indexed row) line _ h one in
      subst (λ n. Accounted session n done) (omega arith)
        (add_model_calls-Accounted entity session line es (suc rows) next keep rest)

  -- When the record has a session, each row of model calls becomes a call of that session with a
  -- valid status, or one or two issues: none is lost. The providers and models asked for are those
  -- that the calls name, in order.
  pub build_model_calls-Accounted :
      (entity : EntityMapping) (es : List Entry) (session : Session) (next : ℕ) (line : Option ℕ)
      {done : Calls ModelCall}
      → build_model_calls py entity es (some session) next line ≡ ok done
      → Accounted session (length es) done
  unfolding build_model_calls
  build_model_calls-Accounted entity es session next line {done} e =
      subst (λ n. Accounted session n done) (omega arith)
        (add_model_calls-Accounted entity session line es 0 (no_calls [] next)
          (record {
            linked = tt;
            statuses = tt;
            asked = refl;
            told_once = 0;
            told_twice = 0;
            none_lost = refl;
            none_more = refl;
          })
          e)
