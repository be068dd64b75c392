-- ===== src/Running/Kept.antt =====
-- No tool call of a batch is dropped for its name in src/agentlen/application/use_cases/run_import.py: the
-- normalizer has asked for it.
use mathlib.Core.Path.{subst}
use agent_len.Base.{
  ℕ, suc, ◌≡◌, refl, ap, sym, ◌∙◌, ◌++◌, Option, none, Option-cases, inl, inr, All-append,
}
use mathlib.Core.List.{append-nil, map-append}
use agent_len.Base.{some, List, [], ◌∷◌, map, ok, >>=-eq-ok}
use agent_len.Base.{ok-injective, All, All-left, All-right, All-map}
use agent_len.Base.{string_eq, pair_eq, list_eq, nat_eq}
use agent_len.Base.Dict.{Dict, lookup}
use agent_len.Json.{Members, obj}
use agent_len.Mapping.{Mapping, ImportIssue, warning}
use agent_len.Python.{Python}
use agent_len.Normalizer.{NormalizationResult, normalize}
use agent_len.Normalizer.Entities.{Session, ModelCall, ToolCall, ReferenceRequest, agent, model}
use agent_len.Storage.Calls.{ToolCallRow}
use agent_len.Normalizer.Tools.{tool_request}
use agent_len.Normalizer.Linked.{normalize-IsLinked}
use agent_len.Storage.Referentials.{resolve}
use agent_len.Running.References.{CacheKey, request_key, kind_eq, execute}
use agent_len.Running.References.Cached.{execute-cached}
use agent_len.Running.Rows.{
  BatchRows, session_rows, model_rows, tool_rows, record_rows, batch_rows, reference_key,
  resolved_id, normalize_batch, references_of,
}
use agent_len.Running.Batch.{RunContext, Progress, Prepared, prepare_batch}

-- A request that has been given an id.
abbrev Given : Dict CacheKey ℕ → ReferenceRequest → Type 0
Given resolved q = (id : ℕ) × (lookup (request_key q) resolved ≡ some id)

tool_rows-KeepsTools :
    (resolved : Dict CacheKey ℕ) (run raw line : ℕ) (calls : List ToolCall)
    → All (Given resolved) (map tool_request calls)
    → (map (λ r. r.entity) (tool_rows resolved run raw line calls).0 ≡ calls)
      × ((tool_rows resolved run raw line calls).1 ≡ [])
unfolding tool_rows resolved_id reference_key
tool_rows-KeepsTools resolved run raw line [] h = (refl, refl)
tool_rows-KeepsTools resolved run raw line (call ∷ calls) h =
    let (id, is) = h.0 in
    let rest = tool_rows-KeepsTools resolved run raw line calls h.1 in
    (
      rw (is, tool_rows, resolved_id) (ap (λ cs. call ∷ cs) rest.0),
      rw (is, tool_rows, resolved_id) rest.1,
    )

-- The tool calls of the records whose lines have been stored now.
abbrev pub tools_of : Dict ℕ ℕ → List (ℕ × NormalizationResult) → List ToolCall
tools_of raw_ids [] = []
tools_of raw_ids ((line, result) ∷ more) =
    elim (lookup line raw_ids) [ none ↦ [] | some raw ↦ result.tool_calls ] ++ tools_of raw_ids more

-- No reference rejects a record.
abbrev pub NoneRejected : List ImportIssue → Type 0
NoneRejected = All (λ i. i.severity ≡ warning)

module _ (resolved : Dict CacheKey ℕ) (run : ℕ) where
  resolved_id-NoneRejected :
      (key : Option CacheKey) (line : ℕ) → NoneRejected (resolved_id resolved key line warning).1
  unfolding resolved_id
  resolved_id-NoneRejected none line = tt
  resolved_id-NoneRejected (some key) line = elim (Option-cases (lookup key resolved)) [
    | inl e ↦ rw (e, resolved_id) (refl, tt)
    | inr (id, e) ↦ rw (e, resolved_id) tt
  ]

  session_rows-NoneRejected :
      (raw line : ℕ) (xs : List Session) → NoneRejected (session_rows resolved run raw line xs).1
  unfolding session_rows
  session_rows-NoneRejected raw line [] = tt
  session_rows-NoneRejected raw line (x ∷ xs) =
      All-append _ _ _ (resolved_id-NoneRejected (reference_key agent x.agent_name none) line)
        (session_rows-NoneRejected raw line xs)

  model_rows-NoneRejected :
      (raw line : ℕ) (xs : List ModelCall) → NoneRejected (model_rows resolved run raw line xs).1
  unfolding model_rows
  model_rows-NoneRejected raw line [] = tt
  model_rows-NoneRejected raw line (x ∷ xs) =
      All-append _ _ _
        (resolved_id-NoneRejected (reference_key model x.model_name x.provider_name) line)
        (model_rows-NoneRejected raw line xs)

  -- The rows to store have all tool calls of the records stored now, and nothing is rejected.
  abbrev pub KeepsTools : Dict ℕ ℕ → List (ℕ × NormalizationResult) → BatchRows → Type 0
  KeepsTools raw_ids normalised rows =
      (map (λ r. r.entity) rows.tool_calls ≡ tools_of raw_ids normalised) × NoneRejected rows.issues

  record_rows-KeepsTools :
      (raw_ids : Dict ℕ ℕ) (line : ℕ) (result : NormalizationResult)
      → All (Given resolved) (map tool_request result.tool_calls)
      → KeepsTools raw_ids ((line, result) ∷ []) (record_rows resolved run raw_ids (line, result))
  unfolding record_rows
  record_rows-KeepsTools raw_ids line result given = elim (Option-cases (lookup line raw_ids)) [
    | inl e ↦ rw (e, record_rows) (refl, tt)
    | inr (raw, e) ↦
        let tools = tool_rows-KeepsTools resolved run raw line result.tool_calls given in
        rw (e, record_rows, tools.1)
          (
            tools.0 ∙ sym (append-nil result.tool_calls),
            All-append _ _ []
                (All-append _ _ _ (session_rows-NoneRejected raw line result.sessions)
                  (model_rows-NoneRejected raw line result.model_calls))
                tt,
          )
  ]

  batch_rows-KeepsTools :
      (raw_ids : Dict ℕ ℕ) (normalised : List (ℕ × NormalizationResult))
      → All (λ r. All (Given resolved) (map tool_request r.1.tool_calls)) normalised
      → KeepsTools raw_ids normalised (batch_rows resolved run raw_ids normalised)
  unfolding batch_rows
  batch_rows-KeepsTools raw_ids [] given = (refl, tt)
  batch_rows-KeepsTools raw_ids ((line, result) ∷ more) given =
      let here = record_rows-KeepsTools raw_ids line result given.0 in
      let rest = batch_rows-KeepsTools raw_ids more given.1 in
      let own = (record_rows resolved run raw_ids (line, result)).tool_calls in
      (
        map-append (λ (r : ToolCallRow). r.entity) own _ ∙ rw (here.0 ∙ append-nil _, rest.0) refl,
        All-append _ _ _ here.1 rest.1,
      )

module _ (py : Python) (mapping : Mapping) (source : ℕ) (resolved : Dict CacheKey ℕ) where
  -- The tools of every record have been given ids.
  batch-Given :
      (line next : ℕ) (batch : List Members) (normalised : List (ℕ × NormalizationResult))
      (last : ℕ)
      → normalize_batch py mapping source line next batch ≡ ok (normalised, last)
      → All (Given resolved) (references_of normalised)
      → All (λ r. All (Given resolved) (map tool_request r.1.tool_calls)) normalised
  unfolding normalize_batch
  batch-Given line next [] normalised last ran given =
      subst
        (λ (r : List (ℕ × NormalizationResult) × ℕ).
          All (λ x. All (Given resolved) (map tool_request x.1.tool_calls)) r.0)
        (ok-injective ran) tt
  batch-Given line next (raw ∷ batch) normalised last ran given =
      let ((result, after), one, r1) =
        >>=-eq-ok (normalize py mapping (obj raw) source (some line) next) _ ran in
      let ((rest, end_id), more, r2) =
        >>=-eq-ok (normalize_batch py mapping source (suc line) after batch) _ r1 in
      let all =
        subst (λ ns. All (Given resolved) (references_of ns))
          (sym (ap (λ r. r.0) (ok-injective r2))) given in
      let linked = normalize-IsLinked py mapping (obj raw) source (some line) next one in
      let own = All-left (Given resolved) result.reference_requests (references_of rest) all in
      subst
        (λ (r : List (ℕ × NormalizationResult) × ℕ).
          All (λ x. All (Given resolved) (map tool_request x.1.tool_calls)) r.0)
        (ok-injective r2)
        (
          All-right (Given resolved) _ (map tool_request result.tool_calls)
              (subst (All (Given resolved)) linked.asked own),
          batch-Given (suc line) after batch rest end_id more
              (All-right (Given resolved) result.reference_requests (references_of rest) all),
        )

-- Of a batch that is prepared, the rows to store have, in order, every tool call of the records
-- whose lines are stored by it, and none of a record whose line was stored before; and no record is
-- rejected because a name has no id.
pub prepare_batch-KeepsTools :
    (py : Python) (context : RunContext) (line : ℕ) (batch : List Members) (p : Progress)
    (raw_ids : Dict ℕ ℕ) {prepared : Prepared}
    → prepare_batch py context line batch p ≡ ok prepared
    → KeepsTools prepared.references.resolved context.import_run_id raw_ids prepared.normalised
        (batch_rows prepared.references.resolved context.import_run_id raw_ids prepared.normalised)
unfolding prepare_batch
prepare_batch-KeepsTools py context line batch p raw_ids ran =
    let ((normalised, last), normalizes, r1) =
      >>=-eq-ok (normalize_batch py context.mapping context.data_source_id line p.next_id batch) _
        ran in
    let (references, resolves, r2) =
      >>=-eq-ok (execute resolve (references_of normalised) p.cache p.database.referentials) _ r1 in
    let given =
      (execute-cached resolve (references_of normalised) p.cache p.database.referentials
        p.database.referentials resolves).0 in
    let run = context.import_run_id in
    subst
      (λ (x : Prepared).
        KeepsTools x.references.resolved run raw_ids x.normalised
          (batch_rows x.references.resolved run raw_ids x.normalised))
      (ok-injective r2)
      (batch_rows-KeepsTools references.resolved run raw_ids normalised (
        batch-Given py context.mapping context.data_source_id references.resolved line p.next_id
          batch normalised last normalizes
          (All-map _ (Given references.resolved) (references_of normalised) (λ q g. (g.0, g.1))
            given)))
