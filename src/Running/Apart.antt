-- ===== src/Running/Apart.antt =====
-- The rows of a batch of src/agentlen/application/use_cases/run_import.py are of different entities, since the
-- normalizer draws a number for each.
use mathlib.Core.Path.{subst}
use agent_len.Base.{ℕ, suc, ◌≤◌, ◌<◌, ◌≡◌, refl, ap, sym, false}
use agent_len.Base.{none, some, List, [], ◌∷◌, ◌++◌, map, ok, >>=-eq-ok}
use agent_len.Base.{ok-injective, arith, contains, nat_eq}
use agent_len.Base.{inl, inr, Option-cases}
use agent_len.Base.Dict.{Dict, lookup}
use agent_len.Base.{string_eq, pair_eq, list_eq, int_eq}
use mathlib.Core.List.{map-append}
use agent_len.Json.{Members, obj}
use agent_len.Mapping.{Mapping, rejected}
use agent_len.Python.{Python}
use agent_len.Normalizer.{NormalizationResult, normalize}
use agent_len.Normalizer.Entities.{Session, ModelCall, ToolCall, tool}
use agent_len.Normalizer.Numbered.{Rising, Rising-append, Supplied, normalize-Supplied, session_id}
use agent_len.Normalizer.Numbered.{model_id, tool_id}
use agent_len.Storage.Distinct.{Distinct}
use agent_len.Storage.Sessions.{SessionRow}
use agent_len.Storage.Calls.{ModelCallRow, ToolCallRow}
use agent_len.Running.References.{CacheKey}
use agent_len.Running.References.{kind_eq}
use agent_len.Running.Rows.{BatchRows, session_rows, model_rows, tool_rows, record_rows, batch_rows}
use agent_len.Running.Rows.{normalize_batch, reference_key, resolved_id}

Rising-away : (x low high : ℕ) (ns : List ℕ) → x < low → Rising low ns high → contains x ns ≡ false
Rising-away x low high [] under h = refl
Rising-away x low high (n ∷ ns) under h = ground (
  arith,
  h.0,
  under,
  nat_eq.beq_iff n x,
  Rising-away x (suc n) high ns (omega (arith, h.0, under)) h.1,
)

pub Rising-Distinct : (low high : ℕ) (ns : List ℕ) → Rising low ns high → Distinct ns
Rising-Distinct low high [] h = tt
Rising-Distinct low high (n ∷ ns) h =
    (Rising-away n (suc n) high ns (omega arith) h.1, Rising-Distinct (suc n) high ns h.1)

Rising-le : (low high : ℕ) (ns : List ℕ) → Rising low ns high → low ≤ high
Rising-le low high [] h = h
Rising-le low high (n ∷ ns) h = omega (arith, h.0, Rising-le (suc n) high ns h.1)

Rising-widen :
    (low high below above : ℕ) (ns : List ℕ)
    → below ≤ low
    → high ≤ above
    → Rising low ns high
    → Rising below ns above
Rising-widen low high below above [] l u h = omega (arith, h)
Rising-widen low high below above (n ∷ ns) l u h =
    (omega (arith, h.0), Rising-widen (suc n) high (suc n) above ns (omega arith) u h.1)

-- The rows of a batch, whose entities have distinct numbers.
pub record Apart (low high : ℕ) (rows : BatchRows) : Type 0 where
  pub sessions : Rising low (map (λ r. r.entity.id) rows.sessions) high
  pub models : Rising low (map (λ r. r.entity.id) rows.model_calls) high
  pub tools : Rising low (map (λ r. r.entity.id) rows.tool_calls) high

module _ (resolved : Dict CacheKey ℕ) (run raw line : ℕ) where
  session_rows-ids :
      (xs : List Session)
      → map (λ (r : SessionRow). r.entity.id) (session_rows resolved run raw line xs).0
        ≡ map session_id xs
  unfolding session_rows
  session_rows-ids [] = refl
  session_rows-ids (x ∷ xs) = ap (λ ns. x.id ∷ ns) (session_rows-ids xs)

  model_rows-ids :
      (xs : List ModelCall)
      → map (λ (r : ModelCallRow). r.entity.id) (model_rows resolved run raw line xs).0
        ≡ map model_id xs
  unfolding model_rows
  model_rows-ids [] = refl
  model_rows-ids (x ∷ xs) = ap (λ ns. x.id ∷ ns) (model_rows-ids xs)

  -- Tool calls that are left out leave numbers that still rise.
  tool_rows-Rising :
      (low high : ℕ) (xs : List ToolCall)
      → Rising low (map tool_id xs) high
      → Rising low
          (map (λ (r : ToolCallRow). r.entity.id) (tool_rows resolved run raw line xs).0)
          high
  unfolding tool_rows
  tool_rows-Rising low high [] h = h
  tool_rows-Rising low high (x ∷ xs) h =
      elim (Option-cases
        (resolved_id resolved (reference_key tool (some x.tool_name) none) line rejected).0) [
          | inl missing ↦
              rw (missing, tool_rows)
                (Rising-widen (suc x.id) high low high _ (omega (arith, h.0)) (omega arith)
                  (tool_rows-Rising (suc x.id) high xs h.1))
          | inr (id, is) ↦ rw (is, tool_rows) (h.0, tool_rows-Rising (suc x.id) high xs h.1)
        ]

joined-Rising :
    {A : Type 0} (id_of : A → ℕ) (low middle high : ℕ) (xs ys : List A)
    → Rising low (map id_of xs) middle
    → Rising middle (map id_of ys) high
    → Rising low (map id_of (xs ++ ys)) high
joined-Rising id_of low middle high xs ys h k =
    subst (λ ns. Rising low ns high) (sym (map-append id_of xs ys))
      (Rising-append low middle high (map id_of xs) (map id_of ys) h k)

module _ (resolved : Dict CacheKey ℕ) (run : ℕ) (raw_ids : Dict ℕ ℕ) where
  record_rows-Apart :
      (first last line : ℕ) (result : NormalizationResult)
      → Supplied first last result
      → Apart first last (record_rows resolved run raw_ids (line, result))
  unfolding record_rows
  record_rows-Apart first last line result h =
      let up = Rising-le (suc first) h.middle _ h.models in
      let over = Rising-le h.middle last _ h.tools in
      elim (Option-cases (lookup line raw_ids)) [
        | inl gone ↦
            rw (gone, record_rows)
              (record {
                sessions = omega (arith, up, over);
                models = omega (arith, up, over);
                tools = omega (arith, up, over);
              })
        | inr (raw, is) ↦
            rw (is, record_rows)
              (record {
                sessions =
                    subst (λ ns. Rising first ns last)
                      (sym (session_rows-ids resolved run raw line result.sessions))
                      (Rising-widen first (suc first) first last _ (omega arith)
                        (omega (arith, up, over)) h.sessions);
                models =
                    subst (λ ns. Rising first ns last)
                      (sym (model_rows-ids resolved run raw line result.model_calls))
                      (Rising-widen (suc first) h.middle first last _ (omega arith) over h.models);
                tools = Rising-widen h.middle last first last _ (omega (arith, up)) (omega arith) (
                    tool_rows-Rising resolved run raw line h.middle last result.tool_calls h.tools);
              })
      ]

  pub batch_rows-Apart :
      (py : Python) (mapping : Mapping) (source line next : ℕ) (batch : List Members)
      (normalised : List (ℕ × NormalizationResult)) (last : ℕ)
      → normalize_batch py mapping source line next batch ≡ ok (normalised, last)
      → Apart next last (batch_rows resolved run raw_ids normalised)
  unfolding normalize_batch batch_rows
  batch_rows-Apart py mapping source line next [] normalised last ran =
      let returned = ok-injective ran in
      subst
        (λ (r : List (ℕ × NormalizationResult) × ℕ).
          Apart next r.1 (batch_rows resolved run raw_ids r.0))
        returned (record { sessions = omega arith; models = omega arith; tools = omega arith })
  batch_rows-Apart py mapping source line next (raw ∷ batch) normalised last ran =
      let ((result, after), one, r1) =
        >>=-eq-ok (normalize py mapping (obj raw) source (some line) next) _ ran in
      let ((rest, end_id), more, r2) =
        >>=-eq-ok (normalize_batch py mapping source (suc line) after batch) _ r1 in
      let a =
        record_rows-Apart next after line result
          (normalize-Supplied py mapping (obj raw) source (some line) next one).0 in
      let b = batch_rows-Apart py mapping source (suc line) after batch rest end_id more in
      subst
        (λ (r : List (ℕ × NormalizationResult) × ℕ).
          Apart next r.1 (batch_rows resolved run raw_ids r.0))
        (ok-injective r2)
        (record {
          sessions =
              joined-Rising (λ (r : SessionRow). r.entity.id) next after end_id _ _ a.sessions
                b.sessions;
          models =
              joined-Rising (λ (r : ModelCallRow). r.entity.id) next after end_id _ _ a.models
                b.models;
          tools =
              joined-Rising (λ (r : ToolCallRow). r.entity.id) next after end_id _ _ a.tools
                b.tools;
        })
