-- ===== src/Storage/Referentials.antt =====
-- `SqlAlchemyReferentialRepository` of src/agentlen/infrastructure/persistence/repositories/sql.py over the
-- tables of providers, models, agents, tools and repositories.
pub mod Total
use agent_len.Base.{ℕ, ◌≡◌, refl, ap, ◌∙◌, sym, inl, inr, String, Option, none, some}
use agent_len.Base.{List, [], ◌∷◌, ◌==◌, Eq, nat_eq, string_eq, pair_eq, option_eq}
use agent_len.Base.{ok, err, ◌>>=◌, Bool-cases, Option-cases}
use agent_len.Base.Dict.{Dict, lookup, get_or}
use agent_len.Python.{other_error}
use agent_len.Engine.Operators.{Run}
use agent_len.Normalizer.Entities.{ReferenceKind, agent, provider, model, tool, repository}
use agent_len.Storage.Table.{Stored, Table, find, insert_value, inserted, select_in, IsValid}
use agent_len.Storage.Table.{insert_value-held, insert_value-new, insert_value-IsValid, UniqueKeys}
use agent_len.Storage.Outcome.{stored_id, stored_id-some, stored_id-row}
use agent_len.Storage.Found.{find-insert_value-kept, find-same, find-add}
use agent_len.Base.{contains-one}
use mathlib.Core.Path.{ap₂}
use mathlib.Core.Option.{some-injective}

-- A table of names: a key, and nothing else that an import sets.
abbrev pub Names : Type 0 → Type 0
Names K = Table K (Unit {0})

-- `scalar_one()`
abbrev pub one_id : {K : Type 0} → List (Stored K (Unit {0})) → Run ℕ
one_id [] = err other_error
one_id (r ∷ []) = ok r.id
one_id (r ∷ s ∷ rows) = err other_error

-- `_upsert`
unfoldable pub upsert : {K : Type 0} ⦃e : Eq K⦄ → K → Names K → Run (ℕ × Names K)
unfolding insert_value select_in
upsert k t =
    let done = insert_value (k, tt) t in
    elim done.0 [
      | [] ↦ one_id (select_in (k ∷ []) done.1.rows) >>= λ id. ok (id, done.1)
      | ◌∷◌ created more ↦ ok (created.id, done.1)
    ]

pub record Referentials : Type 0 where
  pub providers : Names String
  pub models : Names (ℕ × String)
  pub agents : Names (String × Option String)
  pub tools : Names String
  pub repositories : Names (String × (String × String))

-- `resolve`
unfoldable pub resolve :
    ReferenceKind → String → Dict String String → Referentials → Run (ℕ × Referentials)
unfolding upsert
resolve model name context t = do
  (provider_id, providers) ← upsert (get_or "provider_name" "unknown" context) t.providers
  (id, models) ← upsert (provider_id, name) t.models
  ok (id, record t { providers = providers; models = models })
resolve repository name context t = do
  (id, repositories) ←
      upsert (get_or "host" "github.com" context, (get_or "owner" "unknown" context, name))
        t.repositories
  ok (id, record t { repositories = repositories })
resolve agent name context t = do
  (id, agents) ← upsert (name, lookup "version" context) t.agents
  ok (id, record t { agents = agents })
resolve provider name context t = do
  (id, providers) ← upsert name t.providers
  ok (id, record t { providers = providers })
resolve tool name context t = do
  (id, tools) ← upsert name t.tools
  ok (id, record t { tools = tools })
