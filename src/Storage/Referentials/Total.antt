-- ===== src/Storage/Referentials/Total.antt =====
-- In valid tables, resolving a name in src/agentlen/infrastructure/persistence/repositories/sql.py raises nothing and
-- gives the id under which the name is stored.
use agent_len.Base.{ℕ, ◌≡◌, refl, ap, ◌∙◌, sym, inl, inr, String, Option, none, some}
use agent_len.Base.{List, [], ◌∷◌, ◌==◌, Eq, nat_eq, string_eq, pair_eq, option_eq}
use agent_len.Base.{ok, Bool-cases, Option-cases}
use agent_len.Base.Dict.{Dict, lookup, get_or}
use agent_len.Normalizer.Entities.{ReferenceKind, agent, provider, model, tool, repository}
use agent_len.Storage.Table.{Stored, find, insert_value, inserted, select_in, IsValid}
use agent_len.Storage.Table.{insert_value-held, insert_value-new, insert_value-IsValid, UniqueKeys}
use agent_len.Storage.Outcome.{stored_id, stored_id-some, stored_id-row}
use agent_len.Storage.Found.{find-insert_value-kept, find-same, find-add}
use agent_len.Base.{contains-one}
use mathlib.Core.Path.{ap₂}
use mathlib.Core.Option.{some-injective}
use agent_len.Storage.Referentials.{Names, upsert, Referentials, resolve}

module _ {K : Type 0} ⦃e : Eq K⦄ where
  absent :
      (k : K) (rows : List (Stored K (Unit {0})))
      → find k rows ≡ none
      → select_in (k ∷ []) rows ≡ []
  unfolding find select_in
  absent k [] h = refl
  absent k (r ∷ rows) h = elim (Bool-cases (r.key == k)) [
    | inl same ↦ absurd (cc (find-same k r rows same, h))
    | inr other ↦
        rw (contains-one r.key k ∙ other) (absent k rows (sym (find-add k r rows other) ∙ h))
  ]

  -- A key held by one row is selected once.
  select_one :
      (k : K) (rows : List (Stored K (Unit {0}))) {r : Stored K (Unit {0})}
      → UniqueKeys rows
      → find k rows ≡ some r
      → select_in (k ∷ []) rows ≡ r ∷ []
  unfolding select_in find
  select_one k [] u h = cc
  select_one k (s ∷ rows) {r} u h = elim (Bool-cases (s.key == k)) [
    | inl same ↦ rw (contains-one s.key k ∙ same) (
        ap₂ ◌∷◌ (some-injective s r (sym (find-same k s rows same) ∙ h))
          (absent k rows (ap (λ i. find i rows) (sym ((e.beq_iff s.key k).0 same)) ∙ u.0)))
    | inr other ↦
        rw (contains-one s.key k ∙ other)
          (select_one k rows u.1 (sym (find-add k s rows other) ∙ h))
  ]

  abbrev pub Kept : Names K → Names K → Type 0
  Kept t after = (j : K) (i : ℕ) → stored_id j t.rows ≡ some i → stored_id j after.rows ≡ some i

  -- What an upsert promises: the key is held under the id returned, what was held still is, and the
  -- table stays valid.
  pub record Upserted (k : K) (t : Names K) (id : ℕ) (after : Names K) : Type 0 where
    pub valid : IsValid after
    pub held : stored_id k after.rows ≡ some id
    pub kept : Kept t after

  stored_id-kept :
      (k : K) (t : Names K) (j : K) {i : ℕ}
      → stored_id j t.rows ≡ some i
      → stored_id j (insert_value (k, tt) t).1.rows ≡ some i
  stored_id-kept k t j h =
      let (r, is, same) = stored_id-row j t.rows h in
      stored_id-some j (insert_value (k, tt) t).1.rows (find-insert_value-kept j (k, tt) t is)
      ∙ ap some same

  -- An upsert into a valid table returns an id.
  pub upsert-Upserted :
      (k : K) (t : Names K)
      → IsValid t
      → (id : ℕ) × (after : Names K) × (upsert k t ≡ ok (id, after)) × Upserted k t id after
  unfolding upsert
  upsert-Upserted k t h = elim (Option-cases (find k t.rows)) [
    | inl free ↦
        let after = (insert_value (k, tt) t).1 in
        (
          t.next_id,
          after,
          rw (upsert, insert_value-new k tt t free, insert_value-new k tt t free) refl,
          record {
            valid = insert_value-IsValid (k, tt) t h;
            held = rw (insert_value-new k tt t free) (
                stored_id-some k (inserted (k, tt) t ∷ t.rows)
                  (find-same k (inserted (k, tt) t) t.rows ((e.beq_iff k k).1 refl)));
            kept = λ j i held. stored_id-kept k t j held;
          },
        )
    | inr (r, is) ↦
        let after = (insert_value (k, tt) t).1 in
        (
          r.id,
          after,
          rw
              (
                upsert,
                insert_value-held k tt t is,
                insert_value-held k tt t is,
                select_one k t.rows h.0 is,
              )
              refl,
          record {
            valid = insert_value-IsValid (k, tt) t h;
            held = stored_id-some k after.rows (find-insert_value-kept k (k, tt) t is);
            kept = λ j i held. stored_id-kept k t j held;
          },
        )
  ]

-- The id that a referential is stored under.
abbrev pub referential_id : ReferenceKind → String → Dict String String → Referentials → Option ℕ
referential_id model name context t =
    elim (stored_id (get_or "provider_name" "unknown" context) t.providers.rows) [
      | none ↦ none
      | some provider_id ↦ stored_id (provider_id, name) t.models.rows
    ]
referential_id repository name context t =
    stored_id (get_or "host" "github.com" context, (get_or "owner" "unknown" context, name))
      t.repositories.rows
referential_id agent name context t = stored_id (name, lookup "version" context) t.agents.rows
referential_id provider name context t = stored_id name t.providers.rows
referential_id tool name context t = stored_id name t.tools.rows

pub record ValidReferentials (t : Referentials) : Type 0 where
  pub providers : IsValid t.providers
  pub models : IsValid t.models
  pub agents : IsValid t.agents
  pub tools : IsValid t.tools
  pub repositories : IsValid t.repositories

abbrev AllKept : Referentials → Referentials → Type 0
AllKept t after =
    (k : ReferenceKind) (n : String) (c : Dict String String) (i : ℕ)
    → referential_id k n c t ≡ some i
    → referential_id k n c after ≡ some i

model-Kept :
    (t after : Referentials)
    → Kept t.providers after.providers
    → Kept t.models after.models
    → (n : String) (c : Dict String String) {i : ℕ} → referential_id model n c t ≡ some i
    → referential_id model n c after ≡ some i
model-Kept t after providers models n c {i} h =
    elim (Option-cases (stored_id (get_or "provider_name" "unknown" c) t.providers.rows)) [
      | inl lost ↦ absurd (cc (rw (lost, referential_id) at h))
      | inr (p, is) ↦
          rw (providers (get_or "provider_name" "unknown" c) p is, referential_id)
            (models (p, n) i (rw (is, referential_id) at h))
    ]

tables-AllKept :
    (t after : Referentials)
    → Kept t.providers after.providers
    → Kept t.models after.models
    → Kept t.agents after.agents
    → Kept t.tools after.tools
    → Kept t.repositories after.repositories
    → AllKept t after
tables-AllKept t after providers models agents tools repositories provider n c i h = providers n i h
tables-AllKept t after providers models agents tools repositories model n c i h =
    model-Kept t after providers models n c h
tables-AllKept t after providers models agents tools repositories agent n c i h =
    agents (n, lookup "version" c) i h
tables-AllKept t after providers models agents tools repositories tool n c i h = tools n i h
tables-AllKept t after providers models agents tools repositories repository n c i h =
    repositories (get_or "host" "github.com" c, (get_or "owner" "unknown" c, n)) i h

-- What resolving promises.
pub record Resolved (kind : ReferenceKind) (name : String) (context : Dict String String)
    (t : Referentials) (id : ℕ) (after : Referentials) : Type 0 where
  pub valid : ValidReferentials after
  pub held : referential_id kind name context after ≡ some id
  pub kept : AllKept t after

-- A name is resolved in valid tables without an error, and its id is that under which it is stored
-- afterwards; whatever was stored before keeps its id.
pub resolve-Resolved :
    (kind : ReferenceKind) (name : String) (context : Dict String String) (t : Referentials)
    → ValidReferentials t
    → (id : ℕ) × (after : Referentials) × (resolve kind name context t ≡ ok (id, after))
      × Resolved kind name context t id after
unfolding resolve
resolve-Resolved provider name context t h =
    let (id, providers, ran, up) = upsert-Upserted name t.providers h.providers in
    let after = record t { providers = providers } in
    (
      id,
      after,
      rw ran refl,
      record {
        valid = record {
          providers = up.valid;
          models = h.models;
          agents = h.agents;
          tools = h.tools;
          repositories = h.repositories;
        };
        held = up.held;
        kept = tables-AllKept t after up.kept (λ j i e. e) (λ j i e. e) (λ j i e. e) (λ j i e. e);
      },
    )
resolve-Resolved model name context t h =
    let (p, providers, first, up) =
      upsert-Upserted (get_or "provider_name" "unknown" context) t.providers h.providers in
    let (id, models, ran, um) = upsert-Upserted (p, name) t.models h.models in
    let after = record t { providers = providers; models = models } in
    (
      id,
      after,
      rw (first, ran) refl,
      record {
        valid = record {
          providers = up.valid;
          models = um.valid;
          agents = h.agents;
          tools = h.tools;
          repositories = h.repositories;
        };
        held = rw (up.held, referential_id) um.held;
        kept = tables-AllKept t after up.kept um.kept (λ j i e. e) (λ j i e. e) (λ j i e. e);
      },
    )
resolve-Resolved agent name context t h =
    let (id, agents, ran, up) =
      upsert-Upserted (name, lookup "version" context) t.agents h.agents in
    let after = record t { agents = agents } in
    (
      id,
      after,
      rw ran refl,
      record {
        valid = record {
          providers = h.providers;
          models = h.models;
          agents = up.valid;
          tools = h.tools;
          repositories = h.repositories;
        };
        held = up.held;
        kept = tables-AllKept t after (λ j i e. e) (λ j i e. e) up.kept (λ j i e. e) (λ j i e. e);
      },
    )
resolve-Resolved tool name context t h =
    let (id, tools, ran, up) = upsert-Upserted name t.tools h.tools in
    let after = record t { tools = tools } in
    (
      id,
      after,
      rw ran refl,
      record {
        valid = record {
          providers = h.providers;
          models = h.models;
          agents = h.agents;
          tools = up.valid;
          repositories = h.repositories;
        };
        held = up.held;
        kept = tables-AllKept t after (λ j i e. e) (λ j i e. e) (λ j i e. e) up.kept (λ j i e. e);
      },
    )
resolve-Resolved repository name context t h =
    let (id, repositories, ran, up) =
      upsert-Upserted (get_or "host" "github.com" context, (get_or "owner" "unknown" context, name))
        t.repositories h.repositories in
    let after = record t { repositories = repositories } in
    (
      id,
      after,
      rw ran refl,
      record {
        valid = record {
          providers = h.providers;
          models = h.models;
          agents = h.agents;
          tools = h.tools;
          repositories = up.valid;
        };
        held = up.held;
        kept = tables-AllKept t after (λ j i e. e) (λ j i e. e) (λ j i e. e) (λ j i e. e) up.kept;
      },
    )
