-- ===== src/Running/References.antt =====
-- src/agentlen/application/use_cases/resolve_references.py: names are resolved through a cache that
-- lives as long as the run.
pub mod Cached
use agent_len.Base.{ℕ, ◌≡◌, refl, ap, ◌∙◌, sym, inl, inr, Bool, true, false, ◌↔◌, ◌||◌}
use agent_len.Base.{
  String, Option, none, some, List, [], ◌∷◌, All, arith, Eq, ◌==◌, nat_eq, string_eq,
}
use agent_len.Base.{pair_eq, list_eq, if◌then◌else◌, ok, err, ◌>>=◌, Bool-cases, Option-cases}
use agent_len.Base.Dict.{Dict, lookup, insert, lookup-insert}
use agent_len.Engine.Operators.{Run}
use agent_len.Normalizer.Entities.{ReferenceKind, ReferenceRequest}
use agent_len.Normalizer.Entities.{agent, provider, model, tool, repository}
use agent_len.Storage.Candidates.{is_present}

-- Kinds are compared as their texts are.
abbrev kind_code : ReferenceKind → ℕ
kind_code agent = 0
kind_code provider = 1
kind_code model = 2
kind_code tool = 3
kind_code repository = 4

abbrev pub kind_beq : ReferenceKind → ReferenceKind → Bool
kind_beq a b = kind_code a == kind_code b

pub kind_beq_iff : (a b : ReferenceKind) → (kind_beq a b ≡ true) ↔ (a ≡ b)
kind_beq_iff a b = ground arith

instance abbrev pub kind_eq : Eq ReferenceKind
kind_eq = record { beq = kind_beq; beq_iff = kind_beq_iff }

-- `(kind, name, context)`
abbrev pub CacheKey : Type 0
CacheKey = ReferenceKind × (String × List (String × String))

abbrev pub request_key : ReferenceRequest → CacheKey
request_key request = (request.kind, (request.name, request.context))

-- `dict(request.context)`
abbrev pub to_dict : Dict String String → List (String × String) → Dict String String
to_dict d [] = d
to_dict d ((k, v) ∷ pairs) = to_dict (insert k v d) pairs

pub record Resolution (S : Type 0) : Type 0 where
  pub resolved : Dict CacheKey ℕ
  pub cache : Dict CacheKey ℕ
  pub state : S

-- `self._cache[key] = ...`, then `resolved[key] = self._cache[key]`
abbrev pub after_asking : {S : Type 0} → CacheKey → Resolution S → ℕ × S → Run (Resolution S)
after_asking key r (id, state) =
    ok
      (record { resolved = insert key id r.resolved; cache = insert key id r.cache; state = state })

-- The repository given, over the state of the database; `None` for a context is read as `{}`.
module _ {S : Type 0}
    (resolve : ReferenceKind → String → Dict String String → S → Run (ℕ × S)) where
  -- One round of the loop over the requests.
  unfoldable pub resolve_one : ReferenceRequest → Resolution S → Run (Resolution S)
  resolve_one request r = elim (lookup (request_key request) r.cache) [
    | some id ↦ ok (record r { resolved = insert (request_key request) id r.resolved })
    | none ↦
        resolve request.kind request.name (to_dict [] request.context) r.state
        >>= after_asking (request_key request) r
  ]

  unfoldable pub resolve_all : List ReferenceRequest → Resolution S → Run (Resolution S)
  unfolding resolve_one
  resolve_all [] r = ok r
  resolve_all (request ∷ requests) r = resolve_one request r >>= λ next. resolve_all requests next

  -- `execute`
  unfoldable pub execute : List ReferenceRequest → Dict CacheKey ℕ → S → Run (Resolution S)
  unfolding resolve_all
  execute requests cache state =
      resolve_all requests (record { resolved = []; cache = cache; state = state })
