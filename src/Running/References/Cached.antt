-- ===== src/Running/References/Cached.antt =====
-- What the cache of src/agentlen/application/use_cases/resolve_references.py gives.
use agent_len.Base.{ℕ, ◌≡◌, refl, ap, ◌∙◌, sym, inl, inr, true}
use agent_len.Base.{String, none, some, List, [], ◌∷◌, All, string_eq}
use agent_len.Base.{pair_eq, list_eq, ok, ok-injective, >>=-eq-ok}
use agent_len.Base.{Option-cases}
use agent_len.Base.Dict.{
  Dict, lookup, insert, lookup-insert, Extends, Extends-insert, insert-Extends,
}
use mathlib.Core.Path.{subst}
use mathlib.Core.Option.{some-injective}
use agent_len.Base.{pair_beq_iff}
use agent_len.Running.References.{after_asking}
use agent_len.Engine.Operators.{Run}
use agent_len.Normalizer.Entities.{ReferenceKind, ReferenceRequest}
use agent_len.Storage.Candidates.{is_present}
use agent_len.Running.References.{
  CacheKey, Resolution, request_key, kind_eq, resolve_one, resolve_all,
}
use agent_len.Running.References.{execute, to_dict}

-- Every id given is the one in the cache.
abbrev pub Agrees : {S : Type 0} → Resolution S → Type 0
Agrees r = Extends r.resolved r.cache

-- What a round makes of a request.
record Step {S : Type 0} (key : CacheKey) (r next : Resolution S) : Type 0 where
  agrees : Agrees next
  cached : Extends r.cache next.cache
  given : Extends r.resolved next.resolved
  here : is_present (lookup key next.resolved) ≡ true

here_lookup :
    (key : CacheKey) (id : ℕ) (d : Dict CacheKey ℕ) → lookup key (insert key id d) ≡ some id
here_lookup key id d = lookup-insert key key id d ∙ rw ((pair_beq_iff key key).1 refl) refl

module _ {S : Type 0} (key : CacheKey) (id : ℕ) where
  cached-Step :
      (r : Resolution S)
      → Agrees r
      → lookup key r.cache ≡ some id
      → Step key r (record r { resolved = insert key id r.resolved })
  cached-Step r agrees is = record {
    agrees = insert-Extends key id r.resolved r.cache is agrees;
    cached = λ k v h. h;
    given =
        Extends-insert key id r.resolved (λ w h. some-injective w id (sym (agrees key w h) ∙ is));
    here = ap is_present (here_lookup key id r.resolved);
  }

  asked-Step :
      (r : Resolution S) (state : S)
      → Agrees r
      → lookup key r.cache ≡ none
      → Step key r (record {
        resolved = insert key id r.resolved;
        cache = insert key id r.cache;
        state = state;
      })
  asked-Step r state agrees missing =
      let grows = Extends-insert key id r.cache (λ w h. absurd (cc (missing, h))) in
      record {
        agrees =
            insert-Extends key id r.resolved (insert key id r.cache) (here_lookup key id r.cache)
              (λ k v h. grows k v (agrees k v h));
        cached = grows;
        given = Extends-insert key id r.resolved (λ w h. absurd (cc (missing, agrees key w h)));
        here = ap is_present (here_lookup key id r.resolved);
      }

kept_some :
    (k : CacheKey) (d more : Dict CacheKey ℕ)
    → Extends d more
    → is_present (lookup k d) ≡ true
    → is_present (lookup k more) ≡ true
kept_some k d more h there = elim (Option-cases (lookup k d)) [
  | inl lost ↦ absurd (cc (lost, there))
  | inr (v, is) ↦ rw (h k v is) refl
]

module _ {S : Type 0}
    (resolve : ReferenceKind → String → Dict String String → S → Run (ℕ × S)) where
  resolve_one-Step :
      (request : ReferenceRequest) (r : Resolution S) {next : Resolution S}
      → Agrees r
      → resolve_one resolve request r ≡ ok next
      → Step (request_key request) r next
  unfolding resolve_one
  resolve_one-Step request r agrees ran =
      elim (Option-cases (lookup (request_key request) r.cache)) [
        | inl missing ↦
            let (found, asked, returned) =
              >>=-eq-ok (resolve request.kind request.name (to_dict [] request.context) r.state)
                (after_asking (request_key request) r) (rw (missing, resolve_one) at ran) in
            subst (Step (request_key request) r) (ok-injective returned)
              (asked-Step (request_key request) found.0 r found.1 agrees missing)
        | inr (id, is) ↦
            subst (Step (request_key request) r) (ok-injective (rw (is, resolve_one) at ran))
              (cached-Step (request_key request) id r agrees is)
      ]

  resolve_all-Given :
      (requests : List ReferenceRequest) (r : Resolution S) {next : Resolution S}
      → Agrees r
      → resolve_all resolve requests r ≡ ok next
      → Agrees next
        × Extends r.cache next.cache
        × Extends r.resolved next.resolved
        × All (λ q. is_present (lookup (request_key q) next.resolved) ≡ true) requests
  unfolding resolve_all
  resolve_all-Given [] r agrees ran =
      subst (λ n. Agrees n × Extends r.cache n.cache × Extends r.resolved n.resolved × Unit)
        (ok-injective ran) (agrees, (λ k v h. h), (λ k v h. h), tt)
  resolve_all-Given (q ∷ requests) r agrees ran =
      let (middle, first, rest) =
        >>=-eq-ok (resolve_one resolve q r) (resolve_all resolve requests) ran in
      let step = resolve_one-Step q r agrees first in
      let (agrees_next, cached, given, all) = resolve_all-Given requests middle step.agrees rest in
      (
        agrees_next,
        (λ k v h. cached k v (step.cached k v h)),
        (λ k v h. given k v (step.given k v h)),
        (kept_some (request_key q) middle.resolved _ given step.here, all),
      )

  -- Requests that are in the cache ask the repository nothing.
  resolve_all-cached :
      (requests : List ReferenceRequest) (r : Resolution S)
      → All (λ q. is_present (lookup (request_key q) r.cache) ≡ true) requests
      → (next : Resolution S) × (resolve_all resolve requests r ≡ ok next)
        × (next.state ≡ r.state)
        × (next.cache ≡ r.cache)
  unfolding resolve_all resolve_one
  resolve_all-cached [] r h = (r, refl, refl, refl)
  resolve_all-cached (q ∷ requests) r h = elim (Option-cases (lookup (request_key q) r.cache)) [
    | inl missing ↦ absurd (cc (missing, h.0))
    | inr (id, is) ↦
        let (next, ran, same, kept) =
          resolve_all-cached requests (record r { resolved = insert (request_key q) id r.resolved })
            h.1 in
        (next, rw (is, resolve_one) ran, same, kept)
  ]

  both :
      (requests : List ReferenceRequest) (r : Resolution S)
      → Agrees r
      → All (λ q. is_present (lookup (request_key q) r.resolved) ≡ true) requests
      → All
          (λ q.
            (id : ℕ) × (lookup (request_key q) r.resolved ≡ some id)
            × (lookup (request_key q) r.cache ≡ some id))
          requests
  both [] r agrees h = tt
  both (q ∷ requests) r agrees h = elim (Option-cases (lookup (request_key q) r.resolved)) [
    | inl lost ↦ absurd (cc (lost, h.0))
    | inr (id, is) ↦ ((id, is, agrees (request_key q) id is), both requests r agrees h.1)
  ]

  in_cache :
      (requests : List ReferenceRequest) (r : Resolution S)
      → Agrees r
      → All (λ q. is_present (lookup (request_key q) r.resolved) ≡ true) requests
      → All (λ q. is_present (lookup (request_key q) r.cache) ≡ true) requests
  in_cache [] r agrees h = tt
  in_cache (q ∷ requests) r agrees h =
      (kept_some (request_key q) r.resolved r.cache agrees h.0, in_cache requests r agrees h.1)

  -- When requests have been resolved, each has an id, the one that the cache holds from then on;
  -- the cache keeps what it held; and resolving them again in the run asks the repository nothing.
  pub execute-cached :
      (requests : List ReferenceRequest) (cache : Dict CacheKey ℕ) (state later : S)
      {r : Resolution S}
      → execute resolve requests cache state ≡ ok r
      → All
          (λ q.
            (id : ℕ) × (lookup (request_key q) r.resolved ≡ some id)
            × (lookup (request_key q) r.cache ≡ some id))
          requests
        × Extends cache r.cache
        × ((again : Resolution S) × (execute resolve requests r.cache later ≡ ok again)
            × (again.state ≡ later)
            × (again.cache ≡ r.cache))
  unfolding execute
  execute-cached requests cache state later {r} ran =
      let (agrees, cached, given, all) =
        resolve_all-Given requests (record { resolved = []; cache = cache; state = state })
          (λ k v h. cc h) ran in
      (
        both requests r agrees all,
        cached,
        resolve_all-cached requests (record { resolved = []; cache = r.cache; state = later })
            (in_cache requests r agrees all),
      )
