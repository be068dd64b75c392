-- ===== src/Imports/Create/Guarded.antt =====
-- What a created import guarantees: src/agentlen/application/use_cases/create_import.py.
use mathlib.Core.Path.{subst}
use agent_len.Base.{
  require, ensure, require-ok, ensure-ok, ℕ, suc, ◌<◌, ◌≡◌, ◌≢◌, inl, inr, refl, ap, sym, true,
  false,
}
use agent_len.Base.{◌||◌, some, List, [], ◌∷◌, ◌++◌, ok, arith, All}
use agent_len.Base.{
  All-append, ◌==◌, nat_eq, nat_eq_iff, string_eq, contains, Bool-cases, >>=-eq-ok, ok-injective,
}
use agent_len.Jobs.{ImportRun, find_run}
use agent_len.Jobs.Claim.{Has}
use agent_len.Imports.Create.{
  FileUpload, MappingRow, Tables, no_data_source, no_file_upload, no_mapping,
  mapping_source_mismatch, mapping_not_active, mapping_format_mismatch, is_blocking, find_file,
  find_mapping,
}
use agent_len.Imports.Create.{import_run_ids, blocks, look_at, check_not_already_run}
use agent_len.Imports.Create.{new_run, create_import}

abbrev pub Distinct : List ImportRun → Type 0
Distinct [] = Unit
Distinct (r ∷ runs) = All (λ s. s.id ≢ r.id) runs × Distinct runs

-- Two runs of one file with one mapping, both pending, running or succeeded.
abbrev pub Twins : ImportRun → ImportRun → Type 0
Twins r s =
    (r.file_upload_id ≡ s.file_upload_id)
    × (r.mapping_id ≡ s.mapping_id)
    × (is_blocking r.status ≡ true)
    × (is_blocking s.status ≡ true)

abbrev pub NoTwins : List ImportRun → Type 0
NoTwins [] = Unit
NoTwins (r ∷ runs) = All (λ s. ¬ Twins r s) runs × NoTwins runs

pub record IsSound (t : Tables) : Type 0 where
  pub below : All (λ r. r.id < t.next_run_id) t.runs
  pub distinct : Distinct t.runs
  pub no_twins : NoTwins t.runs

other_id :
    (r s : ImportRun) (runs : List ImportRun)
    → All (λ s. s.id ≢ r.id) runs
    → Has s runs
    → s.id ≢ r.id
other_id r s [] h there = elim there [ ]
other_id r s (x ∷ runs) h (inl e) = subst (λ (y : ImportRun). y.id ≢ r.id) e h.0
other_id r s (x ∷ runs) h (inr there) = other_id r s runs h.1 there

find_run-Has :
    (r : ImportRun) (runs : List ImportRun)
    → Distinct runs
    → Has r runs
    → find_run r.id runs ≡ some r
find_run-Has r [] d h = elim h [ ]
find_run-Has r (x ∷ runs) d (inl e) = ground (arith, ap (λ (y : ImportRun). y.id) e)
find_run-Has r (x ∷ runs) d (inr h) =
    ground (arith, find_run-Has r runs d.1 h, other_id x r runs d.0 h)

-- A check that passes has looked at every run of the file.
unblocked :
    (ids : List ℕ) (mapping : ℕ) (runs : List ImportRun)
    → check_not_already_run ids mapping runs ≡ ok tt
    → (r : ImportRun) → find_run r.id runs ≡ some r
    → contains r.id ids ≡ true
    → blocks mapping r ≡ false
unfolding check_not_already_run
unblocked [] mapping runs h r at there = cc
unblocked (id ∷ ids) mapping runs h r at there =
    let (u, first, rest) =
      >>=-eq-ok (look_at mapping (find_run id runs)) (λ _. check_not_already_run ids mapping runs)
        h in
    elim (Bool-cases (id == r.id)) [
      | inl same ↦ ground (arith, first, ap (λ k. find_run k runs) ((nat_eq_iff id r.id).0 same))
      | inr differ ↦ unblocked ids mapping runs rest r at (ground (arith, there, differ))
    ]

contains-append :
    (a : ℕ) (xs ys : List ℕ) → contains a (xs ++ ys) ≡ (contains a xs || contains a ys)
contains-append a [] ys = refl
contains-append a (x ∷ xs) ys = ground (arith, contains-append a xs ys)

listed-id :
    (file : ℕ) (runs : List ImportRun) (r : ImportRun)
    → Has r runs
    → r.file_upload_id ≡ file
    → contains r.id (import_run_ids file runs) ≡ true
unfolding import_run_ids
listed-id file [] r h e = elim h [ ]
listed-id file (x ∷ runs) r (inl same) e = ground (
  arith,
  ap (λ (y : ImportRun). y.id) same,
  ap (λ (y : ImportRun). y.file_upload_id) same,
  contains-append r.id (import_run_ids file runs) (x.id ∷ []),
)
listed-id file (x ∷ runs) r (inr h) e =
    ground (
      arith,
      listed-id file runs r h e,
      contains-append r.id (import_run_ids file runs) (x.id ∷ []),
    )

below-append :
    (n : ℕ) (runs : List ImportRun) (r : ImportRun)
    → All (λ s. s.id < n) runs
    → r.id ≡ n
    → All (λ s. s.id < suc n) (runs ++ r ∷ [])
below-append n [] r h e = (omega arith, tt)
below-append n (x ∷ runs) r h e = (omega arith, below-append n runs r h.1 e)

Distinct-append :
    (n : ℕ) (runs : List ImportRun) (r : ImportRun)
    → All (λ s. s.id < n) runs
    → r.id ≡ n
    → Distinct runs
    → Distinct (runs ++ r ∷ [])
Distinct-append n [] r h e d = (tt, tt)
Distinct-append n (x ∷ runs) r h e d = (
  All-append (λ s. s.id ≢ x.id) runs (r ∷ []) d.0 ((λ same. omega arith), tt),
  Distinct-append n runs r h.1 e d.1,
)

NoTwins-append :
    (runs : List ImportRun) (r : ImportRun)
    → ((s : ImportRun) → Has s runs → ¬ Twins s r)
    → NoTwins runs
    → NoTwins (runs ++ r ∷ [])
NoTwins-append [] r h d = (tt, tt)
NoTwins-append (x ∷ runs) r h d = (
  All-append (λ s. ¬ Twins x s) runs (r ∷ []) d.0 (h x (inl refl), tt),
  NoTwins-append runs r (λ s there. h s (inr there)) d.1,
)

no_twin_of_new :
    (t : Tables) (source file mapping now : ℕ)
    → IsSound t
    → check_not_already_run (import_run_ids file t.runs) mapping t.runs ≡ ok tt
    → (s : ImportRun) → Has s t.runs
    → ¬ Twins s (new_run t.next_run_id source file mapping now)
no_twin_of_new t source file mapping now sound clear s there twins =
    let free =
      unblocked (import_run_ids file t.runs) mapping t.runs clear s
        (find_run-Has s t.runs sound.distinct there) (listed-id file t.runs s there twins.0) in
    ground (arith, free, twins.1, twins.2)

-- What the guards of a request have established when it succeeds.
pub record Accepted (source file mapping : ℕ) (t : Tables) : Type 0 where
  pub upload : FileUpload
  pub row : MappingRow
  pub source_known : contains source t.data_sources ≡ true
  pub file_found : find_file file t.file_uploads ≡ some upload
  pub mapping_found : find_mapping mapping t.mappings ≡ some row
  pub same_source : row.data_source_id ≡ source
  pub active : row.status ≡ "active"
  pub same_format : row.source_format ≡ upload.format
  pub not_yet_run : check_not_already_run (import_run_ids file t.runs) mapping t.runs ≡ ok tt

create_import-Accepted :
    (source file mapping now : ℕ) (t : Tables) {id : ℕ} {t' : Tables}
    → create_import source file mapping now t ≡ ok (id, t')
    → Accepted source file mapping t
      × (id ≡ t.next_run_id)
      × (t' ≡ record t {
        runs = t.runs ++ new_run t.next_run_id source file mapping now ∷ [];
        next_run_id = suc t.next_run_id;
      })
unfolding create_import
create_import-Accepted source file mapping now t {id} {t'} h =
    let (_, known, h1) = >>=-eq-ok (ensure (contains source t.data_sources) no_data_source) _ h in
    let (upload, file_found, h2) =
      >>=-eq-ok (require no_file_upload (find_file file t.file_uploads)) _ h1 in
    let (row, row_found, h3) =
      >>=-eq-ok (require no_mapping (find_mapping mapping t.mappings)) _ h2 in
    let (_, same_source, h4) =
      >>=-eq-ok (ensure (row.data_source_id == source) mapping_source_mismatch) _ h3 in
    let (_, active, h5) = >>=-eq-ok (ensure (row.status == "active") mapping_not_active) _ h4 in
    let (_, format, h6) =
      >>=-eq-ok (ensure (row.source_format == upload.format) mapping_format_mismatch) _ h5 in
    let (_, clear, h7) =
      >>=-eq-ok (check_not_already_run (import_run_ids file t.runs) mapping t.runs) _ h6 in
    let pair = ok-injective h7 in
    (
      record {
        upload = upload;
        row = row;
        source_known = ensure-ok _ _ known;
        file_found = require-ok _ _ file_found;
        mapping_found = require-ok _ _ row_found;
        same_source = (nat_eq_iff _ _).0 (ensure-ok _ _ same_source);
        active = (string_eq.beq_iff _ _).0 (ensure-ok _ _ active);
        same_format = (string_eq.beq_iff _ _).0 (ensure-ok _ _ format);
        not_yet_run = clear;
      },
      ap (λ p. p.0) (sym pair),
      ap (λ p. p.1) (sym pair),
    )

keep-IsSound :
    (t : Tables) (source file mapping now : ℕ)
    → IsSound t
    → Accepted source file mapping t
    → IsSound (record t {
      runs = t.runs ++ new_run t.next_run_id source file mapping now ∷ [];
      next_run_id = suc t.next_run_id;
    })
keep-IsSound t source file mapping now sound a =
    let r = new_run t.next_run_id source file mapping now in
    record {
      below = below-append t.next_run_id t.runs r sound.below refl;
      distinct = Distinct-append t.next_run_id t.runs r sound.below refl sound.distinct;
      no_twins =
          NoTwins-append t.runs r (no_twin_of_new t source file mapping now sound a.not_yet_run)
            sound.no_twins;
    }

-- When a request succeeds, its source, file and mapping exist, the mapping is active, of the same
-- source and for the file's format, and no run of the file blocks it. From tables with distinct ids
-- below the next one and no two blocking runs of one file with one mapping, it leads to such tables.
pub create_import-IsSound :
    (source file mapping now : ℕ) (t : Tables) {id : ℕ} {t' : Tables}
    → IsSound t
    → create_import source file mapping now t ≡ ok (id, t')
    → Accepted source file mapping t × IsSound t'
create_import-IsSound source file mapping now t {id} {t'} sound h =
    let (a, _, e) = create_import-Accepted source file mapping now t h in
    (a, subst IsSound (sym e) (keep-IsSound t source file mapping now sound a))
