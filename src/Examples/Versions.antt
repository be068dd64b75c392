-- ===== src/Examples/Versions.antt =====
-- A mapping in its first version gets a second.
use agent_len.Base.{ℕ, ◌≡◌, refl, inl, inr, ap, sym, ◌∙◌, String, none, List, [], ◌∷◌, ok, arith}
use agent_len.JsonPath.{ident_start, ident_part}
use agent_len.Mapping.{target_field_types}
use agent_len.Mappings.{StoredMapping, Library, add_version}
use agent_len.Mappings.Versions.{IsVersioned, Listed, add_version-IsVersioned}
use agent_len.Validator.{validate}
use agent_len.Examples.Records.{plain}
use agent_len.Examples.Documents.{document}

abbrev row : ℕ → ℕ → String → StoredMapping
row id version status = record {
  id = id;
  data_source_id = 7;
  name = "tools";
  version = version;
  source_format = "jsonl";
  entities = (document "trim").entities;
  status = status;
}

abbrev rows : List StoredMapping
rows = row 2 1 "active" ∷ []

abbrev library : Library
library = record { data_sources = 7 ∷ []; mappings = rows; next_id = 3 }

abbrev grown : Library
grown = record {
  data_sources = 7 ∷ [];
  mappings = row 2 1 "superseded" ∷ row 3 2 "active" ∷ [];
  next_id = 4;
}

only_row : (r : StoredMapping) → Listed r rows → (r.version ≡ 1) × (r.id ≡ 2)
only_row r (inl e) =
    (sym (ap (λ (x : StoredMapping). x.version) e), sym (ap (λ (x : StoredMapping). x.id) e))
only_row r (inr h) = elim h [ ]

rows-IsVersioned : IsVersioned rows
rows-IsVersioned = record {
  highest = λ r s hr hs key active. omega (arith, (only_row r hr).0, (only_row s hs).0);
  unique = λ r s hr hs key same. (only_row r hr).1 ∙ sym (only_row s hs).1;
}

added : add_version plain (document "trim") none 2 library ≡ ok (3, grown)
unfolding add_version validate ident_start ident_part target_field_types
added = refl

add_version-IsVersioned_example : IsVersioned grown.mappings
add_version-IsVersioned_example =
    add_version-IsVersioned plain (document "trim") none 2 library rows-IsVersioned added
