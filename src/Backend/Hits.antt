-- ===== src/Backend/Hits.antt =====
-- `MatchLine`, `SearchHit` and `dedup_hits` of src/backend.rs. `F` stands for `f64`.
use grepmesh.Prelude.{ℕ, Option, String, List}

pub record MatchLine : Type 0 where
  pub line_number : ℕ
  pub text : String

pub record SearchHit (F : Type 0) : Type 0 where
  pub score : Option F
  pub size : Option ℕ
  pub modified_ms : Option ℕ
  pub created_ms : Option ℕ
  pub host_id : String
  pub source_host : Option String
  pub path : String
  pub line_number : ℕ
  pub context : List MatchLine
  pub text : String
  pub column : ℕ
