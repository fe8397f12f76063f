-- ===== src/Jobs/Result.antt =====
-- The errors of src/jobs.rs, and the `Result` of its fallible functions. `panicked` stands for a
-- panic of `remove(0)` on an empty vector.
use grepmesh.Prelude.{String}

pub data Error : Type 0 where
  invalid_job_id : String → Error
  invalid_cursor : String → Error
  artifact_too_large : Error
  not_encodable : Error
  no_handle : Error
  io : Error
  panicked : Error

pub data Result {ℓ} (A : Type ℓ) : Type ℓ where
  ok : A → Result A
  err : Error → Result A

infixl 5 ◌>>=◌
abbrev pub ◌>>=◌ {ℓ κ} : {A : Type ℓ} {B : Type κ} → Result A → (A → Result B) → Result B
ok a >>= f = f a
err e >>= f = err e
