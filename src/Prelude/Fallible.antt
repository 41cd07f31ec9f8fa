-- ===== src/Prelude/Fallible.antt =====
-- What a Go function returns: a value, an error, or a panic of the runtime. An error is known by
-- the check that made it; the text and the wrapping (`fmt.Errorf("…: %w", err)`) are not modelled.
use mathlib.Core.Path.{◌≡◌, refl}

pub data Error : Type 0 where
  unsupported_type type_mismatch empty_slice short_value : Error
  unknown_compression codec_failed unexpected_eof : Error
  short_footer bad_magic short_file read_failed eof write_failed : Error
  length_mismatch zero_norm unknown_metric : Error
  column_not_found not_vector_column bad_dimension : Error
  field_not_found data_file_not_found canceled : Error
  invalid_length not_exist : Error
  empty_vectors not_built : Error
  no_batches schema_mismatch cannot_merge no_manifest field_exists : Error
  no_manifests version_conflict bad_version bad_manifest : Error
  bad_config unknown_backend not_implemented : Error

pub data Result {ℓ} (A : Type ℓ) : Type ℓ where
  panic : Result A
  err : Error → Result A
  ok : A → Result A

-- The next call runs only where the last one returned a value.
infixl 5 ◌>>=◌ ◌>>◌
abbrev pub ◌>>=◌ {κ ℓ} : {B : Type κ} {A : Type ℓ} → Result B → (B → Result A) → Result A
panic >>= next = panic
err why >>= next = err why
ok b >>= next = next b

abbrev pub ◌>>◌ {ℓ} : {A : Type ℓ} → Result (Unit {0}) → Result A → Result A
first >> last = first >>= λ _. last

-- Where a chain of calls returned a value, so did its first call, and so did the rest from there.
pub >>=-eq-ok {κ ℓ} :
    {B : Type κ} {A : Type ℓ} (first : Result B) (next : B → Result A) {a : A}
    → (first >>= next) ≡ ok a
    → (b : B) × (first ≡ ok b) × (next b ≡ ok a)
>>=-eq-ok panic next e = cc
>>=-eq-ok (err why) next e = cc
>>=-eq-ok (ok b) next e = (b, refl, e)

pub ok-injective {ℓ} : {A : Type ℓ} {x y : A} → ok x ≡ ok y → x ≡ y
ok-injective e = cc
