-- ===== src/Errors.antt =====
-- exceptions.py: the errors as values, and the methods that change state and may raise them.
use dj_hyperview.Prelude.{Text}

-- The reason of a `SourceUnavailable`.
pub data Reason : Type 0 where
  backend_failure invalid_alias unsupported_backend invalid_payload : Reason
  invalid_resolved_template read_failed : Reason
  alias_unavailable app_unavailable query_failed : Reason

pub data Error : Type 0 where
  invalid_template_name : Error
  template_not_found : Text → Error
  template_validation : Text → Error
  source_unavailable : Text → Reason → Error
  value_error : Error
  configuration_error : Error
  publication_conflict : Error
  -- Django's errors
  validation_error : Error
  integrity_error : Error
  database_error : Error
  -- `pop` of an empty list
  index_error : Error

pub data Result {ℓ} (A : Type ℓ) : Type ℓ where
  ok : A → Result A
  err : Error → Result A

-- A method over the state `S`. What was written before a raise stays written.
abbrev pub Exec {ℓ} : Type ℓ → Type ℓ → Type ℓ
Exec S A = S → Result A × S

module _ {ℓ} {S A : Type ℓ} where
  abbrev pub pure : A → Exec S A
  pure a s = (ok a, s)

  abbrev pub raise : Error → Exec S A
  raise e s = (err e, s)

  abbrev pub lift : Result A → Exec S A
  lift r s = (r, s)

module _ {ℓ} {S A B : Type ℓ} where
  abbrev pub continue : Result A → (A → Exec S B) → Exec S B
  continue (ok a) f s = f a s
  continue (err e) f s = (err e, s)

  infixl 10 ◌>>=◌ ◌>>◌
  abbrev pub ◌>>=◌ : Exec S A → (A → Exec S B) → Exec S B
  ◌>>=◌ m f s = let (r, s') = m s in continue r f s'

  abbrev pub ◌>>◌ : Exec S A → Exec S B → Exec S B
  m >> n = m >>= λ _. n
