-- ===== src/Exceptions.antt =====
-- What a call of the API's services may raise, and how a call ends.
use gem_gdc_emulation_enviro.Prelude.{Text, codes, ℕ, ◌++◌}

pub data Exception : Type 0 where
  -- fastapi's HTTPException: the status code and the detail
  http : ℕ → Text → Exception
  attribute_error : Exception
  -- asyncio.CancelledError, which `except Exception` does not catch
  cancelled_error : Exception
  -- any other exception: the name of its type, and its str()
  other_error : Text → Text → Exception

pub data Outcome {ℓ} (A : Type ℓ) : Type ℓ where
  returned : A → Outcome A
  raised : Exception → Outcome A

abbrev pub status_400_bad_request : ℕ
status_400_bad_request = 400

abbrev pub status_404_not_found : ℕ
status_404_not_found = 404

abbrev pub status_409_conflict : ℕ
status_409_conflict = 409

infixr 65 ◌&◌
abbrev pub ◌&◌ : Text → Text → Text
s & t = s ++ t

-- 'v', as the messages quote a value.
abbrev pub quoted : Text → Text
quoted v = codes "'" & v & codes "'"

infixl 5 ◌>>=◌
abbrev pub ◌>>=◌ {ℓ κ} : {A : Type ℓ} {B : Type κ} → Outcome A → (A → Outcome B) → Outcome B
returned a >>= f = f a
raised e >>= f = raised e

abbrev pub status_502_bad_gateway : ℕ
status_502_bad_gateway = 502

abbrev pub status_503_service_unavailable : ℕ
status_503_service_unavailable = 503
