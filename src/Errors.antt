-- ===== src/Errors.antt =====
-- Python's exceptions as values, and the transactions of `_open_connection` in app/database.py.
use blackbear_edge_bridge.Prelude.{ℕ, String, ◌≡◌, refl}

pub data Error : Type 0 where
  -- ValueError
  unsupported_status : String → Error
  message_not_found : ℕ → Error
  hash_not_found : String → Error
  request_not_found : String → Error
  negative_retention : Error
  -- OverflowError of a date before the first year
  date_overflow : Error
  -- sqlite3.OperationalError, by its text
  database_error : String → Error
  -- sqlite3.IntegrityError
  integrity_error : Error
  -- JSONDecodeError of a stored body
  malformed_body : Error
  -- an exception of a call of Odoo, by its text
  xmlrpc_error : String → Error
  -- TypeError of json.dumps
  not_serializable : Error

pub data Result {ℓ} (A : Type ℓ) : Type ℓ where
  ok : A → Result A
  raise : Error → Result A

-- COMMIT when the block ends, ROLLBACK to the state before it when it raises.
abbrev pub end_transaction {ℓ κ} : {S : Type ℓ} {A : Type κ} → S → Result A × S → Result A × S
end_transaction before (ok a, after) = (ok a, after)
end_transaction before (raise e, after) = (raise e, before)

abbrev pub transaction {ℓ κ} : {S : Type ℓ} {A : Type κ} → (S → Result A × S) → S → Result A × S
transaction body s = end_transaction s (body s)

-- A check that accepts with a value, or rejects with an error of its own.
pub data Checked {ℓ κ} (E : Type ℓ) (A : Type κ) : Type (ℓ ⊔ κ) where
  accept : A → Checked E A
  reject : E → Checked E A

infixl 5 ◌>>=◌
abbrev pub ◌>>=◌ {ℓ κ μ} :
    {E : Type ℓ} {A : Type κ} {B : Type μ} → Checked E A → (A → Checked E B) → Checked E B
accept a >>= f = f a
reject e >>= f = reject e

pub >>=-eq-accept {ℓ κ μ} :
    {E : Type ℓ} {A : Type κ} {B : Type μ} (m : Checked E A) (f : A → Checked E B) {b : B}
    → (m >>= f) ≡ accept b
    → (a : A) × (m ≡ accept a) × (f a ≡ accept b)
>>=-eq-accept (accept a) f h = (a, refl, h)
>>=-eq-accept (reject e) f h = cc
