-- ===== src/Error.antt =====
-- src/error.rs, and the error types of src/signing.rs that it wraps.
-- A formatted message is its format string with the numbers that it shows.
use rust_web.Prelude.{ℕ, String, List, Option, none, some, ◌≡◌, refl, ◌⊎◌, inl, inr}
use rust_web.Rpc.{RpcError}

pub data Message : Type 0 where
  text : String → Message
  format : String → List ℕ → Message
  -- a format string with the text of a foreign error or value
  quote : String → String → Message

-- enum TransportError
pub data TransportError : Type 0 where
  code : ℕ → TransportError
  message : Message → TransportError

-- enum SigningError
pub data SigningError : Type 0 where
  invalid_message : SigningError
  invalid_chain_id : SigningError
  unsupported_transaction_type : ℕ → SigningError
  invalid_recovery_id : SigningError
  invalid_signature : SigningError

-- enum RecoveryError
pub data RecoveryError : Type 0 where
  invalid_message : RecoveryError
  invalid_signature : RecoveryError

-- std::io::Error, by its kind and its text, which are what the source reads.
pub record IoError : Type 0 where
  pub kind : String
  pub text : String

-- enum Error
pub data Error : Type 0 where
  unreachable : Error
  decoder : Message → Error
  invalid_response : Message → Error
  transport : TransportError → Error
  rpc : RpcError → Error
  io : IoError → Error
  recovery : RecoveryError → Error
  signing : SigningError → Error
  internal : Error
  revert : Message → Error

-- What `source` exposes as the cause of an error.
pub data Source : Type 0 where
  rpc : RpcError → Source
  io : IoError → Source
  recovery : RecoveryError → Source
  signing : SigningError → Source

-- impl std::error::Error for Error
pub source : Error → Option Source
source unreachable = none
source (decoder s) = none
source (invalid_response s) = none
source (transport e) = none
source internal = none
source (revert s) = none
source (rpc e) = some (Source.rpc e)
source (io e) = some (Source.io e)
source (recovery e) = some (Source.recovery e)
source (signing e) = some (Source.signing e)

-- IoError::new(e.kind(), e.to_string())
abbrev rebuild : IoError → IoError
rebuild e = record { kind = e.kind; text = e.text }

-- impl Clone for Error
unfoldable pub clone : Error → Error
clone unreachable = unreachable
clone (decoder s) = decoder s
clone (invalid_response s) = invalid_response s
clone (transport s) = transport s
clone (rpc e) = rpc e
clone (io e) = io (rebuild e)
clone (recovery e) = recovery e
clone (signing e) = signing e
clone internal = internal
clone (revert s) = revert s

-- The hand-written `clone` returns an error that equals its argument, whichever kind it is.
pub clone_lem : (e : Error) → clone e ≡ e
unfolding clone
clone_lem unreachable = refl
clone_lem _ = refl

-- error::Result
pub data Result {ℓ} (A : Type ℓ) : Type ℓ where
  err : Error → Result A
  ok : A → Result A

-- The operator `?`, as the bind of do blocks.
infixl 5 ◌>>=◌
abbrev pub ◌>>=◌ {ℓ κ} : {A : Type ℓ} {B : Type κ} → Result A → (A → Result B) → Result B
err e >>= rest = err e
ok value >>= rest = rest value

-- Option::ok_or
abbrev pub ok_or {ℓ} : {A : Type ℓ} → Option A → Error → Result A
ok_or (some a) e = ok a
ok_or none e = err e

-- Where a chain ends well, its first step did, with a value from which the rest ends well.
pub bind-ok :
    {A B : Type 0} (first : Result A) (rest : A → Result B) {end : B}
    → (first >>= rest) ≡ ok end
    → (value : A) × (first ≡ ok value) × (rest value ≡ ok end)
bind-ok (err e) rest h = cc
bind-ok (ok value) rest h = (value, refl, h)

-- To split on a computed result and keep the equation.
pub Result-cases {ℓ} :
    {A : Type ℓ} (r : Result A) → ((a : A) × (r ≡ ok a)) ⊎ ((e : Error) × (r ≡ err e))
Result-cases (ok a) = inl (a, refl)
Result-cases (err e) = inr (e, refl)

pub ok_or-eq-ok {ℓ} :
    {A : Type ℓ} (o : Option A) (e : Error) {a : A} → ok_or o e ≡ ok a → o ≡ some a
ok_or-eq-ok none e h = cc
ok_or-eq-ok (some x) e h = cc

pub ok-injective {ℓ} : {A : Type ℓ} {a b : A} → ok a ≡ ok b → a ≡ b
ok-injective h = cc
