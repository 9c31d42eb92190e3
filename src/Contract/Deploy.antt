-- ===== src/Contract/Deploy.antt =====
-- src/contract/deploy.rs: the deployment of a contract. Code is a list of characters, by their code
-- points; the linker is listed in the order in which the source takes its libraries.
mod Link
mod Placed
mod Outcome
mod Tests
use rust_web.Prelude.{
  ℕ, zero, suc, ◌+◌, ◌-◌, String, List, [], ◌∷◌, ◌++◌, length, Bool, true, false, ◌&&◌, ltb, ◌==◌,
  Option, none, some, if◌then◌else◌,
}
use rust_web.Error.{Error, text, quote}
use rust_web.Session.{Except, fail, done, Session, ◌>>=◌, give, map_err, continue}
use rust_web.Types.Request.{TransactionRequest}
use rust_web.Contract.Tokens.{Token}
use rust_web.Contract.Abi.{AbiError, invalid_name, DeployError, Abi}
use rust_web.Contract.Call.{Options, Contract, and_then}

-- The bytes of a character in UTF-8.
abbrev pub utf8 : ℕ → ℕ
utf8 c = if ltb c 128 then 1 else if ltb c 2048 then 2 else if ltb c 65536 then 3 else 4

-- str::len
abbrev pub utf8_len : List ℕ → ℕ
utf8_len [] = 0
utf8_len (c ∷ s) = utf8 c + utf8_len s

-- That many times the same character.
abbrev pub repeat : ℕ → ℕ → List ℕ
repeat c zero = []
repeat c (suc n) = c ∷ repeat c n

-- `format!("__{:_<38}", lib)`, whose width counts characters
unfoldable pub placeholder : List ℕ → List ℕ
placeholder lib = b'_' ∷ b'_' ∷ lib ++ repeat b'_' (38 - length lib)

-- What follows a text that begins with the pattern.
unfoldable pub strip_prefix : List ℕ → List ℕ → Option (List ℕ)
strip_prefix [] s = some s
strip_prefix (p ∷ ps) [] = none
strip_prefix (p ∷ ps) (c ∷ cs) = let rest = strip_prefix ps cs in if p == c then rest else none

abbrev replaced : List ℕ → Option (List ℕ) → List ℕ → List ℕ
replaced to (some rest) kept = to ++ rest
replaced to none kept = kept

-- `code.replacen(&pattern, &to, 1)`, for a pattern that is not empty
unfoldable pub replace_first : List ℕ → List ℕ → List ℕ → List ℕ
replace_first pattern to [] = []
replace_first pattern to (c ∷ cs) =
    replaced to (strip_prefix pattern (c ∷ cs)) (c ∷ replace_first pattern to cs)

-- `code.replace("\"", "")`
unfoldable pub remove_quotes : List ℕ → List ℕ
remove_quotes [] = []
remove_quotes (c ∷ cs) = let rest = remove_quotes cs in if c == 34 then rest else c ∷ rest

-- `code.replace("0x", "")`, reading from the left; the first argument says that a 0 was read and is
-- held back.
unfoldable pub remove_0x : Bool → List ℕ → List ℕ
remove_0x true [] = b'0' ∷ []
remove_0x false [] = []
remove_0x true (c ∷ cs) = elim (c == b'x') [
  | true ↦ remove_0x false cs
  | false ↦ b'0' ∷ elim (c == b'0') [ true ↦ remove_0x true cs | false ↦ c ∷ remove_0x false cs ]
]
remove_0x false (c ∷ cs) = elim (c == b'0') [
  | true ↦ remove_0x true cs
  | false ↦ c ∷ remove_0x false cs
]

-- The fix for truffle.
unfoldable pub cleaned : List ℕ → List ℕ
cleaned code = remove_0x false (remove_quotes code)

-- struct Builder
pub record Builder : Type 0 where
  pub abi : Abi
  pub options : Options
  pub linker : List (List ℕ × List ℕ)

abbrev abi_error : String → DeployError
abi_error message = DeployError.abi (invalid_name (text message))

-- The libraries of the linker put into the code, for the text of an address (hex::encode).
unfoldable pub linked :
    (List ℕ → List ℕ) → List (List ℕ × List ℕ) → List ℕ → Except DeployError (List ℕ)
linked encode [] code_hex = done code_hex
linked encode ((lib, address) ∷ linker) code_hex =
    let rest = linked encode linker (replace_first (placeholder lib) (encode address) code_hex) in
    if ltb 38 (utf8_len lib)
    then fail (abi_error "The library name should be under 39 characters.")
    else rest

-- The input of the deployment, from the code and the constructor's parameters.
unfoldable pub input_of : Abi → List ℕ → List Token → Except DeployError (List ℕ)
input_of abi code params = with abi.constructor params
  where
    with :
        Option (List ℕ → List Token → Except AbiError (List ℕ))
        → List Token
        → Except DeployError (List ℕ)
    with none [] = done code
    with none (p ∷ ps) = fail (abi_error "Constructor is not defined in the ABI.")
    with (some encode_input) params = encoded_as (encode_input code params)
      where
        encoded_as : Except AbiError (List ℕ) → Except DeployError (List ℕ)
        encoded_as (fail e) = fail (DeployError.abi e)
        encoded_as (done input) = done input

-- What the source reads of a receipt.
pub record Receipt : Type 0 where
  pub transaction_hash : ℕ
  pub status : Option ℕ
  pub contract_address : Option (List ℕ)

-- `Some(status) if status == 0.into()`
abbrev pub reverted : Option ℕ → Bool
reverted (some status) = status == 0
reverted none = false

abbrev pub located : Abi → ℕ → Option (List ℕ) → Except DeployError Contract
located abi hash (some address) = done (record { address = address; abi = abi })
located abi hash none = fail (DeployError.contract_deployment_failure hash)

-- The contract of a receipt.
unfoldable pub deployed : Abi → Receipt → Except DeployError Contract
deployed abi receipt =
    if reverted receipt.status
    then fail (DeployError.contract_deployment_failure receipt.transaction_hash)
    else located abi receipt.transaction_hash receipt.contract_address

abbrev pub request_of : List ℕ → Options → List ℕ → TransactionRequest
request_of from options input = record {
  from = from;
  to = none;
  gas = options.gas;
  gas_price = options.gas_price;
  value = options.value;
  nonce = options.nonce;
  tx_data = some input;
  condition = options.condition;
  transaction_type = options.transaction_type;
  access_list = options.access_list;
  max_fee_per_gas = options.max_fee_per_gas;
  max_priority_fee_per_gas = options.max_priority_fee_per_gas;
}

-- hex::decode, and the error for the text of its error
abbrev pub decoded_hex : Except String (List ℕ) → Except DeployError (List ℕ)
decoded_hex (done code) = done code
decoded_hex (fail e) = fail (DeployError.abi (invalid_name (quote "hex decode error: {}" e)))

-- The input of the transaction, before anything is sent.
unfoldable pub prepared :
    (List ℕ → List ℕ)
    → (List ℕ → Except String (List ℕ))
    → Builder
    → List ℕ
    → List Token
    → Except DeployError (List ℕ)
prepared encode decode builder code params =
    and_then (linked encode builder.linker code) λ code_hex.
      and_then (decoded_hex (decode (cleaned code_hex))) λ bytes. input_of builder.abi bytes params

-- Sending the transaction, and what its receipt comes to.
abbrev pub deploy_input :
    {S : Type 0}
    → Builder
    → List ℕ
    → (TransactionRequest → Session S Error Receipt)
    → List ℕ
    → Session S DeployError Contract
deploy_input builder from send input = do
  receipt ← map_err DeployError.api (send (request_of from builder.options input))
  give (deployed builder.abi receipt)

module _ {S : Type 0} (encode : List ℕ → List ℕ) (decode : List ℕ → Except String (List ℕ)) where
  -- Builder::do_execute, for what sends the transaction and waits for its receipt
  unfoldable pub do_execute :
      Builder
      → List ℕ
      → List Token
      → List ℕ
      → (TransactionRequest → Session S Error Receipt)
      → Session S DeployError Contract
  do_execute builder code params from send = do
    input ← give (prepared encode decode builder code params)
    deploy_input builder from send input
