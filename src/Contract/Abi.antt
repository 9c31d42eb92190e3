-- ===== src/Contract/Abi.antt =====
-- What src/contract takes from ethabi, and the errors of src/contract/error.rs.
use rust_web.Prelude.{ℕ, String, List, Option, none, some}
use rust_web.Error.{Error, Message}
use rust_web.Session.{Except}
use rust_web.Contract.Tokens.{Token, Invalid}

-- ethabi::Error, in the constructors that the source builds and in those of ethabi.
pub data AbiError : Type 0 where
  invalid_name : Message → AbiError
  invalid_data : AbiError
  foreign : String → AbiError

-- contract::deploy::Error
pub data DeployError : Type 0 where
  abi : AbiError → DeployError
  api : Error → DeployError
  contract_deployment_failure : ℕ → DeployError

-- contract::Error
pub data ContractError : Type 0 where
  invalid_output_type : Invalid → ContractError
  abi : AbiError → ContractError
  api : Error → ContractError
  deployment : DeployError → ContractError
  interface_unsupported : ContractError

-- What `source` exposes as the cause of an error.
pub data Source : Type 0 where
  abi : AbiError → Source
  api : Error → Source
  deployment : DeployError → Source

-- impl std::error::Error for contract::Error
unfoldable pub source : ContractError → Option Source
source (invalid_output_type e) = none
source (abi e) = some (Source.abi e)
source (api e) = some (Source.api e)
source (deployment e) = some (Source.deployment e)
source interface_unsupported = none

-- impl std::error::Error for contract::deploy::Error
unfoldable pub deploy_source : DeployError → Option Source
deploy_source (abi e) = some (Source.abi e)
deploy_source (api e) = some (Source.api e)
deploy_source (contract_deployment_failure hash) = none

-- ethabi::Function and ethabi::Constructor
pub record Function : Type 0 where
  pub encode_input : List Token → Except AbiError (List ℕ)
  pub decode_output : List ℕ → Except AbiError (List Token)

-- ethabi::Contract: a function by its name, and the input that a constructor encodes from the code.
pub record Abi : Type 0 where
  pub function : String → Except AbiError Function
  pub constructor : Option (List ℕ → List Token → Except AbiError (List ℕ))
