-- ===== src/Contract/Deploy/Outcome.antt =====
-- Builder::do_execute of src/contract/deploy.rs: when a deployment ends with a contract.
use rust_web.Prelude.{ℕ, String, List, some, ◌≡◌, ◌≢◌, refl}
use rust_web.Error.{Error}
use rust_web.Session.{Except, fail, Session}
use rust_web.Types.Request.{TransactionRequest}
use rust_web.Contract.Tokens.{Token}
use rust_web.Contract.Abi.{Abi, DeployError}
use rust_web.Contract.Call.{Contract}
use rust_web.Contract.Deploy.{Builder, Receipt, prepared, do_execute}

-- The receipt is one of a deployed contract: it does not say that the transaction failed, and it has
-- the contract's address.
pub record IsDeployment (own : Abi) (receipt : Receipt) (contract : Contract) : Type 0 where
  pub unreverted : receipt.status ≢ some 0
  pub address : receipt.contract_address ≡ some contract.address
  pub abi : contract.abi ≡ own

module _ {S : Type 0} (encode : List ℕ → List ℕ) (decode : List ℕ → Except String (List ℕ))
    (builder : Builder) (code : List ℕ) (params : List Token) (from : List ℕ)
    (send : TransactionRequest → Session S Error Receipt) where
  -- A deployment whose input cannot be prepared sends nothing, and has the error of its preparation.
  pub do_execute_unprepared :
      (s : S) (e : DeployError)
      → prepared encode decode builder code params ≡ fail e
      → do_execute encode decode builder code params from send s ≡ (s, fail e)
  unfolding do_execute
  do_execute_unprepared s e h = rw h refl
