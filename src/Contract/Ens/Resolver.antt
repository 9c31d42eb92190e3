-- ===== src/Contract/Ens/Resolver.antt =====
-- src/contract/ens/public_resolver.rs and src/contract/ens/reverse_resolver.rs: the resolvers of names.
use rust_web.Prelude.{ℕ, String, List, [], ◌∷◌, Bool, none}
use rust_web.Session.{Session, Transport, ◌>>=◌, pure}
use rust_web.Types.Block.{Formats, TransactionId}
use rust_web.Types.Request.{Wire}
use rust_web.Contract.Tokens.{
  Token, fixed_bytes, address, uint, string, bytes, Tokenizable, bools, strings, from_tokens,
  bytes_from_token,
}
use rust_web.Contract.Abi.{ContractError}
use rust_web.Contract.Call.{Contract, Decoders, no_options, call, query}
use rust_web.Contract.Ens.Registry.{addresses}

abbrev byte_vectors : Tokenizable (List ℕ)
byte_vectors = record { from_token = bytes_from_token; into_token = λ b. bytes b }

module _ {S : Type 0} (formats : Formats) (wire : Wire) (answers : Decoders)
    (transport : Transport S) (contract : Contract) where
  abbrev ask_for : {R : Type 0} → Tokenizable R → String → List Token → Session S ContractError R
  ask_for item func params =
      query formats wire answers transport (from_tokens item) contract func params none no_options
        none

  abbrev send_to : String → List Token → List ℕ → Session S ContractError TransactionId
  send_to func params from = do
    id ← call formats wire answers transport contract func params from no_options
    pure (TransactionId.hash id)

  abbrev pub check_interface_support : List ℕ → Session S ContractError Bool
  check_interface_support interface_id =
      ask_for bools "supportsInterface" (fixed_bytes interface_id ∷ [])

  abbrev pub ethereum_address : List ℕ → Session S ContractError (List ℕ)
  ethereum_address node = ask_for addresses "addr" (fixed_bytes node ∷ [])

  abbrev pub set_ethereum_address : List ℕ → List ℕ → List ℕ → Session S ContractError TransactionId
  set_ethereum_address from node to = send_to "setAddr" (fixed_bytes node ∷ address to ∷ []) from

  abbrev pub blockchain_address : List ℕ → ℕ → Session S ContractError (List ℕ)
  blockchain_address node coin_type =
      ask_for byte_vectors "addr" (fixed_bytes node ∷ uint coin_type ∷ [])

  abbrev pub set_blockchain_address :
      List ℕ → List ℕ → ℕ → List ℕ → Session S ContractError TransactionId
  set_blockchain_address from node coin_type to =
      send_to "setAddr" (fixed_bytes node ∷ uint coin_type ∷ bytes to ∷ []) from

  abbrev pub canonical_name : List ℕ → Session S ContractError String
  canonical_name node = ask_for strings "name" (fixed_bytes node ∷ [])

  abbrev pub set_canonical_name : List ℕ → List ℕ → String → Session S ContractError TransactionId
  set_canonical_name from node name = send_to "setName" (fixed_bytes node ∷ string name ∷ []) from

  abbrev pub content_hash : List ℕ → Session S ContractError (List ℕ)
  content_hash node = ask_for byte_vectors "contenthash" (fixed_bytes node ∷ [])

  abbrev pub set_content_hash : List ℕ → List ℕ → List ℕ → Session S ContractError TransactionId
  set_content_hash from node to = send_to "setContenthash" (fixed_bytes node ∷ bytes to ∷ []) from

  abbrev pub set_contract_abi : List ℕ → List ℕ → ℕ → List ℕ → Session S ContractError TransactionId
  set_contract_abi from node content_type to =
      send_to "setABI" (fixed_bytes node ∷ uint content_type ∷ bytes to ∷ []) from

  abbrev pub set_public_key :
      List ℕ → List ℕ → List ℕ → List ℕ → Session S ContractError TransactionId
  set_public_key from node x y =
      send_to "setPubkey" (fixed_bytes node ∷ fixed_bytes x ∷ fixed_bytes y ∷ []) from

  abbrev pub text_data : List ℕ → String → Session S ContractError String
  text_data node key = ask_for strings "text" (fixed_bytes node ∷ string key ∷ [])

  abbrev pub set_text_data :
      List ℕ → List ℕ → String → String → Session S ContractError TransactionId
  set_text_data from node key to =
      send_to "setText" (fixed_bytes node ∷ string key ∷ string to ∷ []) from

  abbrev pub interface_implementer : List ℕ → List ℕ → Session S ContractError (List ℕ)
  interface_implementer node interface =
      ask_for addresses "interfaceImplementer" (fixed_bytes node ∷ fixed_bytes interface ∷ [])

  abbrev pub set_dnsrr : List ℕ → List ℕ → List ℕ → Session S ContractError TransactionId
  set_dnsrr from node to = send_to "setDnsrr" (fixed_bytes node ∷ bytes to ∷ []) from

  abbrev pub set_interface :
      List ℕ → List ℕ → List ℕ → List ℕ → Session S ContractError TransactionId
  set_interface from node interface implementer =
      send_to "setInterface" (fixed_bytes node ∷ fixed_bytes interface ∷ address implementer ∷ [])
        from
