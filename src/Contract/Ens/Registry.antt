-- ===== src/Contract/Ens/Registry.antt =====
-- src/contract/ens/registry.rs: the registry of names.
use rust_web.Prelude.{ℕ, String, List, [], ◌∷◌, Bool, none}
use rust_web.Session.{Session, Transport, ◌>>=◌, pure}
use rust_web.Types.Block.{Formats, TransactionId}
use rust_web.Types.Request.{Wire}
use rust_web.Contract.Tokens.{
  Token, fixed_bytes, address, uint, bool, Tokenizable, Decoded, decoded, invalid, expected, bools,
  from_tokens, unsigned_from_token, unsigned_into_token, w64,
}
use rust_web.Contract.Abi.{ContractError}
use rust_web.Contract.Call.{Contract, Decoders, no_options, call, query}

-- Tokenizable for Address, as a list of 20 bytes.
abbrev pub address_from_token : Token → Decoded (List ℕ)
address_from_token (address a) = decoded a
address_from_token other = invalid (expected "Address" other)

abbrev pub addresses : Tokenizable (List ℕ)
addresses = record { from_token = address_from_token; into_token = λ a. address a }

abbrev ttls : Tokenizable ℕ
ttls = record { from_token = unsigned_from_token w64 "u64"; into_token = unsigned_into_token }

module _ {S : Type 0} (formats : Formats) (wire : Wire) (answers : Decoders)
    (transport : Transport S) (contract : Contract) where
  abbrev ask_for : {R : Type 0} → Tokenizable R → String → List Token → Session S ContractError R
  ask_for item func params =
      query formats wire answers transport (from_tokens item) contract func params none no_options
        none

  abbrev send_to : String → List Token → List ℕ → Session S ContractError TransactionId
  send_to func params from = do
    id ← call formats wire answers transport contract func params from no_options
    pure (TransactionId.hash id)

  abbrev pub owner : List ℕ → Session S ContractError (List ℕ)
  owner node = ask_for addresses "owner" (fixed_bytes node ∷ [])

  abbrev pub resolver : List ℕ → Session S ContractError (List ℕ)
  resolver node = ask_for addresses "resolver" (fixed_bytes node ∷ [])

  abbrev pub ttl : List ℕ → Session S ContractError ℕ
  ttl node = ask_for ttls "ttl" (fixed_bytes node ∷ [])

  abbrev pub set_owner : List ℕ → List ℕ → List ℕ → Session S ContractError TransactionId
  set_owner from node owned_by = send_to "setOwner" (fixed_bytes node ∷ address owned_by ∷ []) from

  abbrev pub set_resolver : List ℕ → List ℕ → List ℕ → Session S ContractError TransactionId
  set_resolver from node resolved_by =
      send_to "setResolver" (fixed_bytes node ∷ address resolved_by ∷ []) from

  abbrev pub set_ttl : List ℕ → List ℕ → ℕ → Session S ContractError TransactionId
  set_ttl from node seconds = send_to "setTTL" (fixed_bytes node ∷ uint seconds ∷ []) from

  abbrev pub set_subnode_owner :
      List ℕ → List ℕ → List ℕ → List ℕ → Session S ContractError TransactionId
  set_subnode_owner from node label owned_by =
      send_to "setSubnodeOwner" (fixed_bytes node ∷ fixed_bytes label ∷ address owned_by ∷ []) from

  abbrev pub set_record :
      List ℕ → List ℕ → List ℕ → List ℕ → ℕ → Session S ContractError TransactionId
  set_record from node owned_by resolved_by seconds =
      send_to "setRecord"
        (fixed_bytes node ∷ address owned_by ∷ address resolved_by ∷ uint seconds ∷ []) from

  abbrev pub set_subnode_record :
      List ℕ → List ℕ → List ℕ → List ℕ → List ℕ → ℕ → Session S ContractError TransactionId
  set_subnode_record from node label owned_by resolved_by seconds =
      send_to "setSubnodeRecord"
        (fixed_bytes node
          ∷ fixed_bytes label
          ∷ address owned_by
          ∷ address resolved_by
          ∷ uint seconds
          ∷ [])
        from

  abbrev pub set_approval_for_all : List ℕ → List ℕ → Bool → Session S ContractError TransactionId
  set_approval_for_all from operator approved =
      send_to "setApprovalForAll" (address operator ∷ bool approved ∷ []) from

  abbrev pub check_approval : List ℕ → List ℕ → Session S ContractError Bool
  check_approval owned_by operator =
      ask_for bools "isApprovedForAll" (address owned_by ∷ address operator ∷ [])

  abbrev pub check_record_existence : List ℕ → Session S ContractError Bool
  check_record_existence node = ask_for bools "recordExists" (fixed_bytes node ∷ [])
