-- ===== src/Contract/Ens.antt =====
-- src/contract/ens: names of Ethereum, over the contracts of the registry and of resolvers. An address
-- and a hash are lists of bytes; a name is normalized by idna, which is a parameter.
pub mod Registry
pub mod Resolver
pub mod Resolved
mod Supported
mod Tests
use rust_web.Prelude.{
  ℕ, String, List, [], ◌∷◌, ◌++◌, Bool, true, false, ◌==◌, ◌||◌, Option, none, some, if◌then◌else◌,
}
use rust_web.Signing.{Crypto, namehash}
use rust_web.Session.{Except, fail, done, Session, Transport, ◌>>=◌, give, continue}
use rust_web.Types.Block.{Formats, TransactionId}
use rust_web.Types.Request.{Wire}
use rust_web.Contract.Abi.{AbiError, ContractError, Abi}
use rust_web.Contract.Call.{Contract, Decoders}
use rust_web.Contract.Ens.Registry
use rust_web.Contract.Ens.Resolver

-- struct Ens, with the ABIs that are embedded in the program and the normalization of names.
pub record Ens : Type 0 where
  pub registry : Contract
  pub resolver_abi : Abi
  pub reverse_abi : Abi
  pub normalize : String → Option (List ℕ)

abbrev normalized : Option (List ℕ) → Except ContractError (List ℕ)
normalized (some name) = done name
normalized none = fail (ContractError.abi AbiError.invalid_data)

module _ {SecretKey PublicKey : Type 0} (crypto : Crypto SecretKey PublicKey) {S : Type 0}
    (formats : Formats) (wire : Wire) (answers : Decoders) (transport : Transport S)
    (ens : Ens) where
  -- Ens::normalize_name
  abbrev pub normalize_name : String → Except ContractError (List ℕ)
  normalize_name domain = normalized (ens.normalize domain)

  -- `namehash(&self.normalize_name(node)?)`
  abbrev pub node_of : String → Except ContractError (List ℕ)
  node_of domain = hashed (normalize_name domain)
    where
      hashed : Except ContractError (List ℕ) → Except ContractError (List ℕ)
      hashed (fail e) = fail e
      hashed (done name) = done (namehash crypto name)

  -- `keccak256(self.normalize_name(label)?.as_bytes())`
  abbrev label_of : String → Except ContractError (List ℕ)
  label_of label = hashed (normalize_name label)
    where
      hashed : Except ContractError (List ℕ) → Except ContractError (List ℕ)
      hashed (fail e) = fail e
      hashed (done name) = done (crypto.keccak256 name)

  -- PublicResolver::new and ReverseResolver::new, at the resolver that the registry has for a node
  abbrev pub resolver_at : Abi → List ℕ → Session S ContractError Contract
  resolver_at abi node = do
    resolver_addr ← Registry.resolver formats wire answers transport ens.registry node
    give (done (record { address = resolver_addr; abi = abi }))

  abbrev pub owner : String → Session S ContractError (List ℕ)
  owner name = do
    node ← give (node_of name)
    Registry.owner formats wire answers transport ens.registry node

  abbrev pub resolver : String → Session S ContractError (List ℕ)
  resolver name = do
    node ← give (node_of name)
    Registry.resolver formats wire answers transport ens.registry node

  abbrev pub ttl : String → Session S ContractError ℕ
  ttl name = do
    node ← give (node_of name)
    Registry.ttl formats wire answers transport ens.registry node

  abbrev pub set_owner : List ℕ → String → List ℕ → Session S ContractError TransactionId
  set_owner from name owned_by = do
    node ← give (node_of name)
    Registry.set_owner formats wire answers transport ens.registry from node owned_by

  abbrev pub set_resolver : List ℕ → String → List ℕ → Session S ContractError TransactionId
  set_resolver from name resolved_by = do
    node ← give (node_of name)
    Registry.set_resolver formats wire answers transport ens.registry from node resolved_by

  abbrev pub set_ttl : List ℕ → String → ℕ → Session S ContractError TransactionId
  set_ttl from name seconds = do
    node ← give (node_of name)
    Registry.set_ttl formats wire answers transport ens.registry from node seconds

  abbrev pub set_record :
      List ℕ → String → List ℕ → List ℕ → ℕ → Session S ContractError TransactionId
  set_record from name owned_by resolved_by seconds = do
    node ← give (node_of name)
    Registry.set_record formats wire answers transport ens.registry from node owned_by resolved_by
        seconds

  abbrev pub set_subdomain_owner :
      List ℕ → String → String → List ℕ → Session S ContractError TransactionId
  set_subdomain_owner from name sub owned_by = do
    node ← give (node_of name)
    label ← give (label_of sub)
    Registry.set_subnode_owner formats wire answers transport ens.registry from node label owned_by

  abbrev pub set_subdomain_record :
      List ℕ → String → String → List ℕ → List ℕ → ℕ → Session S ContractError TransactionId
  set_subdomain_record from name sub owned_by resolved_by seconds = do
    node ← give (node_of name)
    label ← give (label_of sub)
    Registry.set_subnode_record formats wire answers transport ens.registry from node label owned_by
        resolved_by seconds

  abbrev pub set_approval_for_all : List ℕ → List ℕ → Bool → Session S ContractError TransactionId
  set_approval_for_all from operator approved =
      Registry.set_approval_for_all formats wire answers transport ens.registry from operator
        approved

  abbrev pub is_approved_for_all : List ℕ → List ℕ → Session S ContractError Bool
  is_approved_for_all owned_by operator =
      Registry.check_approval formats wire answers transport ens.registry owned_by operator

  abbrev pub record_exists : String → Session S ContractError Bool
  record_exists name = do
    node ← give (node_of name)
    Registry.check_record_existence formats wire answers transport ens.registry node

  abbrev pub supports_interface : String → List ℕ → Session S ContractError Bool
  supports_interface name interface_id = do
    node ← give (node_of name)
    found ← resolver_at ens.resolver_abi node
    Resolver.check_interface_support formats wire answers transport found interface_id
