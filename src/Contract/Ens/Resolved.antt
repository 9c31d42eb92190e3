-- ===== src/Contract/Ens/Resolved.antt =====
-- src/contract/ens/eth_ens.rs: the methods of Ens that use a resolver, after the checks that they make.
use rust_web.Prelude.{ℕ, String, List, [], ◌∷◌, ◌++◌, Bool, true, false, ◌==◌, ◌||◌}
use rust_web.Signing.{Crypto, namehash}
use rust_web.Session.{Except, fail, done, Session, Transport, ◌>>=◌, give}
use rust_web.Types.Block.{Formats, TransactionId}
use rust_web.Types.Request.{Wire}
use rust_web.Contract.Abi.{AbiError, ContractError}
use rust_web.Contract.Call.{Contract, Decoders}
use rust_web.Contract.Ens.Resolver
use rust_web.Contract.Ens.{Ens, node_of, resolver_at}

abbrev pub addr_interface_id : List ℕ
addr_interface_id = 59 ∷ 59 ∷ 87 ∷ 222 ∷ []

abbrev pub blockchain_addr_interface_id : List ℕ
blockchain_addr_interface_id = 241 ∷ 203 ∷ 126 ∷ 6 ∷ []

abbrev pub text_interface_id : List ℕ
text_interface_id = 89 ∷ 209 ∷ 212 ∷ 60 ∷ []

abbrev pub contenthash_interface_id : List ℕ
contenthash_interface_id = 188 ∷ 28 ∷ 88 ∷ 209 ∷ []

-- `if !resolver.check_interface_support(..).await?`
abbrev pub unless_supported : Bool → Except ContractError (Unit {0})
unless_supported true = done tt
unless_supported false = fail ContractError.interface_unsupported

-- `matches!(hash.first(), Some(0xe3 | 0xe4))`
abbrev pub is_content_hash : List ℕ → Bool
is_content_hash [] = false
is_content_hash (b ∷ rest) = b == 227 || b == 228

abbrev pub unless_content_hash : Bool → Except ContractError (Unit {0})
unless_content_hash true = done tt
unless_content_hash false = fail (ContractError.abi AbiError.invalid_data)

-- The bytes of ".addr.reverse"
abbrev addr_reverse : List ℕ
addr_reverse =
    b'.' ∷ b'a' ∷ b'd' ∷ b'd' ∷ b'r' ∷ b'.' ∷ b'r' ∷ b'e' ∷ b'v' ∷ b'e' ∷ b'r' ∷ b's' ∷ b'e' ∷ []

module _ {SecretKey PublicKey : Type 0} (crypto : Crypto SecretKey PublicKey) {S : Type 0}
    (formats : Formats) (wire : Wire) (answers : Decoders) (transport : Transport S)
    (ens : Ens) where
  -- What follows the check that a resolver supports an interface.
  abbrev pub checked_for :
      {R : Type 0}
      → List ℕ
      → (Contract → Session S ContractError R)
      → Contract
      → Session S ContractError R
  checked_for interface_id rest found = do
    supported ← Resolver.check_interface_support formats wire answers transport found interface_id
    given ← give (unless_supported supported)
    rest found

  abbrev pub resolved :
      {R : Type 0}
      → (Contract → List ℕ → Session S ContractError R)
      → List ℕ
      → Session S ContractError R
  resolved rest node = do
    found ← resolver_at crypto formats wire answers transport ens ens.resolver_abi node
    rest found node

  unfoldable pub eth_address : String → Session S ContractError (List ℕ)
  eth_address name = do
    node ← give (node_of crypto formats wire answers transport ens name)
    resolved
        (λ found node.
          checked_for addr_interface_id
            (λ found. Resolver.ethereum_address formats wire answers transport found node) found)
        node

  unfoldable pub blockchain_address : String → ℕ → Session S ContractError (List ℕ)
  blockchain_address name coin_type = do
    node ← give (node_of crypto formats wire answers transport ens name)
    resolved
        (λ found node.
          checked_for blockchain_addr_interface_id
            (λ found.
              Resolver.blockchain_address formats wire answers transport found node coin_type)
            found)
        node

  unfoldable pub content_hash : String → Session S ContractError (List ℕ)
  content_hash name = do
    node ← give (node_of crypto formats wire answers transport ens name)
    resolved
        (λ found node.
          checked_for contenthash_interface_id
            (λ found. Resolver.content_hash formats wire answers transport found node) found)
        node

  unfoldable pub text : String → String → Session S ContractError String
  text name key = do
    node ← give (node_of crypto formats wire answers transport ens name)
    resolved
        (λ found node.
          checked_for text_interface_id
            (λ found. Resolver.text_data formats wire answers transport found node key) found)
        node

  unfoldable pub set_eth_address : List ℕ → String → List ℕ → Session S ContractError TransactionId
  set_eth_address from name to = do
    node ← give (node_of crypto formats wire answers transport ens name)
    resolved
        (λ found node.
          Resolver.set_ethereum_address formats wire answers transport found from node to)
        node

  unfoldable pub set_blockchain_address :
      List ℕ → String → ℕ → List ℕ → Session S ContractError TransactionId
  set_blockchain_address from name coin_type to = do
    node ← give (node_of crypto formats wire answers transport ens name)
    resolved
        (λ found node.
          Resolver.set_blockchain_address formats wire answers transport found from node coin_type
            to)
        node

  unfoldable pub set_pubkey :
      List ℕ → String → List ℕ → List ℕ → Session S ContractError TransactionId
  set_pubkey from name x y = do
    node ← give (node_of crypto formats wire answers transport ens name)
    resolved
        (λ found node. Resolver.set_public_key formats wire answers transport found from node x y)
        node

  unfoldable pub set_text :
      List ℕ → String → String → String → Session S ContractError TransactionId
  set_text from name key to = do
    node ← give (node_of crypto formats wire answers transport ens name)
    resolved
        (λ found node.
          checked_for text_interface_id
            (λ found. Resolver.set_text_data formats wire answers transport found from node key to)
            found)
        node

  -- The end of set_content_hash, after the interface was checked.
  abbrev pub put_content_hash :
      List ℕ → List ℕ → List ℕ → Contract → Session S ContractError TransactionId
  put_content_hash from node hash found = do
    given ← give (unless_content_hash (is_content_hash hash))
    Resolver.set_content_hash formats wire answers transport found from node hash

  abbrev pub content_hash_at :
      List ℕ → List ℕ → Contract → List ℕ → Session S ContractError TransactionId
  content_hash_at from hash found node =
      checked_for contenthash_interface_id (put_content_hash from node hash) found

  unfoldable pub set_content_hash : List ℕ → String → List ℕ → Session S ContractError TransactionId
  set_content_hash from name hash = do
    node ← give (node_of crypto formats wire answers transport ens name)
    resolved (content_hash_at from hash) node

  -- Ens::canonical_name, for the hexadecimal digits of an address
  unfoldable pub canonical_name : (List ℕ → List ℕ) → List ℕ → Session S ContractError String
  canonical_name encode addr = do
    found ←
        resolver_at crypto formats wire answers transport ens ens.reverse_abi
          (namehash crypto (encode addr ++ addr_reverse))
    Resolver.canonical_name formats wire answers transport found
        (namehash crypto (encode addr ++ addr_reverse))

  unfoldable pub set_canonical_name :
      List ℕ → String → String → Session S ContractError TransactionId
  set_canonical_name from name to = do
    node ← give (node_of crypto formats wire answers transport ens name)
    found ← resolver_at crypto formats wire answers transport ens ens.reverse_abi node
    Resolver.set_canonical_name formats wire answers transport found from node to
