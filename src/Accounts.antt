-- ===== src/Accounts.antt =====
-- src/api/accounts.rs: signing messages and transactions. An RLP stream is the list of the calls that
-- build it; the bytes that it comes to are a parameter.
mod Streams
pub mod Fill
mod Sign
pub mod Tests
use rust_web.Prelude.{
  ℕ, ◌+◌, ◌*◌, ◌^◌, ◌≡◌, List, [], ◌∷◌, ◌++◌, Option, none, some, length, Bool, true, false, not,
  ◌&&◌, ◌||◌, ◌==◌, ltb, if◌then◌else◌,
}
use rust_web.Error.{Error, SigningError, Result, ok, err, ◌>>=◌, ok_or}
use rust_web.Signing.{
  Crypto, Signature, sign, sign_message, address, validate_signature, hash_message, checked,
  recovery_base, and_then, Recovery, RecoveryMessage, hash,
}

-- A call of RlpStream.
pub data Rlp : Type 0 where
  begin_list : ℕ → Rlp
  number : ℕ → Rlp
  string : List ℕ → Rlp

pub record Access : Type 0 where
  pub address : List ℕ
  pub storage_keys : List (List ℕ)

-- struct Transaction
pub record Transaction : Type 0 where
  pub to : Option (List ℕ)
  pub nonce : ℕ
  pub gas : ℕ
  pub gas_price : ℕ
  pub value : ℕ
  pub tx_data : List ℕ
  pub transaction_type : Option ℕ
  pub access_list : List Access
  pub max_priority_fee_per_gas : ℕ

abbrev pub to_item : Option (List ℕ) → Rlp
to_item (some to) = string to
to_item none = string []

-- rlp_append_legacy
abbrev pub append_legacy : Transaction → List Rlp
append_legacy tx =
    number tx.nonce
    ∷ number tx.gas_price
    ∷ number tx.gas
    ∷ to_item tx.to
    ∷ number tx.value
    ∷ string tx.tx_data
    ∷ []

abbrev pub big_endian : ℕ → List ℕ → ℕ
big_endian n [] = n
big_endian n (b ∷ bytes) = big_endian (n * 256 + b) bytes

-- rlp_append_signature
abbrev pub append_signature : Option Signature → List Rlp
append_signature none = []
append_signature (some s) = number s.v ∷ number (big_endian 0 s.r) ∷ number (big_endian 0 s.s) ∷ []

abbrev pub append_keys : List (List ℕ) → List Rlp
append_keys [] = []
append_keys (key ∷ keys) = string key ∷ append_keys keys

-- `for access in self.access_list.iter()`
unfoldable pub append_accesses : List Access → List Rlp
append_accesses [] = []
append_accesses (access ∷ accesses) =
    begin_list 2
      ∷ string access.address
      ∷ begin_list (length access.storage_keys)
      ∷ append_keys access.storage_keys
    ++ append_accesses accesses

-- rlp_append_access_list
abbrev pub append_access_list : List Access → List Rlp
append_access_list list = begin_list (length list) ∷ append_accesses list

abbrev pub sized_by : Option Signature → ℕ → ℕ → ℕ
sized_by (some s) signed unsigned = signed
sized_by none signed unsigned = unsigned

abbrev legacy_end : ℕ → Option Signature → List Rlp
legacy_end chain_id none = number chain_id ∷ number 0 ∷ number 0 ∷ []
legacy_end chain_id (some s) = append_signature (some s)

-- encode_legacy
unfoldable pub encode_legacy : Transaction → ℕ → Option Signature → List Rlp
encode_legacy tx chain_id signature =
    begin_list 9 ∷ append_legacy tx ++ legacy_end chain_id signature

-- encode_access_list_payload
unfoldable pub encode_access_list_payload : Transaction → ℕ → Option Signature → List Rlp
unfolding append_accesses
encode_access_list_payload tx chain_id signature =
    begin_list (sized_by signature 11 8) ∷ number chain_id ∷ append_legacy tx
    ++ append_access_list tx.access_list
    ++ append_signature signature

-- encode_eip1559_payload
unfoldable pub encode_eip1559_payload : Transaction → ℕ → Option Signature → List Rlp
unfolding append_accesses
encode_eip1559_payload tx chain_id signature =
    begin_list (sized_by signature 12 9)
      ∷ number chain_id
      ∷ number tx.nonce
      ∷ number tx.max_priority_fee_per_gas
      ∷ number tx.gas_price
      ∷ number tx.gas
      ∷ to_item tx.to
      ∷ number tx.value
      ∷ string tx.tx_data
      ∷ append_access_list tx.access_list
    ++ append_signature signature

-- What is in front of the payload, and the payload.
abbrev pub Encoded : Type 0
Encoded = List ℕ × List Rlp

abbrev pub encode_as : Transaction → ℕ → Option Signature → Option ℕ → Result Encoded
encode_as tx chain_id signature none = ok ([], encode_legacy tx chain_id signature)
encode_as tx chain_id signature (some t) =
    if t == 0
    then ok ([], encode_legacy tx chain_id signature)
    else if t == 1
    then ok (1 ∷ [], encode_access_list_payload tx chain_id signature)
    else if t == 2
    then ok (2 ∷ [], encode_eip1559_payload tx chain_id signature)
    else err (Error.signing (SigningError.unsupported_transaction_type t))

-- encode, up to the bytes of the payload
unfoldable pub encode : Transaction → ℕ → Option Signature → Result Encoded
unfolding encode_legacy encode_access_list_payload encode_eip1559_payload
encode tx chain_id signature = encode_as tx chain_id signature tx.transaction_type

-- `matches!(.., Some(LEGACY_TX_ID) | None)`
abbrev pub is_legacy : Option ℕ → Bool
is_legacy none = true
is_legacy (some t) = t == 0

-- struct SignedTransaction
pub record SignedTransaction : Type 0 where
  pub message_hash : List ℕ
  pub v : ℕ
  pub r : List ℕ
  pub s : List ℕ
  pub raw_transaction : List ℕ
  pub transaction_hash : List ℕ

-- struct SignedData
pub record SignedData : Type 0 where
  pub message : List ℕ
  pub message_hash : List ℕ
  pub v : ℕ
  pub r : List ℕ
  pub s : List ℕ
  pub signature : List ℕ

-- Recovery::from
abbrev pub of_signed_data : SignedData → Recovery
of_signed_data signed = record {
  message = hash signed.message_hash;
  v = signed.v;
  r = signed.r;
  s = signed.s;
}

abbrev pub of_signed_transaction : SignedTransaction → Recovery
of_signed_transaction tx = record { message = hash tx.message_hash; v = tx.v; r = tx.r; s = tx.s }

abbrev invalid_recovery_id : Error
invalid_recovery_id = Error.signing SigningError.invalid_recovery_id

-- `legacy_recovery_base`
abbrev pub recovery_base_of : Option ℕ → ℕ → Result (Option ℕ)
recovery_base_of transaction_type chain_id =
    if is_legacy transaction_type
    then (do
      base ← ok_or (recovery_base chain_id) (Error.signing SigningError.invalid_chain_id)
      ok (some base))
    else ok none

-- The check of v against `legacy_recovery_base`.
abbrev pub check_v : Option ℕ → ℕ → Result (Unit {0})
check_v (some first) v =
    if not (v == first) && not (second_is (checked (first + 1)) v)
    then err invalid_recovery_id
    else ok tt
  where
    second_is : Option ℕ → ℕ → Bool
    second_is none v = false
    second_is (some second) v = second == v
check_v none v = if ltb 1 v then err invalid_recovery_id else ok tt

-- `u8::try_from(signature.v)` and `matches!(v, 27 | 28)`
abbrev pub electrum : ℕ → Result ℕ
electrum v = if v == 27 || v == 28 then ok v else err invalid_recovery_id

module _ {SecretKey PublicKey : Type 0} (crypto : Crypto SecretKey PublicKey)
    (out : List Rlp → List ℕ) where
  abbrev pub bytes_of : Encoded → List ℕ
  bytes_of (tx_id, stream) = tx_id ++ out stream

  -- `sign.sign(&hash, Some(chain_id))` or `sign.sign_message(&hash)`
  abbrev pub sign_hash : SecretKey → Option ℕ → List ℕ → ℕ → Result Signature
  sign_hash key transaction_type h chain_id =
      if is_legacy transaction_type
      then sign crypto key h (some chain_id)
      else sign_message crypto key h

  abbrev pub finished : List ℕ → Signature → List ℕ → SignedTransaction
  finished h signature signed = record {
    message_hash = h;
    v = signature.v;
    r = signature.r;
    s = signature.s;
    raw_transaction = signed;
    transaction_hash = crypto.keccak256 signed;
  }

  -- Transaction::sign
  unfoldable pub sign_tx : Transaction → SecretKey → ℕ → Result SignedTransaction
  unfolding encode validate_signature
  sign_tx tx key chain_id = do
    base ← recovery_base_of tx.transaction_type chain_id
    encoded ← encode tx chain_id none
    signature ← sign_hash key tx.transaction_type (crypto.keccak256 (bytes_of encoded)) chain_id
    checked_v ← check_v base signature.v
    valid ← validate_signature signature
    signed ← encode tx chain_id (some signature)
    ok (finished (crypto.keccak256 (bytes_of encoded)) signature (bytes_of signed))

  -- Accounts::sign
  unfoldable pub sign_data : List ℕ → SecretKey → Result SignedData
  unfolding validate_signature
  sign_data message key = do
    signature ← sign crypto key (hash_message crypto message) none
    v ← electrum signature.v
    valid ← validate_signature signature
    ok (record {
      message = message;
      message_hash = hash_message crypto message;
      v = v;
      r = signature.r;
      s = signature.s;
      signature = signature.r ++ (signature.s ++ v ∷ []);
    })
