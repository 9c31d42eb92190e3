-- ===== src/Accounts/Tests.antt =====
-- Runs of src/api/accounts.rs and src/signing.rs, with a stand-in for the curve that satisfies what is
-- documented of it: every signature is the same, and recovers the one key there is.
use rust_web.Prelude.{ℕ, ◌+◌, ◌*◌, ◌≡◌, refl, List, [], ◌∷◌, ◌++◌, Option, none, some, arith}
use rust_web.Error.{Error, RecoveryError, Result, ok, err}
use rust_web.Signing.{
  Crypto, Recovery, text, id0, address, recover_address, from_raw_signature, validate_signature,
  bytes_ltb, take, drop, namehash, zeros, sign_message, digest_of,
}
use rust_web.Signing.Recover.{IsSound}
use rust_web.Signing.Names.{IsNode, top, sub, namehash_eip137}
use rust_web.Accounts.{
  Transaction, SignedTransaction, SignedData, encode, encode_legacy, encode_eip1559_payload,
  sign_tx, sign_data, of_signed_data, of_signed_transaction, finished,
}
use rust_web.Rpc.{Value, string}
use rust_web.Session.{done, TestTransport, test_transport}
use rust_web.Session.Log.{at}
use rust_web.Types.Block.Tests.{formats}
use rust_web.Accounts.Fill.{TransactionParameters, sign_transaction}
use rust_web.Accounts.Fill.Asked.{IsAsked, IsFilled, sign_transaction_recover}
use rust_web.Accounts.Streams.{to_come, encode_complete}
use rust_web.Accounts.Sign.{IsInRange, sign_data_recover, sign_tx_recover, typed_not_recovered}

abbrev one : List ℕ
one =
    0 ∷ 0 ∷ 0 ∷ 0 ∷ 0 ∷ 0 ∷ 0 ∷ 0 ∷ 0 ∷ 0 ∷ 0 ∷ 0 ∷ 0 ∷ 0 ∷ 0 ∷ 0 ∷ 0 ∷ 0 ∷ 0 ∷ 0 ∷ 0 ∷ 0 ∷ 0 ∷ 0
    ∷ 0 ∷ 0 ∷ 0 ∷ 0 ∷ 0 ∷ 0 ∷ 0 ∷ 1 ∷ []

abbrev pub crypto : Crypto ℕ ℕ
crypto = record {
  sign_ecdsa = λ digest key. (id0, one ++ one);
  recover_ecdsa = λ digest signature id. some 0;
  from_secret_key = λ key. 0;
  serialize = λ key. 4 ∷ one;
  keccak256 = λ bytes. one;
  decimal = λ n. (48 + n) ∷ [];
}

crypto-IsSound : IsSound crypto
crypto-IsSound = record {
  hash_size = λ bytes. refl;
  compact_size = λ digest key. refl;
  recovers = λ digest key. refl;
}

in_range : IsInRange (one ++ one)
unfolding validate_signature bytes_ltb take drop
in_range v = refl

-- The node of "fo.et".
fo-IsNode : IsNode crypto (102 ∷ 111 ∷ 46 ∷ 101 ∷ 116 ∷ []) (
    crypto.keccak256 (
      crypto.keccak256 (zeros ++ crypto.keccak256 (101 ∷ 116 ∷ []))
      ++ crypto.keccak256 (102 ∷ 111 ∷ [])))
fo-IsNode =
    sub (102 ∷ 111 ∷ []) 101 (116 ∷ []) _ refl (top 101 (116 ∷ []) zeros (refl, ground arith) refl)

namehash_eip137_example :
    namehash crypto (102 ∷ 111 ∷ 46 ∷ 101 ∷ 116 ∷ [])
    ≡ crypto.keccak256 (
        crypto.keccak256 (zeros ++ crypto.keccak256 (101 ∷ 116 ∷ []))
        ++ crypto.keccak256 (102 ∷ 111 ∷ []))
namehash_eip137_example = namehash_eip137 crypto fo-IsNode

sign_data_recover_example :
    (signed : SignedData) × (recovery : Recovery) × (sign_data crypto (λ stream. []) (65 ∷ []) 0
      ≡ ok signed)
    × (recover_address crypto (of_signed_data signed) ≡ ok (address crypto 0))
    × (from_raw_signature (text (65 ∷ [])) signed.signature ≡ some recovery)
    × (recover_address crypto recovery ≡ ok (address crypto 0))
sign_data_recover_example =
    sign_data_recover crypto (λ stream. []) (65 ∷ []) 0 0 crypto-IsSound refl in_range

abbrev transfer : Option ℕ → Transaction
transfer transaction_type = record {
  to = none;
  nonce = 1;
  gas = 21000;
  gas_price = 5;
  value = 7;
  tx_data = [];
  transaction_type = transaction_type;
  access_list = record { address = []; storage_keys = one ∷ [] } ∷ [];
  max_priority_fee_per_gas = 2;
}

encode_complete_example : to_come 1 (encode_eip1559_payload (transfer (some 2)) 1 none) ≡ some 0
unfolding encode
encode_complete_example =
    encode_complete (transfer (some 2)) 1 none
      (2 ∷ [], encode_eip1559_payload (transfer (some 2)) 1 none) refl

sign_tx_recover_example :
    (signed : SignedTransaction) × (sign_tx crypto (λ stream. []) (transfer none) 0 1 ≡ ok signed)
    × (signed.v ≡ 1 * 2 + 35 + 0)
    × (recover_address crypto (of_signed_transaction signed) ≡ ok (address crypto 0))
unfolding encode
sign_tx_recover_example =
    sign_tx_recover crypto (λ stream. []) (transfer none) 0 1 0
      ([], encode_legacy (transfer none) 1 none) crypto-IsSound refl refl (omega arith) refl
      in_range

abbrev typed : SignedTransaction
typed = finished crypto (λ stream. []) one (record { v = 0; r = one; s = one }) (2 ∷ [])

typed_signed : sign_tx crypto (λ stream. []) (transfer (some 2)) 0 1 ≡ ok typed
unfolding sign_tx encode validate_signature bytes_ltb take drop sign_message digest_of
typed_signed = refl

typed_not_recovered_example :
    recover_address crypto (of_signed_transaction typed)
    ≡ err (Error.recovery RecoveryError.invalid_signature)
typed_not_recovered_example =
    typed_not_recovered crypto (λ stream. []) (transfer (some 2)) 0 1 typed refl typed_signed

-- Without a nonce, a gas price and a chain id.
abbrev asking : TransactionParameters
asking = record {
  nonce = none;
  to = none;
  gas = 21000;
  gas_price = none;
  value = 7;
  tx_data = [];
  chain_id = none;
  transaction_type = none;
  access_list = none;
  max_fee_per_gas = none;
  max_priority_fee_per_gas = none;
}

-- Numbers are sent as numbers, and nothing else is read as one.
abbrev number_of : Value → Result ℕ
number_of (Value.number n) = ok n
number_of _ = err Error.internal

abbrev no_text : List ℕ → Value
no_text bytes = Value.null

abbrev answering : TestTransport
answering = at [] (Value.number 1 ∷ Value.number 5 ∷ Value.number 1 ∷ [])

abbrev all_asked : TestTransport
all_asked =
    at
      (("eth_getTransactionCount", Value.null ∷ string "latest" ∷ [])
        ∷ ("eth_gasPrice", [])
        ∷ ("eth_chainId", [])
        ∷ [])
      []

abbrev is_asked :
    IsAsked crypto
      (λ stream. [])
      formats
      no_text
      number_of
      0
      none
      none
      none
      answering
      all_asked
      1
      5
      1
is_asked = record {
  counted = _;
  priced = _;
  transaction_count = (Value.number 1, _, refl, refl, refl);
  gas_price = (Value.number 5, _, refl, refl, refl);
  chain_id = (Value.number 1, _, refl, refl, refl);
  fits = omega arith;
}

abbrev asked : Transaction
asked = record {
  to = none;
  nonce = 1;
  gas = 21000;
  gas_price = 5;
  value = 7;
  tx_data = [];
  transaction_type = none;
  access_list = [];
  max_priority_fee_per_gas = 5;
}

asked-IsFilled : IsFilled asking 1 5 asked
asked-IsFilled = record {
  to = refl;
  nonce = refl;
  gas = refl;
  gas_price = refl;
  value = refl;
  tx_data = refl;
  transaction_type = refl;
  access_list = refl;
  priority = refl;
}

sign_transaction_recover_example :
    (signed : SignedTransaction) × (sign_transaction crypto
        (λ stream. [])
        formats
        no_text
        number_of
        test_transport
        asking
        0
        answering
      ≡ (all_asked, done signed))
    × (sign_tx crypto (λ stream. []) asked 0 1 ≡ ok signed)
    × (recover_address crypto (of_signed_transaction signed) ≡ ok (address crypto 0))
unfolding encode
sign_transaction_recover_example =
    sign_transaction_recover crypto (λ stream. []) formats no_text number_of asking 0 answering
      all_asked 1 5 1 0 asked ([], encode_legacy asked 1 none) crypto-IsSound refl is_asked
      asked-IsFilled (omega arith) refl refl in_range
