-- ===== src/Signing.antt =====
-- src/signing.rs and src/types/recovery.rs: signatures, their v values, and recovering an address.
-- A hash, an address and a key's serialization are lists of bytes. secp256k1 and Keccak-256 are
-- parameters. A result of the source with a SigningError or a RecoveryError stands as the Error that
-- `?` converts it to.
pub mod Recover
pub mod Raw
pub mod Names
use rust_web.Prelude.{
  ℕ, zero, suc, ◌+◌, ◌-◌, ◌*◌, ◌%◌, ◌^◌, ◌≡◌, List, [], ◌∷◌, ◌++◌, Option, none, some, length, Bool,
  true, false, not, ◌||◌, ◌==◌, ltb, leb, if◌then◌else◌,
}
use rust_web.Error.{Error, SigningError, RecoveryError, Result, ok, err, ◌>>=◌, ok_or}

-- secp256k1's RecoveryId
pub data RecoveryId : Type 0 where
  id0 : RecoveryId
  id1 : RecoveryId
  id2 : RecoveryId
  id3 : RecoveryId

-- What the source uses of secp256k1 and tiny_keccak, and the text of a number. `sign` gives the
-- 64 bytes of the compact signature, and `recover` fails on bytes that are no signature.
pub record Crypto (SecretKey PublicKey : Type 0) : Type 0 where
  pub sign_ecdsa : List ℕ → SecretKey → RecoveryId × List ℕ
  pub recover_ecdsa : List ℕ → List ℕ → RecoveryId → Option PublicKey
  pub from_secret_key : SecretKey → PublicKey
  pub serialize : PublicKey → List ℕ
  pub keccak256 : List ℕ → List ℕ
  pub decimal : ℕ → List ℕ

-- struct Signature
pub record Signature : Type 0 where
  pub v : ℕ
  pub r : List ℕ
  pub s : List ℕ

unfoldable pub take : ℕ → List ℕ → List ℕ
take zero xs = []
take (suc n) [] = []
take (suc n) (x ∷ xs) = x ∷ take n xs

unfoldable pub drop : ℕ → List ℕ → List ℕ
drop zero xs = xs
drop (suc n) [] = []
drop (suc n) (x ∷ xs) = drop n xs

-- checked_mul and checked_add of u64
abbrev pub checked : ℕ → Option ℕ
checked n = if ltb n (2 ^ 64) then some n else none

abbrev pub and_then : Option ℕ → (ℕ → Option ℕ) → Option ℕ
and_then none f = none
and_then (some n) f = f n

-- `chain_id.checked_mul(2).and_then(|value| value.checked_add(35))`
abbrev pub recovery_base : ℕ → Option ℕ
recovery_base chain_id = and_then (checked (chain_id * 2)) (λ value. checked (value + 35))

-- `<[u8; 32]>::try_from(message)`
unfoldable pub digest_of : Error → List ℕ → Result (List ℕ)
digest_of error message = if length message == 32 then ok message else err error

abbrev pub standard : RecoveryId → Result ℕ
standard id0 = ok 0
standard id1 = ok 1
standard id2 = err (Error.signing SigningError.invalid_recovery_id)
standard id3 = err (Error.signing SigningError.invalid_recovery_id)

-- The v value of Key::sign.
unfoldable pub v_of : Option ℕ → ℕ → Result ℕ
v_of none standard_v = ok (standard_v + 27)
v_of (some chain_id) standard_v =
    ok_or (and_then (recovery_base chain_id) (λ value. checked (value + standard_v)))
      (Error.signing SigningError.invalid_chain_id)

abbrev pub signature_of : ℕ → List ℕ → Signature
signature_of v compact = record { v = v; r = take 32 compact; s = drop 32 compact }

-- The order of byte slices.
unfoldable pub bytes_ltb : List ℕ → List ℕ → Bool
bytes_ltb [] [] = false
bytes_ltb [] (y ∷ ys) = true
bytes_ltb (x ∷ xs) [] = false
bytes_ltb (x ∷ xs) (y ∷ ys) =
    let rest = bytes_ltb xs ys in if ltb x y then true else if ltb y x then false else rest

abbrev pub all_zero : List ℕ → Bool
all_zero [] = true
all_zero (b ∷ bytes) = if b == 0 then all_zero bytes else false

abbrev pub curve_order : List ℕ
curve_order =
    0xff ∷ 0xff ∷ 0xff ∷ 0xff ∷ 0xff ∷ 0xff ∷ 0xff ∷ 0xff ∷ 0xff ∷ 0xff ∷ 0xff ∷ 0xff ∷ 0xff ∷ 0xff
    ∷ 0xff ∷ 0xfe ∷ 0xba ∷ 0xae ∷ 0xdc ∷ 0xe6 ∷ 0xaf ∷ 0x48 ∷ 0xa0 ∷ 0x3b ∷ 0xbf ∷ 0xd2 ∷ 0x5e
    ∷ 0x8c ∷ 0xd0 ∷ 0x36 ∷ 0x41 ∷ 0x41 ∷ []

abbrev pub half_curve_order : List ℕ
half_curve_order =
    0x7f ∷ 0xff ∷ 0xff ∷ 0xff ∷ 0xff ∷ 0xff ∷ 0xff ∷ 0xff ∷ 0xff ∷ 0xff ∷ 0xff ∷ 0xff ∷ 0xff ∷ 0xff
    ∷ 0xff ∷ 0xff ∷ 0x5d ∷ 0x57 ∷ 0x6e ∷ 0x73 ∷ 0x57 ∷ 0xa4 ∷ 0x50 ∷ 0x1d ∷ 0xdf ∷ 0xe9 ∷ 0x2f
    ∷ 0x46 ∷ 0x68 ∷ 0x1b ∷ 0x20 ∷ 0xa0 ∷ []

-- validate_signature
unfoldable pub validate_signature : Signature → Result (Unit {0})
validate_signature signature =
    if all_zero signature.r
      || not (bytes_ltb signature.r curve_order)
      || all_zero signature.s
      || bytes_ltb half_curve_order signature.s
    then err (Error.signing SigningError.invalid_signature)
    else ok tt

-- enum RecoveryMessage and struct Recovery
pub data RecoveryMessage : Type 0 where
  text : List ℕ → RecoveryMessage
  hash : List ℕ → RecoveryMessage

pub record Recovery : Type 0 where
  pub message : RecoveryMessage
  pub v : ℕ
  pub r : List ℕ
  pub s : List ℕ

-- `split_first_chunk::<32>()`
abbrev pub split_chunk : List ℕ → Option (List ℕ × List ℕ)
split_chunk bytes = if ltb (length bytes) 32 then none else some (take 32 bytes, drop 32 bytes)

abbrev pub last_byte : RecoveryMessage → List ℕ → Option (List ℕ × List ℕ) → Option Recovery
last_byte message r (some (s, v ∷ [])) = some (record { message = message; v = v; r = r; s = s })
last_byte message r (some (s, _)) = none
last_byte message r none = none

abbrev pub second_chunk : RecoveryMessage → Option (List ℕ × List ℕ) → Option Recovery
second_chunk message (some (r, remainder)) = last_byte message r (split_chunk remainder)
second_chunk message none = none

-- Recovery::from_raw_signature; `none` is a ParseSignatureError.
unfoldable pub from_raw_signature : RecoveryMessage → List ℕ → Option Recovery
unfolding take drop
from_raw_signature message bytes = second_chunk message (split_chunk bytes)

-- Recovery::recovery_id
unfoldable pub recovery_id : ℕ → Option ℕ
recovery_id v =
    if v == 27
    then some 0
    else if v == 28
    then some 1
    else if leb 35 v
    then if v % 2 == 0 then some 1 else some 0
    else none

-- RecoveryId::try_from
abbrev pub id_of : ℕ → Option RecoveryId
id_of zero = some id0
id_of (suc zero) = some id1
id_of (suc (suc zero)) = some id2
id_of (suc (suc (suc zero))) = some id3
id_of (suc (suc (suc (suc n)))) = none

-- `name.split('.')`
unfoldable pub split : List ℕ → List (List ℕ)
split [] = [] ∷ []
split (b ∷ bytes) = let rest = split bytes in if b == 46 then [] ∷ rest else prepend b rest
  where
    prepend : ℕ → List (List ℕ) → List (List ℕ)
    prepend b [] = (b ∷ []) ∷ []
    prepend b (label ∷ labels) = (b ∷ label) ∷ labels

unfoldable pub reverse : List (List ℕ) → List (List ℕ)
reverse [] = []
reverse (x ∷ xs) = reverse xs ++ x ∷ []

-- "\x19Ethereum Signed Message:\n"
abbrev pub prefix : List ℕ
prefix =
    25 ∷ 69 ∷ 116 ∷ 104 ∷ 101 ∷ 114 ∷ 101 ∷ 117 ∷ 109 ∷ 32 ∷ 83 ∷ 105 ∷ 103 ∷ 110 ∷ 101 ∷ 100 ∷ 32
    ∷ 77 ∷ 101 ∷ 115 ∷ 115 ∷ 97 ∷ 103 ∷ 101 ∷ 58 ∷ 10 ∷ []

-- `[0u8; 32]`
abbrev pub zeros : List ℕ
zeros =
    0 ∷ 0 ∷ 0 ∷ 0 ∷ 0 ∷ 0 ∷ 0 ∷ 0 ∷ 0 ∷ 0 ∷ 0 ∷ 0 ∷ 0 ∷ 0 ∷ 0 ∷ 0 ∷ 0 ∷ 0 ∷ 0 ∷ 0 ∷ 0 ∷ 0 ∷ 0 ∷ 0
    ∷ 0 ∷ 0 ∷ 0 ∷ 0 ∷ 0 ∷ 0 ∷ 0 ∷ 0 ∷ []

module _ {SecretKey PublicKey : Type 0} (crypto : Crypto SecretKey PublicKey) where
  -- What a signature is made of, with `v` computed from the recovery id.
  abbrev pub made : (ℕ → Result ℕ) → RecoveryId × List ℕ → Result Signature
  made v_of (id, compact) = do
    standard_v ← standard id
    v ← v_of standard_v
    ok (signature_of v compact)

  -- Key::sign
  unfoldable pub sign : SecretKey → List ℕ → Option ℕ → Result Signature
  sign key message chain_id = do
    digest ← digest_of (Error.signing SigningError.invalid_message) message
    made (v_of chain_id) (crypto.sign_ecdsa digest key)

  -- Key::sign_message
  unfoldable pub sign_message : SecretKey → List ℕ → Result Signature
  sign_message key message = do
    digest ← digest_of (Error.signing SigningError.invalid_message) message
    made (λ v. ok v) (crypto.sign_ecdsa digest key)

  -- public_key_address and secret_key_address
  abbrev pub public_key_address : PublicKey → List ℕ
  public_key_address key = drop 12 (crypto.keccak256 (drop 1 (crypto.serialize key)))

  abbrev pub address : SecretKey → List ℕ
  address key = public_key_address (crypto.from_secret_key key)

  -- recover
  unfoldable pub recover : List ℕ → List ℕ → ℕ → Result (List ℕ)
  recover message signature recovery_id = do
    digest ← digest_of (Error.recovery RecoveryError.invalid_message) message
    id ← ok_or (id_of recovery_id) (Error.recovery RecoveryError.invalid_signature)
    key ←
        ok_or (crypto.recover_ecdsa digest signature id)
          (Error.recovery RecoveryError.invalid_signature)
    ok (public_key_address key)

  -- hash_message
  unfoldable pub hash_message : List ℕ → List ℕ
  hash_message message = crypto.keccak256 (prefix ++ crypto.decimal (length message) ++ message)

  -- The loop of namehash.
  unfoldable pub node_of : List ℕ → List (List ℕ) → List ℕ
  node_of node [] = node
  node_of node (label ∷ labels) = node_of (crypto.keccak256 (node ++ crypto.keccak256 label)) labels

  -- namehash, of the bytes of a name
  unfoldable pub namehash : List ℕ → List ℕ
  unfolding node_of split reverse
  namehash [] = zeros
  namehash (b ∷ bytes) = node_of zeros (reverse (split (b ∷ bytes)))

  abbrev pub message_hash : RecoveryMessage → List ℕ
  message_hash (text message) = hash_message message
  message_hash (hash h) = h

  -- Accounts::recover
  unfoldable pub recover_address : Recovery → Result (List ℕ)
  recover_address recovery = do
    id ← ok_or (recovery_id recovery.v) (Error.recovery RecoveryError.invalid_signature)
    recover (message_hash recovery.message) (recovery.r ++ recovery.s) id
