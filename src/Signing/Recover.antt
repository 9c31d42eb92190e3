-- ===== src/Signing/Recover.antt =====
-- Who signed: the v values and the addresses of src/signing.rs and src/types/recovery.rs.
use rust_web.Prelude.{
  ℕ, zero, suc, ◌+◌, ◌*◌, ◌^◌, ◌≤◌, ◌<◌, ◌≡◌, refl, ap, List, [], ◌∷◌, ◌++◌, Option, none, some,
  length, arith,
}
use rust_web.Error.{Error, Result, ok, ok-injective}
use rust_web.Signing.{
  RecoveryId, id0, id1, id2, id3, Crypto, Signature, take, drop, digest_of, standard, v_of,
  signature_of, recovery_id, id_of, made, sign, address, recover, recover_address, RecoveryMessage,
  hash, message_hash,
}

-- What is documented of secp256k1 and Keccak-256: the lengths of a hash and of a compact signature,
-- and that a signature gives back the public key of the key that made it.
pub record IsSound {SecretKey PublicKey : Type 0} (crypto : Crypto SecretKey PublicKey)
    : Type 0 where
  pub hash_size : (bytes : List ℕ) → length (crypto.keccak256 bytes) ≡ 32
  pub compact_size :
      (digest : List ℕ) (key : SecretKey) → length (crypto.sign_ecdsa digest key).1 ≡ 64
  pub recovers :
      (digest : List ℕ) (key : SecretKey)
      → crypto.recover_ecdsa digest
          (crypto.sign_ecdsa digest key).1
          (crypto.sign_ecdsa digest key).0
        ≡ some (crypto.from_secret_key key)

take-drop : (n : ℕ) (xs : List ℕ) → take n xs ++ drop n xs ≡ xs
unfolding take drop
take-drop zero xs = refl
take-drop (suc n) [] = refl
take-drop (suc n) (x ∷ xs) = ap (λ ys. x ∷ ys) (take-drop n xs)

-- The ids that a signature for Ethereum may have, with the number that `v` is made from.
abbrev pub IsParity : RecoveryId → ℕ → Type 0
IsParity id p = standard id ≡ ok p

-- A chain id whose v values fit 64 bits.
abbrev pub IsChainId : Option ℕ → Type 0
IsChainId none = Unit
IsChainId (some c) = c * 2 + 36 < 2 ^ 64

pub parity_small : (id : RecoveryId) (p : ℕ) → IsParity id p → (p ≤ 1) × (id_of p ≡ some id)
parity_small id0 p h = let e : 0 ≡ p = ok-injective h in rw (← e) (omega arith, refl)
parity_small id1 p h = let e : 1 ≡ p = ok-injective h in rw (← e) (omega arith, refl)
parity_small id2 p h = cc
parity_small id3 p h = cc

-- Electrum or replay-protected, the v value tells the recovery id.
pub v_of-recovery_id :
    (chain_id : Option ℕ) (p : ℕ)
    → p ≤ 1
    → IsChainId chain_id
    → (v : ℕ) × (v_of chain_id p ≡ ok v) × (recovery_id v ≡ some p) × (v < 2 ^ 64)
unfolding v_of recovery_id
v_of-recovery_id none p h c = (p + 27, refl, ground arith, omega (arith, h))
v_of-recovery_id (some chain) p h c =
    (chain * 2 + 35 + p, ground arith, ground arith, omega (arith, h, c))

module _ {SecretKey PublicKey : Type 0} (crypto : Crypto SecretKey PublicKey) where
  pub made-ok :
      (f : ℕ → Result ℕ) (signed : RecoveryId × List ℕ) (p v : ℕ)
      → IsParity signed.0 p
      → f p ≡ ok v
      → made crypto f signed ≡ ok (signature_of v signed.1)
  made-ok f (id, compact) p v h e = rw (h, e) refl

  pub size_digest :
      (e : Error) (digest : List ℕ) → length digest ≡ 32 → digest_of e digest ≡ ok digest
  unfolding digest_of
  size_digest e digest h = ground (arith, h)

  recover-ok :
      (digest : List ℕ) (key : SecretKey) (p : ℕ)
      → IsSound crypto
      → length digest ≡ 32
      → IsParity (crypto.sign_ecdsa digest key).0 p
      → recover crypto digest (crypto.sign_ecdsa digest key).1 p ≡ ok (address crypto key)
  unfolding recover
  recover-ok digest key p sound size h =
      rw
        (
          size_digest _ digest size,
          (parity_small (crypto.sign_ecdsa digest key).0 p h).1,
          sound.recovers digest key,
        )
        refl

  -- The signature that a v value and the bytes of a signature make gives back the address.
  pub recover_address-ok :
      (message : RecoveryMessage) (key : SecretKey) (p v : ℕ)
      → IsSound crypto
      → length (message_hash crypto message) ≡ 32
      → IsParity (crypto.sign_ecdsa (message_hash crypto message) key).0 p
      → recovery_id v ≡ some p
      → recover_address crypto (record {
        message = message;
        v = v;
        r = take 32 (crypto.sign_ecdsa (message_hash crypto message) key).1;
        s = drop 32 (crypto.sign_ecdsa (message_hash crypto message) key).1;
      })
        ≡ ok (address crypto key)
  unfolding recover_address
  recover_address-ok message key p v sound size h e =
      rw (e, take-drop 32 (crypto.sign_ecdsa (message_hash crypto message) key).1)
        (recover-ok (message_hash crypto message) key p sound size h)

  -- Signing a digest of 32 bytes succeeds, if the curve gives a recovery id of 0 or 1 and the chain id
  -- leaves room for v; and from the signature and the digest, `recover` gives the signer's address.
  pub sign_recover :
      (digest : List ℕ) (key : SecretKey) (chain_id : Option ℕ) (p : ℕ)
      → IsSound crypto
      → length digest ≡ 32
      → IsParity (crypto.sign_ecdsa digest key).0 p
      → IsChainId chain_id
      → (signed : Signature) × (sign crypto key digest chain_id ≡ ok signed)
        × (recover_address crypto
              (record { message = hash digest; v = signed.v; r = signed.r; s = signed.s })
            ≡ ok (address crypto key))
  unfolding sign
  sign_recover digest key chain_id p sound size h c =
      let (v, made_v, back, fits) =
        v_of-recovery_id chain_id p (parity_small (crypto.sign_ecdsa digest key).0 p h).0 c in
      (
        signature_of v (crypto.sign_ecdsa digest key).1,
        rw (size_digest _ digest size)
            (made-ok (v_of chain_id) (crypto.sign_ecdsa digest key) p v h made_v),
        recover_address-ok (hash digest) key p v sound size h back,
      )
