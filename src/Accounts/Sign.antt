-- ===== src/Accounts/Sign.antt =====
-- Signing and recovering in src/api/accounts.rs.
use rust_web.Prelude.{
  ℕ, ◌+◌, ◌*◌, ◌≤◌, ◌≡◌, refl, ap, List, [], ◌∷◌, ◌++◌, Option, none, some, length, true, false,
  ltb, arith, Bool-cases, inl, inr,
}
use rust_web.Error.{Error, RecoveryError, ok, err, bind-ok, ok-injective}
use rust_web.Signing.{
  Crypto, Signature, signature_of, take, drop, sign, sign_message, address, validate_signature,
  hash_message, recovery_base, v_of, recovery_id, Recovery, text, hash, recover_address,
  from_raw_signature,
}
use rust_web.Signing.Recover.{
  IsSound, IsParity, IsChainId, made-ok, size_digest, recover_address-ok, parity_small,
}
use rust_web.Signing.Raw.{from_raw_signature_lem, length-take, length-drop}
use rust_web.Accounts.{
  Transaction, SignedTransaction, SignedData, of_signed_data, of_signed_transaction, is_legacy,
  Encoded, encode, encode_as, encode_legacy, check_v, sign_tx, sign_data, electrum, bytes_of, Rlp,
  finished,
}

-- What the range check of r and s says of the bytes of a signature.
abbrev pub IsInRange : List ℕ → Type 0
IsInRange compact = (v : ℕ) → validate_signature (signature_of v compact) ≡ ok tt

legacy_encode_as :
    (tx : Transaction) (chain_id : ℕ) (signature : Option Signature) (t : Option ℕ)
    → is_legacy t ≡ true
    → (e : Encoded) × (encode_as tx chain_id signature t ≡ ok e)
legacy_encode_as tx chain_id signature none h = (([], encode_legacy tx chain_id signature), refl)
legacy_encode_as tx chain_id signature (some t) h =
    (([], encode_legacy tx chain_id signature), rw h refl)

legacy_total :
    (tx : Transaction) (chain_id : ℕ) (signature : Option Signature)
    → is_legacy tx.transaction_type ≡ true
    → (e : Encoded) × (encode tx chain_id signature ≡ ok e)
unfolding encode
legacy_total tx chain_id signature h = legacy_encode_as tx chain_id signature tx.transaction_type h

module _ {SecretKey PublicKey : Type 0} (crypto : Crypto SecretKey PublicKey)
    (out : List Rlp → List ℕ) where
  sign-ok :
      (digest : List ℕ) (key : SecretKey) (chain_id : Option ℕ) (p v : ℕ)
      → length digest ≡ 32
      → IsParity (crypto.sign_ecdsa digest key).0 p
      → v_of chain_id p ≡ ok v
      → sign crypto key digest chain_id ≡ ok (signature_of v (crypto.sign_ecdsa digest key).1)
  unfolding sign
  sign-ok digest key chain_id p v size h e =
      rw (size_digest crypto _ digest size)
        (made-ok crypto (v_of chain_id) (crypto.sign_ecdsa digest key) p v h e)

  -- The data that is signed, with its signature.
  abbrev data_of : List ℕ → List ℕ → ℕ → SignedData
  data_of message compact v = record {
    message = message;
    message_hash = hash_message crypto message;
    v = v;
    r = take 32 compact;
    s = drop 32 compact;
    signature = take 32 compact ++ (drop 32 compact ++ v ∷ []);
  }

  electrum-parity : (p : ℕ) → p ≤ 1 → electrum (p + 27) ≡ ok (p + 27)
  electrum-parity p h = ground (arith, h)

  electrum_id : (p : ℕ) → p ≤ 1 → recovery_id (p + 27) ≡ some p
  unfolding recovery_id
  electrum_id p h = ground (arith, h)

  hash_size : (message : List ℕ) → IsSound crypto → length (hash_message crypto message) ≡ 32
  unfolding hash_message
  hash_size message sound = sound.hash_size _

  sign_data-ok :
      (message : List ℕ) (key : SecretKey) (p : ℕ)
      → IsSound crypto
      → IsParity (crypto.sign_ecdsa (hash_message crypto message) key).0 p
      → IsInRange (crypto.sign_ecdsa (hash_message crypto message) key).1
      → sign_data crypto out message key
        ≡ ok (data_of message (crypto.sign_ecdsa (hash_message crypto message) key).1 (p + 27))
  unfolding sign_data v_of
  sign_data-ok message key p sound h valid =
      let digest = hash_message crypto message in
      rw
        (
          sign-ok digest key none p (p + 27) (hash_size message sound) h refl,
          electrum-parity p (parity_small (crypto.sign_ecdsa digest key).0 p h).0,
          valid (p + 27),
        )
        refl

  -- Signing a message succeeds, if the curve gives a recovery id of 0 or 1 and a signature in range.
  -- The address is recovered from what was signed; and from the message and the 65 bytes of the
  -- signature alone.
  pub sign_data_recover :
      (message : List ℕ) (key : SecretKey) (p : ℕ)
      → IsSound crypto
      → IsParity (crypto.sign_ecdsa (hash_message crypto message) key).0 p
      → IsInRange (crypto.sign_ecdsa (hash_message crypto message) key).1
      → (signed : SignedData) × (recovery : Recovery) × (sign_data crypto out message key
          ≡ ok signed)
        × (recover_address crypto (of_signed_data signed) ≡ ok (address crypto key))
        × (from_raw_signature (text message) signed.signature ≡ some recovery)
        × (recover_address crypto recovery ≡ ok (address crypto key))
  sign_data_recover message key p sound h valid =
      let digest = hash_message crypto message in
      let compact = (crypto.sign_ecdsa digest key).1 in
      let size = sound.compact_size digest key in
      let back = electrum_id p (parity_small (crypto.sign_ecdsa digest key).0 p h).0 in
      let long = hash_size message sound in
      (
        data_of message compact (p + 27),
        record { message = text message; v = p + 27; r = take 32 compact; s = drop 32 compact },
        sign_data-ok message key p sound h valid,
        recover_address-ok crypto (hash digest) key p (p + 27) sound long h back,
        from_raw_signature_lem (text message) (take 32 compact) (drop 32 compact) (p + 27)
            (length-take 32 compact (omega (arith, size)))
            (omega (arith, size, length-drop 32 compact (omega (arith, size)))),
        recover_address-ok crypto (text message) key p (p + 27) sound long h back,
      )

  -- The digest that is signed for a transaction.
  abbrev pub digest : Encoded → List ℕ
  digest e = crypto.keccak256 (bytes_of crypto out e)

  base-ok : (c : ℕ) → IsChainId (some c) → recovery_base c ≡ some (c * 2 + 35)
  base-ok c h = ground (arith, h)

  v_of-legacy : (c p : ℕ) → p ≤ 1 → IsChainId (some c) → v_of (some c) p ≡ ok (c * 2 + 35 + p)
  unfolding v_of
  v_of-legacy c p h fits = ground (arith, h, fits)

  legacy_id : (c p : ℕ) → p ≤ 1 → recovery_id (c * 2 + 35 + p) ≡ some p
  unfolding recovery_id
  legacy_id c p h = ground (arith, h)

  check_v-legacy :
      (c p : ℕ) → p ≤ 1 → IsChainId (some c) → check_v (some (c * 2 + 35)) (c * 2 + 35 + p) ≡ ok tt
  check_v-legacy c p h fits = ground (arith, h, fits)

  -- A legacy transaction that can be encoded is signed, if the chain id leaves room for v and the
  -- curve gives a recovery id of 0 or 1 and a signature in range; v is the one of EIP-155; and the
  -- address is recovered from the signed transaction.
  pub sign_tx_recover :
      (tx : Transaction) (key : SecretKey) (chain_id p : ℕ) (e : Encoded)
      → IsSound crypto
      → is_legacy tx.transaction_type ≡ true
      → encode tx chain_id none ≡ ok e
      → IsChainId (some chain_id)
      → IsParity (crypto.sign_ecdsa (digest e) key).0 p
      → IsInRange (crypto.sign_ecdsa (digest e) key).1
      → (signed : SignedTransaction) × (sign_tx crypto out tx key chain_id ≡ ok signed)
        × (signed.v ≡ chain_id * 2 + 35 + p)
        × (recover_address crypto (of_signed_transaction signed) ≡ ok (address crypto key))
  unfolding sign_tx
  sign_tx_recover tx key chain_id p e sound legacy enc fits h valid =
      let small = (parity_small (crypto.sign_ecdsa (digest e) key).0 p h).0 in
      let long = sound.hash_size (bytes_of crypto out e) in
      let v = chain_id * 2 + 35 + p in
      let (signed, enc2) =
        legacy_total tx chain_id (some (signature_of v (crypto.sign_ecdsa (digest e) key).1))
          legacy in
      (
        finished crypto out (digest e) (signature_of v (crypto.sign_ecdsa (digest e) key).1)
            (bytes_of crypto out signed),
        rw
            (
              legacy,
              base-ok chain_id fits,
              enc,
              sign-ok (digest e) key (some chain_id) p v long h (v_of-legacy chain_id p small fits),
              check_v-legacy chain_id p small fits,
              valid v,
              enc2,
            )
            refl,
        refl,
        recover_address-ok crypto (hash (digest e)) key p v sound long h
            (legacy_id chain_id p small),
      )

  small_v : (v : ℕ) → check_v none v ≡ ok tt → v ≤ 1
  small_v v h = elim (Bool-cases (ltb 1 v)) [
    | inl big ↦ absurd (let r = rw big at h in cc)
    | inr low ↦ ground arith
  ]

  small_id : (v : ℕ) → v ≤ 1 → recovery_id v ≡ none
  unfolding recovery_id
  small_id v h = ground (arith, h)

  typed_v :
      (tx : Transaction) (key : SecretKey) (chain_id : ℕ) (signed : SignedTransaction)
      → is_legacy tx.transaction_type ≡ false
      → sign_tx crypto out tx key chain_id ≡ ok signed
      → signed.v ≤ 1
  unfolding sign_tx
  typed_v tx key chain_id signed t h =
      let h0 = rw t at h in
      let (e, enc, h1) = bind-ok (encode tx chain_id none) _ h0 in
      let (sig, made_sig, h2) = bind-ok (sign_message crypto key (digest e)) _ h1 in
      let (u, ok_v, h3) = bind-ok (check_v none sig.v) _ h2 in
      let (w, valid, h4) = bind-ok (validate_signature sig) _ h3 in
      let (e2, enc2, h5) = bind-ok (encode tx chain_id (some sig)) _ h4 in
      let q : sig.v ≡ signed.v = ap (λ (x : SignedTransaction). x.v) (ok-injective h5) in
      let small = small_v sig.v ok_v in omega (arith, small, q)

  -- A signed transaction of type 1 or 2 has a v of 0 or 1, which `recovery_id` does not know: the
  -- recovery that is made from it fails, whoever signed it.
  pub typed_not_recovered :
      (tx : Transaction) (key : SecretKey) (chain_id : ℕ) (signed : SignedTransaction)
      → is_legacy tx.transaction_type ≡ false
      → sign_tx crypto out tx key chain_id ≡ ok signed
      → recover_address crypto (of_signed_transaction signed)
        ≡ err (Error.recovery RecoveryError.invalid_signature)
  unfolding recover_address
  typed_not_recovered tx key chain_id signed t h =
      rw (small_id signed.v (typed_v tx key chain_id signed t h)) refl
