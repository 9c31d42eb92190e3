-- ===== src/Accounts/Fill/Asked.antt =====
-- Accounts::sign_transaction of src/api/accounts.rs: what the node is asked, and what is signed.
use rust_web.Prelude.{
  ℕ, ◌^◌, ◌<◌, ◌≡◌, refl, ap, sym, ◌∙◌, String, List, [], ◌∷◌, ◌++◌, Option, none, some, true,
  false, ltb, arith, Bool-cases, inl, inr,
}
use rust_web.Rpc.{Value, string}
use rust_web.Error.{Result, ok, ok-injective}
use rust_web.Session.{done, fail, of_result, ask, pure, TestTransport, test_transport}
use rust_web.Session.Log.{at}
use rust_web.Session.Ended.{continue-done, of_result-done, call_future-done, both, done-injective}
use rust_web.Signing.{Crypto, recover_address, address}
use rust_web.Signing.Recover.{IsSound, IsChainId, IsParity}
use rust_web.Types.Block.{Formats, serialize_number}
use rust_web.Accounts.{
  Rlp, Access, Transaction, SignedTransaction, Encoded, encode, sign_tx, is_legacy,
  of_signed_transaction,
}
use rust_web.Accounts.Sign.{IsInRange, digest, sign_tx_recover}
use rust_web.Accounts.Fill.{
  TransactionParameters, maybe, gas_price_of, unwrap_or_default, is_eip1559, chain_id_of, filled,
  sign_filled, with_price, with_nonce, sign_transaction,
}

-- The number is the one that is given, and nothing is asked; or none is given, and the number is what
-- the first answer decodes to, with the question logged last.
abbrev pub IsGot :
    (Value → Result ℕ) → String → List Value → Option ℕ → TestTransport → TestTransport → ℕ → Type 0
IsGot decode method params (some value) before after n = (after ≡ before) × (n ≡ value)
IsGot decode method params none before after n =
    (v : Value) × (rest : List Value) × (before.responses ≡ v ∷ rest)
    × (after ≡ at (before.requests ++ (method, params) ∷ []) rest)
    × (decode v ≡ ok n)

-- The value that is given, or the default.
abbrev pub IsOr {ℓ} : {A : Type ℓ} → Option A → A → A → Type ℓ
IsOr none default a = a ≡ default
IsOr (some given) default a = a ≡ given

-- The transaction that has the parameters, a nonce and a gas price, where it is not of EIP-1559.
pub record IsFilled (tx : TransactionParameters) (n price : ℕ) (t : Transaction) : Type 0 where
  pub to : t.to ≡ tx.to
  pub nonce : t.nonce ≡ n
  pub gas : t.gas ≡ tx.gas
  pub gas_price : t.gas_price ≡ price
  pub value : t.value ≡ tx.value
  pub tx_data : t.tx_data ≡ tx.tx_data
  pub transaction_type : t.transaction_type ≡ tx.transaction_type
  pub access_list : IsOr tx.access_list [] t.access_list
  pub priority : t.max_priority_fee_per_gas ≡ price

IsGot-asked :
    (decode : Value → Result ℕ) (method : String) (params : List Value) (given : Option ℕ)
    (before after : TestTransport) (n : ℕ)
    → maybe given (ask test_transport decode method params) before ≡ (after, done n)
    → IsGot decode method params given before after n
IsGot-asked decode method params (some value) before after n h =
    (sym (ap (λ p. p.0) h), sym (done-injective (ap (λ p. p.1) h)))
IsGot-asked decode method params none before after n h =
    let (v, rest, rs, logged, dec) =
      call_future-done decode method params before.requests before.responses (ap (λ p. p.1) h) in
    (v, rest, rs, sym (ap (λ p. p.0) h) ∙ logged, dec)

pub call_future-answered :
    {A : Type 0} (decode : Value → Result A) (method : String) (params : List Value)
    (log : List (String × List Value)) (v : Value) (rest : List Value) (a : A)
    → decode v ≡ ok a
    → ask test_transport decode method params (at log (v ∷ rest))
      ≡ (at (log ++ (method, params) ∷ []) rest, done a)
unfolding rust_web.Session.call_future rust_web.Session.execute test_transport rust_web.Session.send
    rust_web.Session.prepare
call_future-answered decode method params log v rest a dec = rw dec refl

asked-IsGot :
    (decode : Value → Result ℕ) (method : String) (params : List Value) (given : Option ℕ)
    (before after : TestTransport) (n : ℕ)
    → IsGot decode method params given before after n
    → maybe given (ask test_transport decode method params) before ≡ (after, done n)
asked-IsGot decode method params (some value) before after n (s, e) = rw (s, e) refl
asked-IsGot decode method params none before after n (v, rest, rs, logged, dec) =
    ap (λ r. ask test_transport decode method params (at before.requests r)) rs
    ∙ call_future-answered decode method params before.requests v rest n dec
    ∙ ap (λ t. (t, done n)) (sym logged)

legacy-price :
    (tx : TransactionParameters)
    → is_legacy tx.transaction_type ≡ true
    → is_eip1559 tx.transaction_type ≡ false
legacy-price tx h = go tx.transaction_type h
  where
    go : (t : Option ℕ) → is_legacy t ≡ true → is_eip1559 t ≡ false
    go none h = refl
    go (some t) h = ground arith

IsOr-unwrap_or_default :
    (given : Option (List Access)) (a : List Access) → IsOr given [] a → unwrap_or_default given ≡ a
IsOr-unwrap_or_default none a h = sym h
IsOr-unwrap_or_default (some given) a h = sym h

IsFilled-filled :
    (tx : TransactionParameters) (n price : ℕ) (t : Transaction)
    → is_eip1559 tx.transaction_type ≡ false
    → IsFilled tx n price t
    → t ≡ filled tx n price
IsFilled-filled tx n price t plain h =
    rw
      (
        plain,
        sym h.to,
        sym h.nonce,
        sym h.gas,
        sym h.value,
        sym h.tx_data,
        sym h.transaction_type,
        IsOr-unwrap_or_default tx.access_list t.access_list h.access_list,
        sym h.priority,
      )
      (ap (λ p. record t { gas_price = p }) (h.gas_price ∙ sym h.priority))

chain_id_of-fits : (c : ℕ) → c < 2 ^ 64 → chain_id_of c ≡ ok c
chain_id_of-fits c fits = let low : ltb c (2 ^ 64) ≡ true = ground (arith, fits) in rw low refl

fits-chain_id_of : (n c : ℕ) → chain_id_of n ≡ ok c → (n ≡ c) × (c < 2 ^ 64)
fits-chain_id_of n c h = elim (Bool-cases (ltb n (2 ^ 64))) [
  | inl low ↦ let same : n ≡ c = ok-injective (rw low at h) in (same, ground (arith, same, low))
  | inr big ↦ absurd (let r = rw big at h in cc)
]

module _ {SecretKey PublicKey : Type 0} (crypto : Crypto SecretKey PublicKey)
    (out : List Rlp → List ℕ) (formats : Formats) (write : List ℕ → Value)
    (decode : Value → Result ℕ) where
  -- The nonce, the gas price and the chain id are the transaction's own or, where it has none, what the
  -- node answered when it was asked for them in this order.
  pub record IsAsked (key : SecretKey) (own_nonce own_price own_chain : Option ℕ)
      (before after : TestTransport) (nonce price chain : ℕ) : Type 0 where
    pub counted : TestTransport
    pub priced : TestTransport
    pub transaction_count :
        IsGot decode "eth_getTransactionCount"
          (write (address crypto key) ∷ string "latest" ∷ [])
          own_nonce
          before
          counted
          nonce
    pub gas_price : IsGot decode "eth_gasPrice" [] own_price counted priced price
    pub chain_id : IsGot decode "eth_chainId" [] own_chain priced after chain
    pub fits : chain < 2 ^ 64

  pub IsAsked-same :
      {key : SecretKey} {own_nonce own_price own_chain a b c : Option ℕ}
      {before after : TestTransport} {nonce price chain : ℕ}
      → own_nonce ≡ a
      → own_price ≡ b
      → own_chain ≡ c
      → IsAsked key own_nonce own_price own_chain before after nonce price chain
      → IsAsked key a b c before after nonce price chain
  IsAsked-same h k l asked = rw⁻¹ (h, k, l) asked

  -- A transaction that was signed is the one with its parameters and the answers of the node.
  pub sign_transaction_sound :
      (tx : TransactionParameters) (key : SecretKey) (before after : TestTransport)
      (signed : SignedTransaction)
      → sign_transaction crypto out formats write decode test_transport tx key before
        ≡ (after, done signed)
      → (nonce price chain : ℕ) × IsAsked key tx.nonce
          (gas_price_of tx)
          tx.chain_id
          before
          after
          nonce
          price
          chain
        × (sign_tx crypto out (filled tx nonce price) key chain ≡ ok signed)
  unfolding sign_transaction serialize_number
  sign_transaction_sound tx key before after signed h =
      let m1 =
        maybe tx.nonce
          (ask test_transport decode "eth_getTransactionCount"
            (write (address crypto key) ∷ string "latest" ∷ []))
          before in
      let (nonce, n, h1) =
        continue-done m1 (with_nonce crypto out formats write decode test_transport tx key) h in
      let m2 = maybe (gas_price_of tx) (ask test_transport decode "eth_gasPrice" []) m1.0 in
      let (price, p, h2) =
        continue-done m2 (with_price crypto out formats write decode test_transport tx key nonce)
          h1 in
      let m3 = maybe tx.chain_id (ask test_transport decode "eth_chainId" []) m2.0 in
      let (n3, c, h3) =
        continue-done m3
          (sign_filled crypto out formats write decode test_transport tx key nonce price) h2 in
      let (chain, k, h4) =
        continue-done (m3.0, of_result (chain_id_of n3))
          (λ id s. (s, of_result (sign_tx crypto out (filled tx nonce price) key id))) h3 in
      let fits = fits-chain_id_of n3 chain (of_result-done (chain_id_of n3) k) in
      (
        nonce,
        price,
        chain,
        record {
          counted = m1.0;
          priced = m2.0;
          transaction_count = IsGot-asked decode _ _ tx.nonce before m1.0 nonce (both m1 refl n);
          gas_price = IsGot-asked decode _ _ (gas_price_of tx) m1.0 m2.0 price (both m2 refl p);
          chain_id =
              IsGot-asked decode _ _ tx.chain_id m2.0 after chain
                (both m3 (ap (λ q. q.0) h4) (c ∙ ap done fits.0));
          fits = fits.1;
        },
        of_result-done (sign_tx crypto out (filled tx nonce price) key chain) (ap (λ q. q.1) h4),
      )

  -- With the answers of the node to what is missing, the transaction that is filled in is signed.
  sign_transaction_complete :
      (tx : TransactionParameters) (key : SecretKey) (before after : TestTransport)
      (nonce price chain : ℕ) (signed : SignedTransaction)
      → IsAsked key tx.nonce (gas_price_of tx) tx.chain_id before after nonce price chain
      → sign_tx crypto out (filled tx nonce price) key chain ≡ ok signed
      → sign_transaction crypto out formats write decode test_transport tx key before
        ≡ (after, done signed)
  unfolding sign_transaction serialize_number
  sign_transaction_complete tx key before after nonce price chain signed a s =
      rw
        (
          asked-IsGot decode _ _ tx.nonce before a.counted nonce a.transaction_count,
          asked-IsGot decode _ _ (gas_price_of tx) a.counted a.priced price a.gas_price,
          asked-IsGot decode _ _ tx.chain_id a.priced after chain a.chain_id,
          chain_id_of-fits chain a.fits,
          s,
        )
        refl

  -- A legacy transaction is signed with the nonce, the gas price and the chain id that it gives or,
  -- where it gives none, that the node answers when it is asked for them in this order, the transactions
  -- of the key's address counted at the latest block: if the chain id has 64 bits and leaves room for v,
  -- the transaction with these values can be encoded, and the curve gives a recovery id of 0 or 1 and a
  -- signature in range. The result is this transaction, signed, and its signer is recovered from it.
  pub sign_transaction_recover :
      (tx : TransactionParameters) (key : SecretKey) (before after : TestTransport)
      (nonce price chain p : ℕ) (t : Transaction) (e : Encoded)
      → IsSound crypto
      → is_legacy tx.transaction_type ≡ true
      → IsAsked key tx.nonce tx.gas_price tx.chain_id before after nonce price chain
      → IsFilled tx nonce price t
      → IsChainId (some chain)
      → encode t chain none ≡ ok e
      → IsParity (crypto.sign_ecdsa (digest crypto out e) key).0 p
      → IsInRange (crypto.sign_ecdsa (digest crypto out e) key).1
      → (signed : SignedTransaction) × (sign_transaction crypto out formats write decode
            test_transport tx key before
          ≡ (after, done signed))
        × (sign_tx crypto out t key chain ≡ ok signed)
        × (recover_address crypto (of_signed_transaction signed) ≡ ok (address crypto key))
  sign_transaction_recover tx key before after nonce price chain p t e sound legacy a f room enc h
        valid =
      let (signed, made, v, back) =
        sign_tx_recover crypto out t key chain p e sound (ap is_legacy f.transaction_type ∙ legacy)
          enc room h valid in
      let plain = legacy-price tx legacy in
      let price_of : gas_price_of tx ≡ tx.gas_price = rw plain refl in
      let same = IsFilled-filled tx nonce price t plain f in
      (
        signed,
        sign_transaction_complete tx key before after nonce price chain signed
            (IsAsked-same refl (sym price_of) refl a)
            (ap (λ u. sign_tx crypto out u key chain) (sym same) ∙ made),
        made,
        back,
      )
