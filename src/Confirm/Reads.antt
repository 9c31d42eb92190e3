-- ===== src/Confirm/Reads.antt =====
-- src/confirm.rs: what is asked while a transaction is confirmed.
use rust_web.Prelude.{
  ℕ, zero, suc, ◌≡◌, refl, sym, ap, ◌∙◌, ◌⊎◌, inl, inr, String, List, [], ◌∷◌, ◌++◌, append-nil,
  append_assoc, All, Option, none, some, Bool, true, false, ltb, Bool-cases,
}
use rust_web.Rpc.{Value}
use rust_web.Error.{Error, Result}
use rust_web.Session.{
  Except, fail, done, of_result, Session, ask, continue, TestTransport, test_transport,
}
use rust_web.Types.Block.{Formats}
use rust_web.Api.EthFilter.{BaseFilter, create_filter, items}
use rust_web.Confirm.{required_block}
use rust_web.Confirm.Polled.{
  ConfirmDecoders, receipt_check, deep_enough, on_item, unless_ended, each_item, poll_blocks,
  with_filter, wait, fetch_receipt, then_fetch, confirm,
}

-- One of the four questions of a wait, none of which sends anything.
abbrev pub IsRead : String × List Value → Type 0
IsRead call =
    (call.0 ≡ "eth_newBlockFilter")
    ⊎ ((call.0 ≡ "eth_getFilterChanges")
        ⊎ ((call.0 ≡ "eth_getTransactionReceipt") ⊎ (call.0 ≡ "eth_blockNumber")))

-- From one state of the transport to the other, only such questions were asked.
pub record OnlyReads (s t : TestTransport) : Type 0 where
  pub asked : List (String × List Value)
  pub logged : t.requests ≡ s.requests ++ asked
  pub reads : All IsRead asked

pub OnlyReads-refl : (s : TestTransport) → OnlyReads s s
OnlyReads-refl s = record { asked = []; logged = sym (append-nil s.requests); reads = tt }

All-append : (a b : List (String × List Value)) → All IsRead a → All IsRead b → All IsRead (a ++ b)
All-append [] b h k = k
All-append (x ∷ a) b h k = (h.0, All-append a b h.1 k)

OnlyReads-trans : {s t u : TestTransport} → OnlyReads s t → OnlyReads t u → OnlyReads s u
OnlyReads-trans {s = s} h k = record {
  asked = h.asked ++ k.asked;
  logged = k.logged ∙ ap (λ l. l ++ k.asked) h.logged ∙ append_assoc s.requests h.asked k.asked;
  reads = All-append h.asked k.asked h.reads k.reads;
}

pub ask-logged :
    {A : Type 0} (decode : Value → Result A) (method : String) (params : List Value)
    (s : TestTransport)
    → (ask test_transport decode method params s).0.requests ≡ s.requests ++ (method, params) ∷ []
unfolding rust_web.Session.call_future rust_web.Session.execute test_transport rust_web.Session.send
    rust_web.Session.prepare
ask-logged decode method params s = go s.responses
  where
    go :
        (l : List Value)
        → (ask test_transport decode method params (record s { responses = l })).0.requests
          ≡ s.requests ++ (method, params) ∷ []
    go [] = refl
    go (v ∷ rest) = refl

OnlyReads-ask :
    {A : Type 0} (decode : Value → Result A) (method : String) (params : List Value)
    → IsRead (method, params)
    → (s : TestTransport) → OnlyReads s (ask test_transport decode method params s).0
OnlyReads-ask decode method params read s = record {
  asked = (method, params) ∷ [];
  logged = ask-logged decode method params s;
  reads = (read, tt);
}

OnlyReads-continue :
    {A B : Type 0} (s : TestTransport) (first : TestTransport × Except Error A)
    (rest : A → Session TestTransport Error B)
    → OnlyReads s first.0
    → ((a : A) (t : TestTransport) → OnlyReads t (rest a t).0)
    → OnlyReads s (continue first rest).0
OnlyReads-continue s (t, fail e) rest h k = h
OnlyReads-continue s (t, done a) rest h k = OnlyReads-trans h (k a t)

module _ {Receipt : Type 0} (formats : Formats) (answers : ConfirmDecoders Receipt) (c : ℕ) where
  deep_enough-OnlyReads :
      (seen : Option ℕ) (s : TestTransport)
      → OnlyReads s (deep_enough formats test_transport answers c seen s).0
  deep_enough-OnlyReads none s = OnlyReads-refl s
  deep_enough-OnlyReads (some b) s =
      OnlyReads-continue s (ask test_transport answers.uint "eth_blockNumber" [] s) _
        (OnlyReads-ask answers.uint "eth_blockNumber" [] (inr (inr (inr refl))) s)
        λ n t.
          OnlyReads-continue t (t, of_result (required_block b c)) _ (OnlyReads-refl t)
            λ required u. OnlyReads-refl u

  on_item-OnlyReads :
      (hash : ℕ) (item : Except Error ℕ) (s : TestTransport)
      → OnlyReads s (on_item formats test_transport answers c hash item s).0
  unfolding on_item receipt_check
  on_item-OnlyReads hash (fail e) s = OnlyReads-refl s
  on_item-OnlyReads hash (done block) s =
      OnlyReads-continue s (receipt_check formats test_transport answers c hash s) _
        (OnlyReads-continue s
          (ask test_transport answers.receipt "eth_getTransactionReceipt"
            (formats.serialize_hash hash ∷ []) s)
          _ (OnlyReads-ask answers.receipt _ _ (inr (inr (inl refl))) s) λ r t. OnlyReads-refl t)
        deep_enough-OnlyReads

  unless_ended-OnlyReads :
      (s : TestTransport) (r : TestTransport × Except Error Bool)
      (next : TestTransport → TestTransport × Option (Except Error (Unit {0})))
      → OnlyReads s r.0
      → ((t : TestTransport) → OnlyReads t (next t).0)
      → OnlyReads s (unless_ended formats test_transport answers c r next).0
  unless_ended-OnlyReads s (t, fail e) next h k = h
  unless_ended-OnlyReads s (t, done true) next h k = h
  unless_ended-OnlyReads s (t, done false) next h k = OnlyReads-trans h (k t)

  each_item-OnlyReads :
      (hash : ℕ) (found : List (Except Error ℕ)) (skip : ℕ)
      (next : ℕ → TestTransport → TestTransport × Option (Except Error (Unit {0})))
      → ((k : ℕ) (t : TestTransport) → OnlyReads t (next k t).0)
      → (s : TestTransport)
      → OnlyReads s (each_item formats test_transport answers c hash found skip next s).0
  each_item-OnlyReads hash [] skip next k s = k skip s
  each_item-OnlyReads hash (item ∷ rest) zero next k s =
      unless_ended-OnlyReads s (on_item formats test_transport answers c hash item s)
        (each_item formats test_transport answers c hash rest zero next)
        (on_item-OnlyReads hash item s) (each_item-OnlyReads hash rest zero next k)
  each_item-OnlyReads hash (item ∷ rest) (suc skip) next k s =
      each_item-OnlyReads hash rest skip next k s

  poll_blocks-OnlyReads :
      (hash : ℕ) (base : BaseFilter) (polls skip : ℕ) (s : TestTransport)
      → OnlyReads s (poll_blocks formats test_transport answers c hash base polls skip s).0
  unfolding poll_blocks
  poll_blocks-OnlyReads hash base zero skip s = OnlyReads-refl s
  poll_blocks-OnlyReads hash base (suc polls) skip s =
      let polled =
        ask test_transport answers.changes "eth_getFilterChanges" (rust_web.Rpc.string base.id ∷ [])
          s in
      OnlyReads-trans (OnlyReads-ask answers.changes "eth_getFilterChanges" _ (inr (inl refl)) s) (
        each_item-OnlyReads hash (items test_transport answers.changes polled.1) skip
          (poll_blocks formats test_transport answers c hash base polls)
          (poll_blocks-OnlyReads hash base polls) polled.0)

  with_filter-OnlyReads :
      (hash polls : ℕ) (s : TestTransport) (r : TestTransport × Except Error BaseFilter)
      → OnlyReads s r.0
      → OnlyReads s (with_filter formats test_transport answers c hash polls r).0
  with_filter-OnlyReads hash polls s (t, fail e) h = h
  with_filter-OnlyReads hash polls s (t, done base) h =
      OnlyReads-trans h (poll_blocks-OnlyReads hash base polls c t)

  wait-OnlyReads :
      (hash polls : ℕ) (s : TestTransport)
      → OnlyReads s (wait formats test_transport answers c hash polls s).0
  unfolding wait create_filter
  wait-OnlyReads hash polls s = with_filter-OnlyReads hash polls s _ (
      OnlyReads-continue s (ask test_transport answers.id "eth_newBlockFilter" [] s) _
        (OnlyReads-ask answers.id _ _ (inl refl) s) λ id t. OnlyReads-refl t)

  fetch_receipt-OnlyReads :
      (hash : ℕ) (s : TestTransport)
      → OnlyReads s (fetch_receipt formats test_transport answers c hash s).0
  fetch_receipt-OnlyReads hash s =
      OnlyReads-continue s
        (ask test_transport answers.receipt "eth_getTransactionReceipt"
          (formats.serialize_hash hash ∷ []) s)
        _ (OnlyReads-ask answers.receipt _ _ (inr (inr (inl refl))) s) λ r t. OnlyReads-refl t

  then_fetch-OnlyReads :
      (hash : ℕ) (s : TestTransport) (r : TestTransport × Option (Except Error (Unit {0})))
      → OnlyReads s r.0
      → OnlyReads s (then_fetch formats test_transport answers c hash r).0
  then_fetch-OnlyReads hash s (t, none) h = h
  then_fetch-OnlyReads hash s (t, some (fail e)) h = h
  then_fetch-OnlyReads hash s (t, some (done u)) h =
      OnlyReads-trans h (fetch_receipt-OnlyReads hash t)

  -- A transaction that is confirmed, however that ends, makes the node read only: it is asked for a
  -- filter of blocks, its changes, receipts and block numbers.
  pub confirm-OnlyReads :
      (hash polls : ℕ) (s : TestTransport)
      → OnlyReads s (confirm formats test_transport answers c hash polls s).0
  unfolding confirm
  confirm-OnlyReads hash polls s = elim (Bool-cases (ltb 0 c)) [
    | inl some_blocks ↦ rw some_blocks (then_fetch-OnlyReads hash s _ (wait-OnlyReads hash polls s))
    | inr no_block ↦ rw no_block (fetch_receipt-OnlyReads hash s)
  ]
