-- ===== src/Api/Parity.antt =====
-- src/api/parity.rs: what each method of the namespace asks of its transport. An argument is the value
-- that it serializes to.
use rust_web.Prelude.{ℕ, List, [], ◌∷◌, Option, none, some}
use rust_web.Rpc.{Value, number, null}
use rust_web.Error.{Error, Result}
use rust_web.Session.{Session, Transport, ask}

-- The parameters of pending_transactions; `Value::from` of a usize is a number.
abbrev pending_params : Option ℕ → Option Value → List Value
pending_params none (some f) = null ∷ f ∷ []
pending_params (some l) (some f) = number l ∷ f ∷ []
pending_params (some l) none = number l ∷ []
pending_params none none = []

module _ {S A : Type 0} (transport : Transport S) (decode : Value → Result A) where
  abbrev pub call : Value → Session S Error A
  call reqs = ask transport decode "parity_call" (reqs ∷ [])

  abbrev pub pending_transactions : Option ℕ → Option Value → Session S Error A
  pending_transactions limit filter =
      ask transport decode "parity_pendingTransactions" (pending_params limit filter)
