-- ===== src/Transports/Ws/Notices.antt =====
-- Notifications in src/transports/ws.rs: where they are delivered, and what they may change.
use rust_web.Prelude.{
  ℕ, ◌≡◌, String, [], ◌∷◌, ◌++◌, none, some, Bool, true, false, str_eq, if◌then◌else◌,
}
use rust_web.Prelude.Table
use rust_web.Prelude.Table.{Table}
use rust_web.Rpc.{Value, Notification, Params}
use rust_web.Transports.Ws.{Task}

-- The notification is one of eth_subscription, for a subscription's id, with a result.
pub record IsNotice (n : Notification) (id : String) (v : Value) : Type 0 where
  pub members : Table Value
  pub method : n.method ≡ "eth_subscription"
  pub params : n.params ≡ Params.map members
  pub subscription : Table.lookup "subscription" members ≡ some (Value.string id)
  pub result : Table.lookup "result" members ≡ some v

-- The notification is for a subscription that the task has.
abbrev pub IsFor : Notification → Task → Type 0
IsFor n s =
    (id : String) × (v : Value) × (sink : ℕ) × IsNotice n id v
    × (Table.lookup id s.subscriptions ≡ some sink)

-- What a notification does: its result is delivered on the channel of its subscription; or this
-- channel refuses, and its subscription is closed, with the others as they were; or it is for no
-- subscription, and nothing changes.
pub data Effect (accepts : ℕ → Bool) (n : Notification) (s t : Task) : Type 0 where
  delivered :
      (id : String) (v : Value) (sink : ℕ)
      → IsNotice n id v
      → Table.lookup id s.subscriptions ≡ some sink
      → accepts sink ≡ true
      → t ≡ record s { delivered = s.delivered ++ (sink, v) ∷ [] }
      → Effect accepts n s t
  closed :
      (id : String) (v : Value) (sink : ℕ)
      → IsNotice n id v
      → Table.lookup id s.subscriptions ≡ some sink
      → accepts sink ≡ false
      → t ≡ record s { subscriptions = t.subscriptions }
      → ((j : String)
          → Table.lookup j t.subscriptions
            ≡ (if str_eq id j then none else Table.lookup j s.subscriptions))
      → Effect accepts n s t
  ignored : ¬ IsFor n s → t ≡ s → Effect accepts n s t

string-injective : {a b : String} → Value.string a ≡ Value.string b → a ≡ b
string-injective h = cc
