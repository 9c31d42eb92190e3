-- ===== src/Transports/Ws/Quiet.antt =====
-- What a notification changes in the task of src/transports/ws.rs.
use rust_web.Prelude.{
  ℕ, ◌≡◌, refl, String, Option, none, some, Bool, str_eq, arith, Bool-cases, inl, inr,
}
use rust_web.Prelude.Table
use rust_web.Rpc.{Value, Notification, Params}
use rust_web.Transports.Ws.{Task}
use rust_web.Transports.Ws.Message.{deliver, notice, on_params, on_notification}

-- Requests and answers stay as they are, and so does the loop.
pub record Quiet (s u : Task) : Type 0 where
  pub pending : u.pending ≡ s.pending
  pub answers : u.answers ≡ s.answers
  pub running : u.running ≡ s.running

Quiet-deliver :
    (accepts : ℕ → Bool) (id : String) (result : Value) (s : Task)
    → Quiet s (deliver accepts id result s).0
unfolding deliver
Quiet-deliver accepts id result s = ground arith

Quiet-notice :
    (accepts : ℕ → Bool) (id result : Option Value) (s : Task)
    → Quiet s (notice accepts id result s).0
unfolding notice
Quiet-notice accepts (some (Value.string id)) (some result) s = Quiet-deliver accepts id result s
Quiet-notice accepts (some (Value.string id)) none s = record {
  pending = refl;
  answers = refl;
  running = refl;
}
Quiet-notice accepts _ _ s = record { pending = refl; answers = refl; running = refl }

Quiet-on_params :
    (accepts : ℕ → Bool) (params : Params) (s : Task) → Quiet s (on_params accepts params s).0
Quiet-on_params accepts (Params.map m) s =
    Quiet-notice accepts (Table.lookup "subscription" m) (Table.lookup "result" m) s
Quiet-on_params accepts _ s = record { pending = refl; answers = refl; running = refl }

-- A notification, valid or not, neither answers a request nor ends the loop by itself.
pub Quiet-on_notification :
    (accepts : ℕ → Bool) (n : Notification) (s : Task) → Quiet s (on_notification accepts n s).0
unfolding on_notification
Quiet-on_notification accepts n s = elim (Bool-cases (str_eq n.method "eth_subscription")) [
  | inl e ↦ rw e (Quiet-on_params accepts n.params s)
  | inr e ↦ rw e (record { pending = refl; answers = refl; running = refl })
]
