-- ===== src/Transports/Either.antt =====
-- src/transports/either.rs: a transport that is one of two. Its state is the state of that one.
use rust_web.Prelude.{ℕ, String, List, ◌≡◌, refl, ◌⊎◌, inl, inr}
use rust_web.Rpc.{Value, Call}
use rust_web.Error.{Result, ok, err}
use rust_web.Session.{continue, outcome, give, of_result, Transport, execute, ask, call_future}

module _ {A B : Type 0} where
  abbrev pub left : {R : Type 0} → A × R → (A ⊎ B) × R
  left (a, r) = (inl a, r)

  abbrev pub right : {R : Type 0} → B × R → (A ⊎ B) × R
  right (b, r) = (inr b, r)

  -- Either::prepare
  unfoldable pub prepare :
      Transport A → Transport B → String → List Value → A ⊎ B → (A ⊎ B) × (ℕ × Call)
  prepare l r method params (inl a) = left (l.prepare method params a)
  prepare l r method params (inr b) = right (r.prepare method params b)

  -- Either::send
  unfoldable pub send : Transport A → Transport B → ℕ → Call → A ⊎ B → (A ⊎ B) × Result Value
  send l r id request (inl a) = left (l.send id request a)
  send l r id request (inr b) = right (r.send id request b)

  -- impl Transport for Either
  unfoldable pub either : Transport A → Transport B → Transport (A ⊎ B)
  unfolding prepare send
  either l r = record { prepare = prepare l r; send = send l r }

  answered-left :
      {R : Type 0} (decode : Value → Result R) (p : A × Result Value)
      → continue (outcome (left p)) (λ x. give (of_result (decode x)))
        ≡ left (continue (outcome p) (λ x. give (of_result (decode x))))
  answered-left decode (a, ok v) = refl
  answered-left decode (a, err e) = refl

  answered-right :
      {R : Type 0} (decode : Value → Result R) (p : B × Result Value)
      → continue (outcome (right p)) (λ x. give (of_result (decode x)))
        ≡ right (continue (outcome p) (λ x. give (of_result (decode x))))
  answered-right decode (b, ok v) = refl
  answered-right decode (b, err e) = refl

  -- A call over a transport that is one of two does what it does over that one.
  pub ask-either :
      {R : Type 0} (l : Transport A) (r : Transport B) (decode : Value → Result R) (method : String)
      (params : List Value)
      → ((a : A)
          → ask (either l r) decode method params (inl a) ≡ left (ask l decode method params a))
        × ((b : B)
            → ask (either l r) decode method params (inr b) ≡ right (ask r decode method params b))
  unfolding either call_future execute prepare send
  ask-either l r decode method params = (
    λ a. let p = l.prepare method params a in answered-left decode (l.send p.1.0 p.1.1 p.0),
    λ b. let p = r.prepare method params b in answered-right decode (r.send p.1.0 p.1.1 p.0),
  )
