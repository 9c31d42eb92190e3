-- ===== src/Session.antt =====
-- The trait Transport of src/lib.rs, CallFuture of src/helpers.rs, and src/transports/test.rs. What a
-- program does with a transport is a function of the transport's state, which it hands back changed
-- with its outcome.
pub mod Log
pub mod Ended
use rust_web.Prelude.{ℕ, suc, String, List, [], ◌∷◌, ◌++◌, length, ◌≡◌, refl, ◌⊎◌, inl, inr}
use rust_web.Rpc.{Value, Call}
use rust_web.Error.{Error, Result, ok, err}
use rust_web.Helpers.{build_request}

-- std::result::Result, for any type of errors.
pub data Except (E A : Type 0) : Type 0 where
  fail : E → Except E A
  done : A → Except E A

abbrev pub of_result : {A : Type 0} → Result A → Except Error A
of_result (ok a) = done a
of_result (err e) = fail e

-- To split on a computed outcome and keep the equation.
pub Except-cases :
    {E A : Type 0} (r : Except E A) → ((e : E) × (r ≡ fail e)) ⊎ ((a : A) × (r ≡ done a))
Except-cases (fail e) = inl (e, refl)
Except-cases (done a) = inr (a, refl)

-- A computation over a transport of state S.
abbrev pub Session : Type 0 → Type 0 → Type 0 → Type 0
Session S E A = S → S × Except E A

module _ {S E : Type 0} where
  abbrev pub give : {A : Type 0} → Except E A → Session S E A
  give r s = (s, r)

  abbrev pub pure : {A : Type 0} → A → Session S E A
  pure a s = (s, done a)

  -- What follows an outcome: an error ends the computation.
  abbrev pub continue : {A B : Type 0} → S × Except E A → (A → Session S E B) → S × Except E B
  continue (s, fail e) rest = (s, fail e)
  continue (s, done a) rest = rest a s

  infixl 5 ◌>>=◌
  abbrev pub ◌>>=◌ : {A B : Type 0} → Session S E A → (A → Session S E B) → Session S E B
  ◌>>=◌ m rest s = continue (m s) rest

-- Result::map_err
abbrev pub failing_as : {E F A : Type 0} → (E → F) → Except E A → Except F A
failing_as f (fail e) = fail (f e)
failing_as f (done a) = done a

abbrev pub map_err : {S E F A : Type 0} → (E → F) → Session S E A → Session S F A
map_err f m s = let (after, r) = m s in (after, failing_as f r)

-- trait Transport
pub record Transport (S : Type 0) : Type 0 where
  pub prepare : String → List Value → S → S × (ℕ × Call)
  pub send : ℕ → Call → S → S × Result Value

abbrev pub outcome : {S A : Type 0} → S × Result A → S × Except Error A
outcome (s, r) = (s, of_result r)

-- Transport::execute
unfoldable pub execute : {S : Type 0} → Transport S → String → List Value → Session S Error Value
execute transport method params s =
    let (prepared, (id, request)) = transport.prepare method params s in
    outcome (transport.send id request prepared)

-- CallFuture: the result of the call, decoded by serde as the type of the caller.
unfoldable pub call_future :
    {S A : Type 0} → (Value → Result A) → Session S Error Value → Session S Error A
call_future decode inner = inner >>= λ x. give (of_result (decode x))

-- CallFuture::new(transport.execute(method, params))
abbrev pub ask :
    {S A : Type 0} → Transport S → (Value → Result A) → String → List Value → Session S Error A
ask transport decode method params = call_future decode (execute transport method params)

-- struct TestTransport
pub record TestTransport : Type 0 where
  pub requests : List (String × List Value)
  pub responses : List Value

-- TestTransport::prepare
unfoldable pub prepare : String → List Value → TestTransport → TestTransport × (ℕ × Call)
prepare method params t =
    let pushed = record t { requests = t.requests ++ (method, params) ∷ [] } in
    (pushed, (length pushed.requests, build_request 1 method params))

abbrev answered : List Value → TestTransport → TestTransport × Result Value
answered [] t = (t, err Error.unreachable)
answered (response ∷ rest) t = (record t { responses = rest }, ok response)

-- TestTransport::send
unfoldable pub send : ℕ → Call → TestTransport → TestTransport × Result Value
send id request t = answered t.responses t

-- TestTransport::set_response
unfoldable pub set_response : Value → TestTransport → TestTransport
set_response value t = record t { responses = value ∷ [] }

-- TestTransport::add_response
unfoldable pub add_response : Value → TestTransport → TestTransport
add_response value t = record t { responses = t.responses ++ value ∷ [] }

-- impl Transport for TestTransport
unfoldable pub test_transport : Transport TestTransport
test_transport = record { prepare = prepare; send = send }
