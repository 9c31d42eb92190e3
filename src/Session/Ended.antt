-- ===== src/Session/Ended.antt =====
-- Where a computation over a transport ends well, each of its steps did.
use rust_web.Prelude.{◌≡◌, refl, String, List, [], ◌∷◌, ◌++◌}
use rust_web.Rpc.{Value}
use rust_web.Error.{Result, ok, err}
use rust_web.Session.{
  Except, fail, done, of_result, failing_as, continue, Session, test_transport, execute,
  call_future, prepare, send,
}
use rust_web.Session.Log.{at}

pub continue-done :
    {S E A B : Type 0} (first : S × Except E A) (rest : A → Session S E B) {after : S} {b : B}
    → continue first rest ≡ (after, done b)
    → (a : A) × (first.1 ≡ done a) × (rest a first.0 ≡ (after, done b))
continue-done (s, fail e) rest h = cc
continue-done (s, done a) rest h = (a, refl, h)

pub failing_as-done :
    {E F A : Type 0} (f : E → F) (r : Except E A) {a : A} → failing_as f r ≡ done a → r ≡ done a
failing_as-done f (fail e) h = cc
failing_as-done f (done x) h = cc

pub done-injective : {E A : Type 0} {a b : A} → ◌≡◌ {A = Except E A} (done a) (done b) → a ≡ b
done-injective h = cc

pub both : {A B : Type 0} (p : A × B) {a : A} {b : B} → p.0 ≡ a → p.1 ≡ b → p ≡ (a, b)
both (x, y) h k = cc

pub of_result-done : {A : Type 0} (r : Result A) {a : A} → of_result r ≡ done a → r ≡ ok a
of_result-done (err e) h = cc
of_result-done (ok x) h = cc

-- A call of the test transport that ends well has been logged, and decodes the first answer.
pub call_future-done :
    {A : Type 0} (decode : Value → Result A) (method : String) (params : List Value)
    (log : List (String × List Value)) (responses : List Value) {a : A}
    → (call_future decode (execute test_transport method params) (at log responses)).1 ≡ done a
    → (v : Value) × (rest : List Value) × (responses ≡ v ∷ rest)
      × ((call_future decode (execute test_transport method params) (at log responses)).0
          ≡ at (log ++ (method, params) ∷ []) rest)
      × (decode v ≡ ok a)
unfolding call_future execute test_transport prepare send
call_future-done decode method params log [] h = cc
call_future-done decode method params log (v ∷ rest) h =
    (v, rest, refl, refl, of_result-done (decode v) h)
