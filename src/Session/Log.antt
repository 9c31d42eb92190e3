-- ===== src/Session/Log.antt =====
-- src/transports/test.rs: what an executed call leaves behind, one call after another.
use rust_web.Prelude.{String, List, [], ◌∷◌, ◌++◌, ◌≡◌, refl}
use rust_web.Rpc.{Value}
use rust_web.Error.{Error}
use rust_web.Session.{fail, done, execute, TestTransport, test_transport, prepare, send}

-- A transport whose log is `log` and whose answers left are `responses`.
abbrev pub at : List (String × List Value) → List Value → TestTransport
at log responses = record { requests = log; responses = responses }

-- A call that is executed is logged last, and gets the first answer that is left.
pub execute-answered :
    (method : String) (params : List Value) (log : List (String × List Value)) (response : Value)
    (rest : List Value)
    → execute test_transport method params (at log (response ∷ rest))
      ≡ (at (log ++ (method, params) ∷ []) rest, done response)
unfolding execute test_transport prepare send
execute-answered method params log response rest = refl

-- Where no answer is left the call is logged and fails.
pub execute-unreachable :
    (method : String) (params : List Value) (log : List (String × List Value))
    → execute test_transport method params (at log [])
      ≡ (at (log ++ (method, params) ∷ []) [], fail Error.unreachable)
unfolding execute test_transport prepare send
execute-unreachable method params log = refl
