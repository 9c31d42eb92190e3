-- ===== src/Api/Others/Tests.antt =====
-- The namespaces other than eth at concrete calls.
use rust_web.Prelude.{String, List, none, some, ◌≡◌}
use rust_web.Rpc.{Value, string}
use rust_web.Error.{ok}
use rust_web.Session.{test_transport, ask}
use rust_web.Types.Block.Tests.{formats, formats-IsHex}
use rust_web.Api.Eth.Tests.{readers, readers-IsReader}
use rust_web.Api.Others.{Call, perform}
use rust_web.Api.Others.Node.{read}
use rust_web.Api.Others.Asked.{perform-IsRead}

-- Pending transactions without a limit, and with a filter.
abbrev filtered : Call
filtered = Call.parity_pending_transactions none (some (string "from"))

perform-IsRead_example :
    (method : String) × (params : List Value) × (perform formats test_transport (λ v. ok v) filtered
      ≡ ask test_transport (λ v. ok v) method params)
    × (read formats readers method params ≡ some filtered)
perform-IsRead_example =
    perform-IsRead formats readers formats-IsHex readers-IsReader test_transport (λ v. ok v)
      filtered tt
