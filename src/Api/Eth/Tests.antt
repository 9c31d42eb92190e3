-- ===== src/Api/Eth/Tests.antt =====
-- The eth namespace at concrete calls.
use Prim.Native.String.{count}
use rust_web.Prelude.{ℕ, ◌≡◌, refl, List, [], ◌∷◌, Option, none, some, String, arith}
use rust_web.Rpc.{Value, string, null}
use rust_web.Error.{ok}
use rust_web.Session.{test_transport, execute, call_future, prepare, send, done}
use rust_web.Session.Log.{at}
use rust_web.Types.Block
use rust_web.Types.Block.{serialize_number}
use rust_web.Types.Block.Tests.{formats, formats-IsHex, read_strokes}
use rust_web.Api.Eth.{balance, ask}
use rust_web.Api.Eth.Calls.{Call, perform}
use rust_web.Api.Eth.Node.{Readers, read}
use rust_web.Api.Eth.Asked.{IsReader, perform-IsAskedFor}

abbrev of_string : Value → Option ℕ
of_string (string s) = some (count s)
of_string _ = none

abbrev pub readers : Readers
readers = record { read_hash = of_string; read_debug = λ s. some (count s) }

pub readers-IsReader : IsReader formats readers
readers-IsReader = (read_strokes, read_strokes)

-- The balance of an address in the latest block.
balance_logged :
    balance formats test_transport (λ v. ok v) (string "0xab") none (at [] (null ∷ []))
    ≡ (at (("eth_getBalance", string "0xab" ∷ string "latest" ∷ []) ∷ []) [], done null)
unfolding serialize_number execute call_future test_transport prepare send
balance_logged = refl

-- The fourth block, with its transactions.
perform-IsAskedFor_example :
    (method : String) × (params : List Value) × (perform formats test_transport
        (λ v. ok v)
        (Call.block_with_txs (Block.BlockId.number (Block.BlockNumber.number 4)))
      ≡ ask formats test_transport (λ v. ok v) method params)
    × (read formats readers method params
        ≡ some (Call.block_with_txs (Block.BlockId.number (Block.BlockNumber.number 4))))
perform-IsAskedFor_example =
    perform-IsAskedFor formats readers formats-IsHex readers-IsReader test_transport (λ v. ok v)
      (Call.block_with_txs (Block.BlockId.number (Block.BlockNumber.number 4))) (omega arith)
