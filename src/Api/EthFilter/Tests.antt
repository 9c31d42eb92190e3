-- ===== src/Api/EthFilter/Tests.antt =====
-- Streams of filters at concrete answers.
use rust_web.Prelude.{ℕ, List, [], ◌∷◌, Option, none, some, ◌≡◌, true}
use rust_web.Rpc.{Value, number, null, bool}
use rust_web.Error.{Error, Result, ok, err}
use rust_web.Session.{fail, done, test_transport}
use rust_web.Session.Log.{at}
use rust_web.Api.EthFilter.{BaseFilter, filter_stream}
use rust_web.Api.EthFilter.Stream.{changes, filter_stream_lem}

abbrev one_or_none : Value → Result (Option (List ℕ))
one_or_none (number n) = ok (some (n ∷ []))
one_or_none null = ok none
one_or_none _ = err Error.internal

abbrev base : BaseFilter
base = record { id = "0x1" }

-- A change, no change, a failure and another change.
filter_stream_lem_example :
    filter_stream test_transport one_or_none base 4
      (at [] (number 5 ∷ null ∷ bool true ∷ number 6 ∷ []))
    ≡ (at (changes base 4) [], done 5 ∷ fail Error.internal ∷ done 6 ∷ [])
filter_stream_lem_example =
    filter_stream_lem one_or_none base (number 5 ∷ null ∷ bool true ∷ number 6 ∷ []) [] []
