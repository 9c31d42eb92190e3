-- ===== src/Contract/Events/Tests.antt =====
-- Events at concrete logs.
use rust_web.Prelude.{ℕ, List, [], ◌∷◌, map}
use rust_web.Rpc.{Value, null}
use rust_web.Error.{Result, ok}
use rust_web.Session.{done, TestTransport}
use rust_web.Session.Log.{at}
use rust_web.Types.Block.{BlockNumber}
use rust_web.Filters.{Filter, Topic}
use rust_web.Contract.Tokens.{Token, uint, Decoded, decoded}
use rust_web.Contract.Events.{Event, Log, TopicFilter}

abbrev transfers : TopicFilter
transfers = record {
  topic0 = Topic.this 1;
  topic1 = Topic.any;
  topic2 = Topic.any;
  topic3 = Topic.any;
}

abbrev transfer : Event
transfer = record {
  filter = λ t0 t1 t2. done transfers;
  parse_log = λ log. done (map (λ n. uint n) log.log_data);
}

abbrev tokens : List Token → Decoded (List Token)
tokens ts = decoded ts

abbrev log : ℕ → Log
log n = record { topics = 1 ∷ []; log_data = n ∷ [] }

abbrev two_logs : Value → Result (List Log)
two_logs v = ok (log 5 ∷ log 6 ∷ [])

abbrev written : Filter BlockNumber → Value
written filter = null

abbrev asked : TestTransport
asked = at (("eth_getLogs", null ∷ []) ∷ []) []

abbrev found : List (List Token)
found = (uint 5 ∷ []) ∷ (uint 6 ∷ []) ∷ []
