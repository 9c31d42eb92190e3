-- ===== src/Contract/Events.antt =====
-- Contract::events of src/contract/mod.rs, over any transport.
mod Parsed
mod Tests
use rust_web.Prelude.{ℕ, String, List, [], ◌∷◌}
use rust_web.Rpc.{Value}
use rust_web.Error.{Error, Result}
use rust_web.Session.{
  Except, fail, done, Session, Transport, ◌>>=◌, give, map_err, failing_as, continue, ask,
}
use rust_web.Types.Block.{Formats, BlockNumber}
use rust_web.Filters.{Filter, Topic, topic_filter, build, default}
use rust_web.Api.Eth
use rust_web.Contract.Tokens.{Token, Decoded}
use rust_web.Contract.Abi.{AbiError, ContractError}
use rust_web.Contract.Call.{and_then, from_tokens_of}

-- ethabi's Topic of tokens
pub data RawTopic : Type 0 where
  any : RawTopic
  one_of : List Token → RawTopic

-- ethabi's TopicFilter
pub record TopicFilter : Type 0 where
  pub topic0 : Topic
  pub topic1 : Topic
  pub topic2 : Topic
  pub topic3 : Topic

-- What the source reads of a log.
pub record Log : Type 0 where
  pub topics : List ℕ
  pub log_data : List ℕ

-- ethabi::Event: `filter` of a RawTopicFilter, and the values of `parse_log`
pub record Event : Type 0 where
  pub filter : RawTopic → RawTopic → RawTopic → Except AbiError TopicFilter
  pub parse_log : Log → Except AbiError (List Token)

-- to_topic
unfoldable pub to_topic : List Token → RawTopic
to_topic [] = any
to_topic (t ∷ tokens) = one_of (t ∷ tokens)

-- FilterBuilder::default().topic_filter(filter).build()
abbrev pub built : TopicFilter → Filter BlockNumber
built f = build (topic_filter f.topic0 f.topic1 f.topic2 f.topic3 ∷ []) default

module _ {R : Type 0} (from_tokens : List Token → Decoded R) where
  -- What a log comes to.
  abbrev pub parsed : Event → Log → Except ContractError R
  parsed event log =
      and_then (failing_as ContractError.abi (event.parse_log log))
        λ values. from_tokens_of (from_tokens values)

  abbrev and_more : {E : Type 0} → Except E R → Except E (List R) → Except E (List R)
  and_more (fail e) rest = fail e
  and_more (done r) (fail e) = fail e
  and_more (done r) (done rs) = done (r ∷ rs)

  -- `collect::<Result<Vec<R>>>()`
  unfoldable pub collected : Event → List Log → Except ContractError (List R)
  collected event [] = done []
  collected event (log ∷ logs) = and_more (parsed event log) (collected event logs)

  module _ {S : Type 0} (formats : Formats) (transport : Transport S)
      (serialize : Filter BlockNumber → Value) (decode : Value → Result (List Log)) where
    abbrev pub filtered_logs : TopicFilter → Session S Error (List Log)
    filtered_logs filter = Eth.logs formats transport decode (serialize (built filter))

    abbrev pub events_with : Event → TopicFilter → Session S ContractError (List R)
    events_with event filter = do
      logs ← map_err ContractError.api (filtered_logs filter)
      give (collected event logs)

    abbrev pub events_of :
        List Token → List Token → List Token → Event → Session S ContractError (List R)
    events_of topic0 topic1 topic2 event = do
      filter ← give (
          failing_as ContractError.abi
            (event.filter (to_topic topic0) (to_topic topic1) (to_topic topic2)))
      events_with event filter

    -- Contract::events, for the event that the ABI has under the name
    unfoldable pub events :
        Except AbiError Event
        → List Token
        → List Token
        → List Token
        → Session S ContractError (List R)
    events named topic0 topic1 topic2 = do
      event ← give (failing_as ContractError.abi named)
      events_of topic0 topic1 topic2 event
