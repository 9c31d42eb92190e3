-- ===== src/Api/Traces.antt =====
-- src/api/traces.rs: what each method of the namespace asks of its transport. An argument is the value
-- that it serializes to, except for block numbers.
use rust_web.Prelude.{[], ◌∷◌, Option}
use rust_web.Rpc.{Value, string}
use rust_web.Error.{Error, Result}
use rust_web.Session.{Session, Transport, ask}
use rust_web.Types.Block.{Formats, BlockNumber, BlockId, serialize_number, serialize_id}
use rust_web.Api.Eth.{block_or_latest, or_latest_id}

module _ {S A : Type 0} (formats : Formats) (transport : Transport S)
    (decode : Value → Result A) where
  abbrev pub call : Value → Value → Option BlockNumber → Session S Error A
  call req trace_type b =
      ask transport decode "trace_call" (req ∷ trace_type ∷ block_or_latest formats b ∷ [])

  abbrev pub call_many : Value → Option BlockId → Session S Error A
  call_many reqs_with_trace_types b =
      ask transport decode "trace_callMany"
        (reqs_with_trace_types ∷ serialize_id formats (or_latest_id b) ∷ [])

  abbrev pub raw_transaction : Value → Value → Session S Error A
  raw_transaction bytes trace_type =
      ask transport decode "trace_rawTransaction" (bytes ∷ trace_type ∷ [])

  abbrev pub replay_transaction : Value → Value → Session S Error A
  replay_transaction hash trace_type =
      ask transport decode "trace_replayTransaction" (hash ∷ trace_type ∷ [])

  abbrev pub replay_block_transactions : BlockNumber → Value → Session S Error A
  replay_block_transactions b trace_type =
      ask transport decode "trace_replayBlockTransactions"
        (string (serialize_number formats b) ∷ trace_type ∷ [])

  abbrev pub block : BlockNumber → Session S Error A
  block b = ask transport decode "trace_block" (string (serialize_number formats b) ∷ [])

  abbrev pub filter : Value → Session S Error A
  filter wanted = ask transport decode "trace_filter" (wanted ∷ [])

  abbrev pub get : Value → Value → Session S Error A
  get hash index = ask transport decode "trace_get" (hash ∷ index ∷ [])

  abbrev pub transaction : Value → Session S Error A
  transaction hash = ask transport decode "trace_transaction" (hash ∷ [])
