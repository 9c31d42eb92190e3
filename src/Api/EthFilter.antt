-- ===== src/Api/EthFilter.antt =====
-- src/api/eth_filter.rs: filters that the node keeps, and the stream that polls one.
mod Stream
mod Tests
use rust_web.Prelude.{ℕ, zero, suc, String, List, [], ◌∷◌, ◌++◌, map, Option, none, some}
use rust_web.Rpc.{Value, string}
use rust_web.Error.{Error, Result}
use rust_web.Session.{
  Except, fail, done, of_result, Session, ◌>>=◌, give, pure, continue, Transport, execute, ask,
}

-- LogsFilter, BlocksFilter and PendingTransactionsFilter
pub data Kind : Type 0 where
  logs : Kind
  blocks : Kind
  pending_transactions : Kind

-- FilterInterface::constructor
abbrev pub constructor : Kind → String
constructor logs = "eth_newFilter"
constructor blocks = "eth_newBlockFilter"
constructor pending_transactions = "eth_newPendingTransactionFilter"

-- struct BaseFilter, whose transport is a parameter of its operations.
pub record BaseFilter : Type 0 where
  pub id : String

module _ {S : Type 0} (transport : Transport S) where
  -- create_filter, with the decoder of a String
  unfoldable pub create_filter :
      (Value → Result String) → Kind → List Value → Session S Error BaseFilter
  create_filter decode kind arg = do
    id ← ask transport decode (constructor kind) arg
    pure (record { id = id })

  -- EthFilter::create_logs_filter, create_blocks_filter and create_pending_transactions_filter
  abbrev pub create_logs_filter : (Value → Result String) → Value → Session S Error BaseFilter
  create_logs_filter decode filter = create_filter decode logs (filter ∷ [])

  abbrev pub create_blocks_filter : (Value → Result String) → Session S Error BaseFilter
  create_blocks_filter decode = create_filter decode blocks []

  abbrev pub create_pending_transactions_filter :
      (Value → Result String) → Session S Error BaseFilter
  create_pending_transactions_filter decode = create_filter decode pending_transactions []

  module _ {A : Type 0} (decode : Value → Result A) where
    -- BaseFilter::uninstall
    abbrev pub uninstall : BaseFilter → Session S Error A
    uninstall base = ask transport decode "eth_uninstallFilter" (string base.id ∷ [])

    -- BaseFilter::poll
    abbrev pub poll : BaseFilter → Session S Error A
    poll base = ask transport decode "eth_getFilterChanges" (string base.id ∷ [])

    -- BaseFilter::logs
    abbrev pub logs_of : BaseFilter → Session S Error A
    logs_of base = ask transport decode "eth_getFilterLogs" (string base.id ∷ [])

  module _ {I : Type 0} (decode : Value → Result (Option (List I))) where
    -- What a poll puts into the stream, by `unwrap_or_default`, `map_ok` and `try_flatten`.
    abbrev pub items : Except Error (Option (List I)) → List (Except Error I)
    items (fail e) = fail e ∷ []
    items (done none) = []
    items (done (some found)) = map (λ i. done i) found

    abbrev and_more : List (Except Error I) → S × List (Except Error I) → S × List (Except Error I)
    and_more found (s, more) = (s, found ++ more)

    -- filter_stream, over that many polls of a stream that does not end
    unfoldable pub filter_stream : BaseFilter → ℕ → S → S × List (Except Error I)
    filter_stream base zero s = (s, [])
    filter_stream base (suc n) s =
        let (after, response) = poll decode base s in
        and_more (items response) (filter_stream base n after)
