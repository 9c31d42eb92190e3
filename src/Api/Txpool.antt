-- ===== src/Api/Txpool.antt =====
-- src/api/txpool.rs: what each method of the namespace asks of its transport. An argument is the value
-- that it serializes to.
use rust_web.Prelude.{[]}
use rust_web.Rpc.{Value}
use rust_web.Error.{Error, Result}
use rust_web.Session.{Session, Transport, ask}

module _ {S A : Type 0} (transport : Transport S) (decode : Value → Result A) where
  abbrev pub content : Session S Error A
  content = ask transport decode "txpool_content" []

  abbrev pub inspect : Session S Error A
  inspect = ask transport decode "txpool_inspect" []

  abbrev pub status : Session S Error A
  status = ask transport decode "txpool_status" []
