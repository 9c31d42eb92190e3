-- ===== src/Api/Net.antt =====
-- src/api/net.rs: what each method of the namespace asks of its transport. An argument is the value
-- that it serializes to.
use rust_web.Prelude.{[]}
use rust_web.Rpc.{Value}
use rust_web.Error.{Error, Result}
use rust_web.Session.{Session, Transport, ask}

module _ {S A : Type 0} (transport : Transport S) (decode : Value → Result A) where
  abbrev pub version : Session S Error A
  version = ask transport decode "net_version" []

  abbrev pub peer_count : Session S Error A
  peer_count = ask transport decode "net_peerCount" []

  abbrev pub is_listening : Session S Error A
  is_listening = ask transport decode "net_listening" []
