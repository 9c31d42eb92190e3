-- ===== src/Api/Web3.antt =====
-- src/api/web3.rs: what each method of the namespace asks of its transport. An argument is the value
-- that it serializes to.
use rust_web.Prelude.{[], ◌∷◌}
use rust_web.Rpc.{Value}
use rust_web.Error.{Error, Result}
use rust_web.Session.{Session, Transport, ask}

module _ {S A : Type 0} (transport : Transport S) (decode : Value → Result A) where
  abbrev pub client_version : Session S Error A
  client_version = ask transport decode "web3_clientVersion" []

  abbrev pub sha3 : Value → Session S Error A
  sha3 bytes = ask transport decode "web3_sha3" (bytes ∷ [])
