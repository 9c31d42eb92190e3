-- ===== src/Api/ParityAccounts.antt =====
-- src/api/parity_accounts.rs: what each method of the namespace asks of its transport. An argument is the value
-- that it serializes to.
use rust_web.Prelude.{[], ◌∷◌}
use rust_web.Rpc.{Value}
use rust_web.Error.{Error, Result}
use rust_web.Session.{Session, Transport, ask}

module _ {S A : Type 0} (transport : Transport S) (decode : Value → Result A) where
  abbrev pub parity_kill_account : Value → Value → Session S Error A
  parity_kill_account address pwd = ask transport decode "parity_killAccount" (address ∷ pwd ∷ [])

  abbrev pub parity_new_account_from_phrase : Value → Value → Session S Error A
  parity_new_account_from_phrase seed pwd =
      ask transport decode "parity_newAccountFromPhrase" (seed ∷ pwd ∷ [])

  abbrev pub new_account_from_secret : Value → Value → Session S Error A
  new_account_from_secret secret pwd =
      ask transport decode "parity_newAccountFromSecret" (secret ∷ pwd ∷ [])

  abbrev pub parity_new_account_from_wallet : Value → Value → Session S Error A
  parity_new_account_from_wallet wallet pwd =
      ask transport decode "parity_newAccountFromWallet" (wallet ∷ pwd ∷ [])

  abbrev pub parity_remove_address : Value → Session S Error A
  parity_remove_address address = ask transport decode "parity_removeAddress" (address ∷ [])
