-- ===== src/Api/Personal.antt =====
-- src/api/personal.rs: what each method of the namespace asks of its transport. An argument is the value
-- that it serializes to.
use rust_web.Prelude.{[], ◌∷◌}
use rust_web.Rpc.{Value}
use rust_web.Error.{Error, Result}
use rust_web.Session.{Session, Transport, ask}

module _ {S A : Type 0} (transport : Transport S) (decode : Value → Result A) where
  abbrev pub list_accounts : Session S Error A
  list_accounts = ask transport decode "personal_listAccounts" []

  abbrev pub new_account : Value → Session S Error A
  new_account password = ask transport decode "personal_newAccount" (password ∷ [])

  abbrev pub unlock_account : Value → Value → Value → Session S Error A
  unlock_account address password duration =
      ask transport decode "personal_unlockAccount" (address ∷ password ∷ duration ∷ [])

  abbrev pub send_transaction : Value → Value → Session S Error A
  send_transaction transaction password =
      ask transport decode "personal_sendTransaction" (transaction ∷ password ∷ [])

  abbrev pub sign : Value → Value → Value → Session S Error A
  sign bytes account password =
      ask transport decode "personal_sign" (bytes ∷ account ∷ password ∷ [])

  abbrev pub sign_transaction : Value → Value → Session S Error A
  sign_transaction transaction password =
      ask transport decode "personal_signTransaction" (transaction ∷ password ∷ [])

  abbrev pub import_raw_key : Value → Value → Session S Error A
  import_raw_key private_key password =
      ask transport decode "personal_importRawKey" (private_key ∷ password ∷ [])
