-- ===== src/Confirm/Tests.antt =====
-- Runs of src/confirm.rs: two confirmations, a failed poll among the skipped items, then a transaction
-- that is not deep enough, and that is.
use rust_web.Prelude.{◌≡◌, refl, inr, [], ◌∷◌, ◌++◌, some, none, arith}
use rust_web.Error.{Error, ok}
use rust_web.Confirm.{Item, Round, wait_for_confirmations}
use rust_web.Confirm.Wait.{IsConfirmed, wait_for_confirmations_complete}

abbrev unseen : Round
unseen = record { item = Item.failed Error.unreachable; check = ok none; block_number = ok 0 }

abbrev shallow : Round
shallow = record { item = Item.block; check = ok (some 2); block_number = ok 3 }

abbrev confirmed : Round
confirmed = record { item = Item.block; check = ok (some 2); block_number = ok 4 }

confirmed-IsConfirmed : IsConfirmed 2 confirmed
confirmed-IsConfirmed = record {
  item = refl;
  confirmation = 2;
  head = 4;
  check = refl;
  block_number = refl;
  deep = omega arith;
}

wait_for_confirmations_complete_example :
    wait_for_confirmations (ok tt) 2 ((unseen ∷ unseen ∷ []) ++ ((shallow ∷ []) ++ confirmed ∷ []))
    ≡ some (ok tt)
wait_for_confirmations_complete_example =
    wait_for_confirmations_complete 2 (unseen ∷ unseen ∷ []) (shallow ∷ []) confirmed [] refl
      ((refl, inr (2, 3, refl, refl, omega arith, omega arith)), tt) confirmed-IsConfirmed
