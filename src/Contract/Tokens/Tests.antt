-- ===== src/Contract/Tokens/Tests.antt =====
-- Runs of src/contract/tokens.rs: -1 and the bounds of i8, and a list of texts.
use rust_web.Prelude.{◌-◌, ◌^◌, ◌≡◌, refl, String, List, [], ◌∷◌, arith}
use rust_web.Contract.Tokens.{
  int, w8, negsuc, decoded, strings, signed_from_token, signed_into_token, try_from, from_negative,
}
use rust_web.Contract.Tokens.Ints.{Fits, Stands, signed_round_trip, signed_sound}
use rust_web.Contract.Tokens.Sequences.{IsFaithful}

signed_round_trip_example :
    signed_from_token w8 "i8" (signed_into_token (negsuc 127)) ≡ decoded (negsuc 127)
signed_round_trip_example = signed_round_trip w8 "i8" (negsuc 127) (omega arith)

signed_sound_example : Fits w8 (negsuc 0) × Stands (int (2 ^ 256 - 1)) (negsuc 0)
unfolding signed_from_token from_negative try_from
signed_sound_example = signed_sound w8 "i8" (int (2 ^ 256 - 1)) (negsuc 0) (omega arith) refl

strings-IsFaithful : IsFaithful strings
strings-IsFaithful = record { round_trip = λ s. refl }

abbrev texts : List String
texts = "a" ∷ []
