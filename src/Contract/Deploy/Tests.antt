-- ===== src/Contract/Deploy/Tests.antt =====
-- Deployments at concrete inputs.
use rust_web.Prelude.{
  ℕ, zero, suc, ◌+◌, ◌*◌, ◌/◌, ◌%◌, String, List, [], ◌∷◌, ◌++◌, length, ltb, if◌then◌else◌, none,
  some, ◌≡◌, refl, arith,
}
use rust_web.Error.{Error}
use rust_web.Session.{Except, fail, done, Session}
use rust_web.Types.Request.{TransactionRequest}
use rust_web.Contract.Call.{Contract, no_options}
use rust_web.Contract.Abi.{Abi, foreign}
use rust_web.Contract.Deploy.{
  Builder, Receipt, placeholder, linked, cleaned, prepared, do_execute, replace_first, repeat,
  strip_prefix, remove_quotes, remove_0x, input_of, deployed,
}
use rust_web.Contract.Deploy.Link.{linked-length, cleaned-quoted, IsWithout}
use rust_web.Contract.Deploy.Placed.{
  Library, IsPlaced, unlinked, with_addresses, repeat-All, linked-unlinked,
}

abbrev digit : ℕ → ℕ
digit n = if ltb n 10 then 48 + n else 87 + n

-- hex::encode
abbrev encode : List ℕ → List ℕ
encode [] = []
encode (b ∷ bytes) = digit (b / 16) ∷ digit (b % 16) ∷ encode bytes

encode-length : (bytes : List ℕ) → length (encode bytes) ≡ 2 * length bytes
encode-length [] = refl
encode-length (b ∷ bytes) = omega (arith, encode-length bytes)

-- hex::decode of decimal digits
abbrev value : ℕ → ℕ
value c = if ltb c 58 then c % 48 else c % 87

abbrev pairs : List ℕ → List ℕ
pairs (a ∷ b ∷ rest) = (16 * value a + value b) ∷ pairs rest
pairs _ = []

abbrev decode : List ℕ → Except String (List ℕ)
decode code = done (pairs code)

abbrev library : List ℕ
library = b'L' ∷ b'i' ∷ b'b' ∷ []

abbrev library_address : List ℕ
library_address = repeat 17 20

-- 60, the library, 0a
abbrev code : List ℕ
code = b'6' ∷ b'0' ∷ placeholder library ++ (b'0' ∷ b'a' ∷ [])

abbrev linked_code : List ℕ
linked_code = b'6' ∷ b'0' ∷ encode library_address ++ (b'0' ∷ b'a' ∷ [])

is_linked : linked encode ((library, library_address) ∷ []) code ≡ done linked_code
unfolding linked placeholder replace_first strip_prefix
is_linked = refl

linked-length_example : length linked_code ≡ length code
linked-length_example =
    linked-length encode ((library, library_address) ∷ []) code linked_code encode-length (refl, tt)
      is_linked

-- The library after 60, and 0a after it.
abbrev placed : Library
placed = record {
  name = library;
  fill = repeat b'_' 35;
  address = library_address;
  following = b'0' ∷ b'a' ∷ [];
}

ones : (n : ℕ) → IsWithout b'_' (repeat b'1' n)
ones zero = tt
ones (suc n) = (ground arith, ones n)

placed-IsPlaced : IsPlaced encode placed
placed-IsPlaced = record {
  underscores = repeat-All b'_' 35;
  width = refl;
  short = omega arith;
  address = ones 40;
  following = (ground arith, (ground arith, tt));
}

linked-unlinked_example :
    linked encode ((library, library_address) ∷ []) (b'6' ∷ b'0' ∷ unlinked (placed ∷ []))
    ≡ done (b'6' ∷ b'0' ∷ with_addresses encode (placed ∷ []))
linked-unlinked_example =
    linked-unlinked encode (b'6' ∷ b'0' ∷ []) (placed ∷ []) (ground arith, (ground arith, tt))
      (placed-IsPlaced, tt)

cleaned-quoted_example : cleaned (34 ∷ b'0' ∷ b'x' ∷ b'6' ∷ b'0' ∷ 34 ∷ []) ≡ b'6' ∷ b'0' ∷ []
cleaned-quoted_example =
    cleaned-quoted (b'6' ∷ b'0' ∷ []) (ground arith, (ground arith, tt))
      (ground arith, (ground arith, tt))

abbrev abi : Abi
abi = record { function = λ name. fail (foreign "function not found"); constructor = none }

abbrev builder : Builder
builder = record { abi = abi; options = no_options; linker = (library, library_address) ∷ [] }

-- A node that confirms every transaction.
abbrev confirm : TransactionRequest → Session ℕ Error Receipt
confirm tx s = (
  suc s,
  done (record { transaction_hash = 1; status = some 1; contract_address = some (7 ∷ []) }),
)

abbrev deployed_contract : Contract
deployed_contract = record { address = 7 ∷ []; abi = abi }

is_deployed :
    do_execute encode decode builder code [] (3 ∷ []) confirm 0 ≡ (1, done deployed_contract)
unfolding do_execute prepared linked placeholder replace_first strip_prefix cleaned remove_quotes
    remove_0x input_of deployed
is_deployed = refl
