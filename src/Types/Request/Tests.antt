-- ===== src/Types/Request/Tests.antt =====
-- Requests at concrete inputs, with numbers and arrays of numbers for the types of the fields.
use rust_web.Prelude.{ℕ, List, [], ◌∷◌, Option, none, some, ◌≡◌, refl, map}
use rust_web.Rpc.{Value, Items, array, number, nil, cons, items}
use rust_web.Accounts.{Access}
use rust_web.Types.Request.{CallRequest, Wire, default_call, serialize_call}
use rust_web.Types.Request.Json.{Readers, IsReader, deserialize_call, call_round_trip}

abbrev pair : {A B : Type 0} → Option A → Option (List B) → (A → List B → List B) → Option (List B)
pair (some a) (some l) f = some (f a l)
pair _ _ f = none

module _ {A : Type 0} (write : A → Value) (read : Value → Option A) where
  abbrev write_list : List A → Value
  write_list l = array (items (map write l))

  abbrev read_items : Items → Option (List A)
  read_items nil = some []
  read_items (cons v rest) = pair (read v) (read_items rest) (λ a l. a ∷ l)

  abbrev read_list : Value → Option (List A)
  read_list (array is) = read_items is
  read_list _ = none

  read-write :
      ((a : A) → read (write a) ≡ some a) → (l : List A) → read_items (items (map write l)) ≡ some l
  read-write inverse [] = refl
  read-write inverse (a ∷ l) = rw (inverse a, read-write inverse l) refl

abbrev pub read_number : Value → Option ℕ
read_number (number n) = some n
read_number _ = none

abbrev pub write_bytes : List ℕ → Value
write_bytes = write_list (λ n. number n) read_number

abbrev pub read_bytes : Value → Option (List ℕ)
read_bytes = read_list (λ n. number n) read_number

read-bytes : (l : List ℕ) → read_bytes (write_bytes l) ≡ some l
read-bytes l = read-write (λ n. number n) read_number (λ n. refl) l

-- An access as the array of its address and its keys.
abbrev write_access : Access → Value
write_access a = write_list write_bytes read_bytes (a.address ∷ a.storage_keys)

abbrev of_lists : Option (List (List ℕ)) → Option Access
of_lists (some (a ∷ keys)) = some (record { address = a; storage_keys = keys })
of_lists _ = none

abbrev read_access : Value → Option Access
read_access v = of_lists (read_list write_bytes read_bytes v)

read-access : (a : Access) → read_access (write_access a) ≡ some a
read-access a = rw (read-write write_bytes read_bytes read-bytes (a.address ∷ a.storage_keys)) refl

abbrev pub wire : Wire
wire = record {
  address = write_bytes;
  uint = λ n. number n;
  bytes = write_bytes;
  accesses = write_list write_access read_access;
}

abbrev readers : Readers
readers = record {
  address = read_bytes;
  uint = read_number;
  bytes = read_bytes;
  accesses = read_list write_access read_access;
}

reader : IsReader wire readers
reader = record {
  address = λ a. rw (read-bytes a) refl;
  uint = λ n. refl;
  bytes = λ b. rw (read-bytes b) refl;
  accesses = λ l. rw (read-write write_access read_access read-access l) refl;
}

abbrev transfer : CallRequest
transfer = record default_call {
  to = some (5 ∷ []);
  value = some 7;
  access_list = some (record { address = 1 ∷ 2 ∷ []; storage_keys = (3 ∷ []) ∷ [] } ∷ []);
}

call_round_trip_example : deserialize_call readers (serialize_call wire transfer) ≡ some transfer
call_round_trip_example = call_round_trip wire readers reader transfer
