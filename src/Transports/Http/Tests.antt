-- ===== src/Transports/Http/Tests.antt =====
-- Runs of src/transports/http.rs on concrete responses.
use rust_web.Prelude.{ℕ, List, [], ◌∷◌, none, ◌≡◌, ◌≢◌, refl, ◌≤◌, length, IsNodup, All, true}
use rust_web.Transports.Take.{take_all}
use rust_web.Rpc.{Value, MessageId, Output, success, failure}
use rust_web.Error.{Error, Result, ok, err}
use rust_web.Helpers.{to_result_from_output}
use rust_web.Transports.Http.{id_of_output, handle_batch_response, collect}
use rust_web.Prelude.Map.{get, insert, remove}
use rust_web.Transports.Http.Body.{
  HttpResponse, total, execute_rpc, execute_rpc_sound, read_chunks, too_large, is_success,
}
use rust_web.Transports.Http.Order.{
  answer, Answers, IsNumbered, handle_batch_response_sound, handle_batch_response_complete,
}

abbrev first : Output
first = success (record { result = Value.number 10; id = MessageId.num 1 })

abbrev second : Output
second = failure (record { error = record { body = Value.string "no" }; id = MessageId.num 2 })

abbrev results : List (Result Value)
results = ok (Value.number 10) ∷ err (Error.rpc (record { body = Value.string "no" })) ∷ []

abbrev ids : List ℕ
ids = 1 ∷ 2 ∷ []

abbrev outputs : List Output
outputs = second ∷ first ∷ []

swapped : handle_batch_response ids outputs ≡ ok results
unfolding handle_batch_response id_of_output to_result_from_output collect take_all get insert
    remove
swapped = refl

duplicated : handle_batch_response ids (first ∷ first ∷ []) ≢ ok results
unfolding handle_batch_response id_of_output to_result_from_output collect take_all get insert
    remove
duplicated p = cc p

handle_batch_response_sound_example :
    IsNodup ids
    × (length ids ≡ length outputs)
    × All IsNumbered outputs
    × Answers outputs ids results
handle_batch_response_sound_example = handle_batch_response_sound ids outputs results swapped

handle_batch_response_complete_example : handle_batch_response ids outputs ≡ ok results
unfolding answer id_of_output to_result_from_output
handle_batch_response_complete_example =
    handle_batch_response_complete ids outputs results (refl, (refl, tt)) refl
      ((2, refl), ((1, refl), tt)) (refl, (refl, tt))

-- Five bytes in two chunks.
abbrev page : HttpResponse
page = record {
  status = 200;
  content_length = none;
  chunks = ok (1 ∷ 2 ∷ []) ∷ ok (3 ∷ 4 ∷ 5 ∷ []) ∷ [];
}

abbrev five : List ℕ
five = 1 ∷ 2 ∷ 3 ∷ 4 ∷ 5 ∷ []

too_many : execute_rpc (λ (b : List ℕ). ok b) 4 (ok page) ≡ err (too_large 4)
unfolding execute_rpc read_chunks
too_many = refl

page_is_read : execute_rpc (λ (b : List ℕ). ok b) 5 (ok page) ≡ ok five
unfolding execute_rpc read_chunks
page_is_read = refl

execute_rpc_sound_example :
    (response : HttpResponse) × (body : List ℕ) × (ok page ≡ ok response)
    × (total response.chunks ≡ ok body)
    × (length body ≤ 5)
    × (is_success response.status ≡ true)
    × (ok body ≡ ok five)
execute_rpc_sound_example = execute_rpc_sound (λ b. ok b) 5 (ok page) five page_is_read
