-- ===== src/Transports/Http/Order.antt =====
-- Matching responses to requests in src/transports/http.rs: single responses by their id, and batches in the requests' order.
use rust_web.Prelude.{
  ℕ, ◌≡◌, refl, ◌↔◌, List, [], ◌∷◌, Option, none, some, length, IsNodup, All, ◌==◌, Bool, false,
  arith, if◌then◌else◌, if-else, not, not-false, ==_iff, sym, ◌∙◌,
}
use rust_web.Prelude.Map
use rust_web.Prelude.Map.{Map, get-insert, get-remove, get-nil}
use rust_web.Rpc.{Value, Output}
use rust_web.Error.{Result, ok, err, bind-ok}
use rust_web.Transports.Take.{Holds, take_all, take_all_sound, take_all_complete}
use rust_web.Helpers.{to_result_from_output}
use rust_web.Transports.Http.{
  id_of_output, handle_single_response, collect, missing, handle_batch_response,
}

-- The id of the output is the number `id`.
abbrev pub has_id : ℕ → Result ℕ → Bool
has_id id (ok n) = n == id
has_id id (err e) = false

abbrev pub or_else : Option (Result Value) → Option (Result Value) → Option (Result Value)
or_else (some r) o = some r
or_else none o = o

-- The result of the last output whose id is `id`.
unfoldable pub answer : ℕ → List Output → Option (Result Value)
answer id [] = none
answer id (o ∷ os) =
    or_else (answer id os)
      (if has_id id (id_of_output o) then some (to_result_from_output o) else none)

-- The outputs' ids are all numbers in the range of a request id.
abbrev pub IsNumbered : Output → Type 0
IsNumbered o = (n : ℕ) × (id_of_output o ≡ ok n)

-- Each result is the one that the outputs hold for the id at its place.
abbrev pub Answers : List Output → List ℕ → List (Result Value) → Type 0
Answers os [] [] = Unit
Answers os (id ∷ ids) (r ∷ rs) = (answer id os ≡ some r) × Answers os ids rs
Answers os [] (r ∷ rs) = ⊥
Answers os (id ∷ ids) [] = ⊥

get-collect :
    (os : List Output) (m m' : Map (Result Value)) (id : ℕ)
    → collect os m ≡ ok m'
    → Map.get id m' ≡ or_else (answer id os) (Map.get id m)
unfolding collect answer
get-collect [] m m' id h = let e : m ≡ m' = cc in rw (← e)
get-collect (o ∷ os) m m' id h =
    let (n, q, h') =
      bind-ok (id_of_output o) (λ n. collect os (Map.insert n (to_result_from_output o) m)) h in
    let ih = get-collect os (Map.insert n (to_result_from_output o) m) m' id h' in
    rw q (ih ∙ ground (arith, get-insert n id (to_result_from_output o) m))

collect_total :
    (os : List Output) (m : Map (Result Value))
    → All IsNumbered os
    → (m' : Map (Result Value)) × (collect os m ≡ ok m')
unfolding collect
collect_total [] m h = (m, refl)
collect_total (o ∷ os) m (h, hs) =
    let (m', q) = collect_total os (Map.insert h.0 (to_result_from_output o) m) hs in (m', rw h.1 q)

collect_valid :
    (os : List Output) (m m' : Map (Result Value)) → collect os m ≡ ok m' → All IsNumbered os
unfolding collect
collect_valid [] m m' h = tt
collect_valid (o ∷ os) m m' h =
    let (n, q, h') =
      bind-ok (id_of_output o) (λ n. collect os (Map.insert n (to_result_from_output o) m)) h in
    ((n, q), collect_valid os _ m' h')

-- In a map that `collect` builds from nothing, the ids have the results of the outputs.
Holds-Answers :
    (os : List Output) (m : Map (Result Value)) (ids : List ℕ) (rs : List (Result Value))
    → ((id : ℕ) → Map.get id m ≡ answer id os)
    → Holds m ids rs
    → Answers os ids rs
Holds-Answers os m [] [] e h = tt
Holds-Answers os m [] (r ∷ rs) e h = h
Holds-Answers os m (id ∷ ids) [] e h = h
Holds-Answers os m (id ∷ ids) (r ∷ rs) e h = (sym (e id) ∙ h.0, Holds-Answers os m ids rs e h.1)

Answers-Holds :
    (os : List Output) (m : Map (Result Value)) (ids : List ℕ) (rs : List (Result Value))
    → ((id : ℕ) → Map.get id m ≡ answer id os)
    → Answers os ids rs
    → Holds m ids rs
Answers-Holds os m [] [] e h = tt
Answers-Holds os m [] (r ∷ rs) e h = h
Answers-Holds os m (id ∷ ids) [] e h = h
Answers-Holds os m (id ∷ ids) (r ∷ rs) e h = (e id ∙ h.0, Answers-Holds os m ids rs e h.1)

get-collect_nil :
    (os : List Output) (m : Map (Result Value)) (id : ℕ)
    → collect os [] ≡ ok m
    → Map.get id m ≡ answer id os
get-collect_nil os m id h = get-collect os [] m id h ∙ rw get-nil (or_else-none (answer id os))
  where
    or_else-none : (o : Option (Result Value)) → or_else o none ≡ o
    or_else-none none = refl
    or_else-none (some r) = refl

-- A batch succeeds only if the requests' ids are all different, there are as many outputs as
-- requests, every output has a request id, and each result is, in the order of the requests, the
-- one that the outputs hold for that request's id.
pub handle_batch_response_sound :
    (ids : List ℕ) (os : List Output) (rs : List (Result Value))
    → handle_batch_response ids os ≡ ok rs
    → IsNodup ids × (length ids ≡ length os) × All IsNumbered os × Answers os ids rs
unfolding handle_batch_response
handle_batch_response_sound ids os rs h =
    let (same, h1) = if-else (not (length ids == length os)) (λ p. cc p) h in
    let (m, built, h2) = bind-ok (collect os []) (take_all missing ids) h1 in
    let (nodup, holds) = take_all_sound missing ids m rs h2 in
    (
      nodup,
      (==_iff (length ids) (length os)).0 (not-false same),
      collect_valid os [] m built,
      Holds-Answers os m ids rs (λ id. get-collect_nil os m id built) holds,
    )

-- Whatever order the outputs come in, a batch whose requests have different ids, with as many
-- outputs, all with request ids, that hold a result for every request, returns those results in
-- the order of the requests.
pub handle_batch_response_complete :
    (ids : List ℕ) (os : List Output) (rs : List (Result Value))
    → IsNodup ids
    → length ids ≡ length os
    → All IsNumbered os
    → Answers os ids rs
    → handle_batch_response ids os ≡ ok rs
unfolding handle_batch_response
handle_batch_response_complete ids os rs nodup same numbered answers =
    let (m, built) = collect_total os [] numbered in
    rw ((==_iff (length ids) (length os)).1 same, built)
      (take_all_complete missing ids m rs nodup
        (Answers-Holds os m ids rs (λ id. get-collect_nil os m id built) answers))

-- A single response is passed on exactly if its id is the request's.
pub handle_single_response_iff :
    (id : ℕ) (o : Output) (v : Value)
    → (handle_single_response id o ≡ ok v)
      ↔ ((id_of_output o ≡ ok id) × (to_result_from_output o ≡ ok v))
unfolding handle_single_response
handle_single_response_iff id o v = (λ h. ground arith, λ h. ground arith)
