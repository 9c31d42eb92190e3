-- ===== src/Transports/Ws/Response.antt =====
-- What a response settles: `settle` of src/transports/ws.rs.
use rust_web.Prelude.{
  ℕ, ◌≡◌, refl, sym, ap, ◌∙◌, List, [], ◌∷◌, Option, none, some, Bool, false, arith, ◌==◌,
  if◌then◌else◌, if-else,
}
use rust_web.Prelude.Map
use rust_web.Prelude.Map.{Map, is_some, get-insert, get-nil}
use rust_web.Rpc.{Output}
use rust_web.Error.{Error, Result, ok, err, ok_or, bind-ok, ok_or-eq-ok, ok-injective}
use rust_web.Transports.Take.{Holds, take_all, take_all_sound}
use rust_web.Transports.Ws.{
  Pending, Settled, request_id, index, mismatch, settle, match_ids, pending_of,
}

abbrev pub has_id : ℕ → Result ℕ → Bool
has_id id (ok n) = n == id
has_id id (err e) = false

-- The first output that has this id.
unfoldable pub find : ℕ → List Output → Option Output
find id [] = none
find id (o ∷ os) = if has_id id (request_id o) then some o else find id os

-- Each of the ordered outputs is the one that the response has for the id at its place.
abbrev pub Finds : List Output → List ℕ → List Output → Type 0
Finds os [] [] = Unit
Finds os (id ∷ ids) (o ∷ rest) = (find id os ≡ some o) × Finds os ids rest
Finds os [] (o ∷ rest) = ⊥
Finds os (id ∷ ids) [] = ⊥

-- The outputs have these ids.
abbrev pub Numbered : List ℕ → List Output → Type 0
Numbered [] [] = Unit
Numbered (n ∷ ns) (o ∷ os) = (request_id o ≡ ok n) × Numbered ns os
Numbered [] (o ∷ os) = ⊥
Numbered (n ∷ ns) [] = ⊥

abbrev or_else : Option Output → Option Output → Option Output
or_else (some r) o = some r
or_else none o = o

is_some-false : (o : Option Output) → is_some o ≡ false → o ≡ none
is_some-false none h = refl
is_some-false (some o) h = cc

-- What `index` has for an id is the first output with that id.
get-index :
    (os : List Output) (m m' : Map Output) (id : ℕ)
    → index os m ≡ ok m'
    → Map.get id m' ≡ or_else (Map.get id m) (find id os)
unfolding index find
get-index [] m m' id h = let e : m ≡ m' = cc in rw (← e) (or_else-none (Map.get id m))
  where
    or_else-none : (o : Option Output) → o ≡ or_else o none
    or_else-none none = refl
    or_else-none (some r) = refl
get-index (o ∷ os) m m' id h =
    let (n, q, h1) = bind-ok (request_id o) _ h in
    let (new, h2) = if-else (is_some (Map.get n m)) (λ p. cc p) h1 in
    let ih = get-index os (Map.insert n o m) m' id h2 in
    rw q (ih ∙ ground (arith, get-insert n id o m, is_some-false (Map.get n m) new))

-- A settled request is a pending one, with outputs that were taken for its ids.
record Matched (m : Map Output) (key : ℕ) (request : Pending) (d : Settled) : Type 0 where
  same_key : d.key ≡ key
  same_request : d.request ≡ request
  taken : take_all (λ id. Error.internal) request.ids m ≡ ok d.outputs
  fits : mismatch request.ids m ≡ false

match_ids-ok :
    (m : Map Output) (key : ℕ) (request : Pending) (d : Settled)
    → match_ids m key request ≡ ok d
    → Matched m key request d
unfolding match_ids
match_ids-ok m key request d h =
    let (fits, h1) = if-else (mismatch request.ids m) (λ p. cc p) h in
    let (ordered, taken, h2) = bind-ok (take_all (λ id. Error.internal) request.ids m) _ h1 in
    let e = ok-injective h2 in
    record {
      same_key = sym (ap (λ (x : Settled). x.key) e);
      same_request = sym (ap (λ (x : Settled). x.request) e);
      taken = taken ∙ ap (λ (x : Settled). ok x.outputs) e;
      fits = fits;
    }

settle-ok :
    (os : List Output) (pending : Map Pending) (d : Settled)
    → settle os pending ≡ ok d
    → (m : Map Output) × (key : ℕ) × (request : Pending) × (index os [] ≡ ok m)
      × (Map.get key pending ≡ some request)
      × Matched m key request d
unfolding settle
settle-ok os pending d h =
    let (m, built, h1) = bind-ok (index os []) _ h in
    let (key, q, h2) = bind-ok (pending_of m pending) _ h1 in
    let (request, got, h3) = bind-ok (ok_or (Map.get key pending) Error.internal) _ h2 in
    (
      m,
      key,
      request,
      built,
      ok_or-eq-ok (Map.get key pending) Error.internal got,
      match_ids-ok m key request d h3,
    )

Holds-Finds :
    (os : List Output) (m : Map Output) (ids : List ℕ) (rest : List Output)
    → ((id : ℕ) → Map.get id m ≡ find id os)
    → Holds m ids rest
    → Finds os ids rest
Holds-Finds os m [] [] e h = tt
Holds-Finds os m [] (o ∷ rest) e h = h
Holds-Finds os m (id ∷ ids) [] e h = h
Holds-Finds os m (id ∷ ids) (o ∷ rest) e h = (sym (e id) ∙ h.0, Holds-Finds os m ids rest e h.1)

pub Finds-Holds :
    (os : List Output) (m : Map Output) (ids : List ℕ) (rest : List Output)
    → ((id : ℕ) → Map.get id m ≡ find id os)
    → Finds os ids rest
    → Holds m ids rest
Finds-Holds os m [] [] e h = tt
Finds-Holds os m [] (o ∷ rest) e h = h
Finds-Holds os m (id ∷ ids) [] e h = h
Finds-Holds os m (id ∷ ids) (o ∷ rest) e h = (e id ∙ h.0, Finds-Holds os m ids rest e h.1)

pub get-index_nil :
    (os : List Output) (m : Map Output) (id : ℕ) → index os [] ≡ ok m → Map.get id m ≡ find id os
get-index_nil os m id h = rw get-nil at (get-index os [] m id h)

-- What a response settles is a pending request, under the key that it is pending at, and the
-- outputs handed over are those that the response has for the request's ids, in their order.
pub settle_sound :
    (os : List Output) (pending : Map Pending) (d : Settled)
    → settle os pending ≡ ok d
    → (Map.get d.key pending ≡ some d.request) × Finds os d.request.ids d.outputs
settle_sound os pending d h =
    let (m, key, request, built, got, matched) = settle-ok os pending d h in
    let (nodup, holds) =
      take_all_sound (λ id. Error.internal) request.ids m d.outputs matched.taken in
    (
      ap (λ k. Map.get k pending) matched.same_key ∙ got ∙ ap some (sym matched.same_request),
      rw matched.same_request
          (Holds-Finds os m request.ids d.outputs (λ id. get-index_nil os m id built) holds),
    )
