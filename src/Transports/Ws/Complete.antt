-- ===== src/Transports/Ws/Complete.antt =====
-- From the outputs of a response to what `settle` of src/transports/ws.rs makes of them.
use rust_web.Prelude.{
  ℕ, suc, ◌+◌, ◌≤◌, ◌≡◌, refl, sym, ◌∙◌, List, [], ◌∷◌, none, some, length, contains-count,
  contains, any, All, IsNodup, count, true, false, not, arith, ◌==◌,
}
use rust_web.Prelude.Map
use rust_web.Prelude.Map.{Map, is_some, get-insert, get-nil}
use rust_web.Prelude.Map.Count.{total, weight-le-total, length-insert}
use rust_web.Rpc.{Output}
use rust_web.Error.{Error, ok}
use rust_web.Transports.Take.{Holds, take_all_complete}
use rust_web.Transports.Ws.{Pending, index, find_pending, settle, first_key, match_ids, pending_of}
use rust_web.Transports.Ws.Response.{find, Finds, Numbered, get-index_nil, Finds-Holds}
use rust_web.Transports.Ws.Accounting.{pending_times}

-- None of the ids has an entry.
abbrev Absent : Map Output → List ℕ → Type 0
Absent m = All (λ n. Map.get n m ≡ none)

Absent-insert :
    (m : Map Output) (n : ℕ) (o : Output) (ns : List ℕ)
    → contains n ns ≡ false
    → Absent m ns
    → Absent (Map.insert n o m) ns
Absent-insert m n o [] c h = tt
Absent-insert m n o (k ∷ ns) c h =
    (ground (arith, get-insert n k o m), Absent-insert m n o ns (ground arith) h.1)

-- Outputs with different ids are all indexed.
index_total :
    (os : List Output) (ns : List ℕ) (m : Map Output)
    → Numbered ns os
    → IsNodup ns
    → Absent m ns
    → (m' : Map Output) × (index os m ≡ ok m') × (length m' ≡ length m + length ns)
unfolding index
index_total [] [] m h d a = (m, refl, omega arith)
index_total (o ∷ os) [] m h d a = absurd h
index_total [] (n ∷ ns) m h d a = absurd h
index_total (o ∷ os) (n ∷ ns) m h d a =
    let (m', built, len) =
      index_total os ns (Map.insert n o m) h.1 d.1 (Absent-insert m n o ns d.0 a.1) in
    (m', rw (h.0, a.0) built, omega (arith, len, length-insert n o m a.0))

Absent-nil : (ns : List ℕ) → Absent [] ns
Absent-nil [] = tt
Absent-nil (n ∷ ns) = (get-nil n, Absent-nil ns)

-- An id that is found is one of the outputs' ids.
find-contains :
    (id : ℕ) (os : List Output) (ns : List ℕ) (o : Output)
    → Numbered ns os
    → find id os ≡ some o
    → contains id ns ≡ true
unfolding find
find-contains id [] [] o h e = cc
find-contains id (x ∷ os) [] o h e = absurd h
find-contains id [] (n ∷ ns) o h e = absurd h
find-contains id (x ∷ os) (n ∷ ns) o h e = ground (arith, find-contains id os ns o, h.0)

first_key-get :
    (m : Map Output) (n : ℕ)
    → length m ≡ suc n
    → (k : ℕ) × (o : Output) × (first_key m ≡ some k) × (Map.get k m ≡ some o)
unfolding Map.get
first_key-get [] n e = absurd (omega arith)
first_key-get ((i, o) ∷ m) n e = (i, o, refl, ground arith)

-- In a sound task an id belongs to one pending request only.
find_pending-IsSound :
    (id key : ℕ) (request : Pending) (m : Map Pending)
    → pending_times id m ≤ 1
    → Map.get key m ≡ some request
    → contains id request.ids ≡ true
    → find_pending id m ≡ some key
unfolding find_pending total Map.get
find_pending-IsSound id key request [] h g c = cc
find_pending-IsSound id key request ((k, r) ∷ m) h g c = ground (
  arith,
  find_pending-IsSound id key request m,
  contains-count id r.ids,
  contains-count id request.ids c,
  weight-le-total (λ (p : Pending). count id p.ids) key request m,
)

no_mismatch :
    (m : Map Output) (ids : List ℕ) (rest : List Output)
    → Holds m ids rest
    → any (λ id. not (is_some (Map.get id m))) ids ≡ false
no_mismatch m [] [] h = refl
no_mismatch m [] (o ∷ rest) h = absurd h
no_mismatch m (id ∷ ids) [] h = absurd h
no_mismatch m (id ∷ ids) (o ∷ rest) h = rw h.0 (no_mismatch m ids rest h.1)

contains_of_All :
    (ns ids : List ℕ) (k : ℕ)
    → All (λ n. contains n ids ≡ true) ns
    → contains k ns ≡ true
    → contains k ids ≡ true
contains_of_All [] ids k h c = cc
contains_of_All (n ∷ ns) ids k h c = ground (arith, contains_of_All ns ids k h.1, h.0)

Numbered-length : (ns : List ℕ) (os : List Output) → Numbered ns os → length os ≡ length ns
Numbered-length [] [] h = refl
Numbered-length [] (o ∷ os) h = absurd h
Numbered-length (n ∷ ns) [] h = absurd h
Numbered-length (n ∷ ns) (o ∷ os) h = omega (arith, Numbered-length ns os h.1)

-- The ids of the outputs are those of the request, each once.
pub record Answers (ns : List ℕ) (ids : List ℕ) : Type 0 where
  pub once : IsNodup ns
  pub all : All (λ n. contains n ids ≡ true) ns
  pub as_many : length ns ≡ length ids

match_ids_complete :
    (m : Map Output) (key : ℕ) (request : Pending) (rest : List Output)
    → IsNodup request.ids
    → length request.ids ≡ length m
    → Holds m request.ids rest
    → match_ids m key request ≡ ok (record { key = key; request = request; outputs = rest })
unfolding match_ids
match_ids_complete m key request rest d e h =
    let same : (length request.ids == length m) ≡ true = ground (arith, e) in
    rw
      (
        same,
        no_mismatch m request.ids rest h,
        take_all_complete (λ id. Error.internal) request.ids m rest d h,
      )
      refl

pending_of_complete :
    (m : Map Output) (pending : Map Pending) (k key : ℕ)
    → first_key m ≡ some k
    → find_pending k pending ≡ some key
    → pending_of m pending ≡ ok key
unfolding pending_of
pending_of_complete m pending k key e f = rw (e, f) refl

-- A response to a pending request is accepted, whatever the order of its outputs: if their ids are
-- the ids of the request, each once, the request is settled with its outputs in the order of its
-- ids, provided no id is pending twice.
pub settle_complete :
    (os rest : List Output) (ns : List ℕ) (key n : ℕ) (request : Pending) (pending : Map Pending)
    → ((id : ℕ) → pending_times id pending ≤ 1)
    → Map.get key pending ≡ some request
    → IsNodup request.ids
    → Numbered ns os
    → Answers ns request.ids
    → length ns ≡ suc n
    → Finds os request.ids rest
    → settle os pending ≡ ok (record { key = key; request = request; outputs = rest })
unfolding settle
settle_complete os rest ns key n request pending once got d h a len f =
    let (m, built, size) = index_total os ns [] h a.once (Absent-nil ns) in
    let (k, o, fst, here) = first_key-get m n (omega (arith, size, len)) in
    let seen = find-contains k os ns o h (sym (get-index_nil os m k built) ∙ here) in
    let found =
      find_pending-IsSound k key request pending (once k) got
        (contains_of_All ns request.ids k a.all seen) in
    rw (built, pending_of_complete m pending k key fst found, got)
      (match_ids_complete m key request rest d (omega (arith, size, a.as_many))
        (Finds-Holds os m request.ids rest (λ id. get-index_nil os m id built) f))
