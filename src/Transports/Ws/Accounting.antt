-- ===== src/Transports/Ws/Accounting.antt =====
-- Counting what is pending and what was answered in the task of src/transports/ws.rs.
use rust_web.Prelude.{
  ℕ, ◌≤◌, ◌≡◌, refl, List, [], ◌∷◌, none, contains, any, All, firsts, count, contains-count,
  count_of_contains, true, false, arith, ◌==◌, if◌then◌else◌,
}
use rust_web.Prelude.Map
use rust_web.Prelude.Map.{Map, keys}
use rust_web.Prelude.Map.Count.{none-get, total, total-insert, total-remove, All-insert, All-remove}
use rust_web.Error.{Error}
use rust_web.Transports.Ws.{Task, Pending, failures, has_duplicates, collides}

-- How often an id is pending, and how often a channel waits.
abbrev pub pending_times : ℕ → Map Pending → ℕ
pending_times id = total (λ p. count id p.ids)

abbrev pub waiting_times : ℕ → Map Pending → ℕ
waiting_times tx = total (λ p. if tx == p.sender then 1 else 0)

abbrev OwnKey : ℕ × Pending → Type 0
OwnKey (key, request) = contains key request.ids ≡ true

-- No id is pending twice, also within one batch, and requests stand under one of their own ids.
pub record IsSound (m : Map Pending) : Type 0 where
  pub once : (id : ℕ) → pending_times id m ≤ 1
  pub keyed : All OwnKey m

apart :
    (ids xs : List ℕ) (id : ℕ)
    → contains id ids ≡ true
    → any (λ x. contains x ids) xs ≡ false
    → count id xs ≡ 0
apart ids [] id c h = refl
apart ids (x ∷ xs) id c h = ground (arith, apart ids xs id)

collides-false :
    (ids : List ℕ) (m : Map Pending) (id : ℕ)
    → collides ids m ≡ false
    → contains id ids ≡ true
    → pending_times id m ≡ 0
unfolding total
collides-false ids [] id h c = refl
collides-false ids ((key, request) ∷ m) id h c =
    ground (arith, collides-false ids m id, apart ids request.ids id)

duplicates-false : (ids : List ℕ) (id : ℕ) → has_duplicates ids ≡ false → count id ids ≤ 1
duplicates-false [] id h = omega arith
duplicates-false (x ∷ ids) id h = ground (arith, duplicates-false ids id, count_of_contains x ids)

keys-le-pending : (m : Map Pending) (id : ℕ) → All OwnKey m → count id (keys m) ≤ pending_times id m
unfolding keys total
keys-le-pending [] id h = omega arith
keys-le-pending ((key, request) ∷ m) id h =
    ground (arith, keys-le-pending m id h.1, contains-count key request.ids h.0)

pub IsSound-insert :
    (id : ℕ) (ids : List ℕ) (tx : ℕ) (m : Map Pending)
    → has_duplicates (id ∷ ids) ≡ false
    → collides (id ∷ ids) m ≡ false
    → IsSound m
    → (Map.get id m ≡ none) × IsSound (Map.insert id (record { ids = id ∷ ids; sender = tx }) m)
IsSound-insert id ids tx m d c h =
    let absent : Map.get id m ≡ none =
      none-get id m
        (ground (arith, keys-le-pending m id h.keyed, collides-false (id ∷ ids) m id c)) in
    (
      absent,
      record {
        once = λ j.
            rw
              (total-insert (λ p. count j p.ids) id (record { ids = id ∷ ids; sender = tx }) m
                absent)
              (ground (
                arith,
                h.once j,
                duplicates-false (id ∷ ids) j d,
                collides-false (id ∷ ids) m j c,
                count_of_contains j ids,
              ));
        keyed =
            All-insert OwnKey id (record { ids = id ∷ ids; sender = tx }) m (ground arith) h.keyed;
      },
    )

pub single_key : (m : Map Pending) (id : ℕ) → IsSound m → count id (keys m) ≤ 1
single_key m id h = omega (arith, h.once id, keys-le-pending m id h.keyed)

pub IsSound-remove : (key : ℕ) (m : Map Pending) → IsSound m → IsSound (Map.remove key m)
IsSound-remove key m h = record {
  once = λ j. omega (arith, h.once j, total-remove (λ p. count j p.ids) key m (single_key m key h));
  keyed = All-remove OwnKey key m h.keyed;
}

-- The channels that were answered.
abbrev pub answered : Task → List ℕ
answered s = firsts s.answers

pub count-failures :
    (e : Error) (m : Map Pending) (tx : ℕ) → count tx (firsts (failures e m)) ≡ waiting_times tx m
unfolding failures total
count-failures e [] tx = refl
count-failures e ((id, request) ∷ m) tx = omega (arith, count-failures e m tx)
