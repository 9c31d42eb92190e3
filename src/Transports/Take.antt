-- ===== src/Transports/Take.antt =====
-- The iterator that takes, for each id of a list, what a map holds for it out of the map:
-- `ids.iter().map(|id| map.remove(id).ok_or_else(..)).collect()` in http.rs and ws.rs.
use mathlib.Core.Path.{subst}
use rust_web.Prelude.{ℕ, ◌≡◌, refl, List, [], ◌∷◌, some, contains, IsNodup, false, arith}
use rust_web.Prelude.Map
use rust_web.Prelude.Map.{Map, get-remove}
use rust_web.Error.{Error, Result, ok, ◌>>=◌, ok_or, bind-ok, ok_or-eq-ok, ok-injective}

unfoldable pub take_all : {V : Type 0} → (ℕ → Error) → List ℕ → Map V → Result (List V)
take_all missing [] m = ok []
take_all missing (id ∷ ids) m = do
  v ← ok_or (Map.get id m) (missing id)
  vs ← take_all missing ids (Map.remove id m)
  ok (v ∷ vs)

module _ {V : Type 0} where
  -- Every id of the list has its result in the map, at its place.
  abbrev pub Holds : Map V → List ℕ → List V → Type 0
  Holds m [] [] = Unit
  Holds m (id ∷ ids) (r ∷ rs) = (Map.get id m ≡ some r) × Holds m ids rs
  Holds m [] (r ∷ rs) = ⊥
  Holds m (id ∷ ids) [] = ⊥

  Holds-remove :
      (m : Map V) (id : ℕ) (ids : List ℕ) (rs : List V)
      → contains id ids ≡ false
      → Holds m ids rs
      → Holds (Map.remove id m) ids rs
  Holds-remove m id [] [] c h = tt
  Holds-remove m id [] (r ∷ rs) c h = h
  Holds-remove m id (j ∷ ids) [] c h = h
  Holds-remove m id (j ∷ ids) (r ∷ rs) c h =
      (ground (arith, get-remove id j m), Holds-remove m id ids rs (ground arith) h.1)

  remove-Holds :
      (m : Map V) (id : ℕ) (ids : List ℕ) (rs : List V)
      → Holds (Map.remove id m) ids rs
      → (contains id ids ≡ false) × Holds m ids rs
  remove-Holds m id [] [] h = (refl, tt)
  remove-Holds m id [] (r ∷ rs) h = absurd h
  remove-Holds m id (j ∷ ids) [] h = absurd h
  remove-Holds m id (j ∷ ids) (r ∷ rs) h =
      let (c, ih) = remove-Holds m id ids rs h.1 in
      (ground (arith, get-remove id j m), (ground (arith, get-remove id j m), ih))

  pub take_all_complete :
      (missing : ℕ → Error) (ids : List ℕ) (m : Map V) (rs : List V)
      → IsNodup ids
      → Holds m ids rs
      → take_all missing ids m ≡ ok rs
  unfolding take_all
  take_all_complete missing [] m [] d h = refl
  take_all_complete missing [] m (r ∷ rs) d h = absurd h
  take_all_complete missing (id ∷ ids) m [] d h = absurd h
  take_all_complete missing (id ∷ ids) m (r ∷ rs) d h = rw (
    h.0,
    take_all_complete missing ids (Map.remove id m) rs d.1 (Holds-remove m id ids rs d.0 h.1),
  )

  pub take_all_sound :
      (missing : ℕ → Error) (ids : List ℕ) (m : Map V) (rs : List V)
      → take_all missing ids m ≡ ok rs
      → IsNodup ids × Holds m ids rs
  unfolding take_all
  take_all_sound missing [] m [] h = (tt, tt)
  take_all_sound missing [] m (r ∷ rs) h = cc
  take_all_sound missing (id ∷ ids) m rs h =
      let (r, q, h1) = bind-ok (ok_or (Map.get id m) (missing id)) _ h in
      let (rs', h2, h3) = bind-ok (take_all missing ids (Map.remove id m)) _ h1 in
      let (nodup, holds) = take_all_sound missing ids (Map.remove id m) rs' h2 in
      let (fresh, holds') = remove-Holds m id ids rs' holds in
      (
        (fresh, nodup),
        subst (Holds m (id ∷ ids)) (ok-injective h3)
            (ok_or-eq-ok (Map.get id m) (missing id) q, holds'),
      )
