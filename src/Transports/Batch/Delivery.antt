-- ===== src/Transports/Batch/Delivery.antt =====
-- What a submission of src/transports/batch.rs sends to whom.
use rust_web.Prelude.{
  ℕ, suc, ◌+◌, ◌≡◌, refl, sym, ap, ◌∙◌, List, [], ◌∷◌, ◌++◌, map, none, some, length, length-append,
  get_elem?, contains, IsNodup, append_assoc, false, arith, if◌then◌else◌, ==_iff,
}
use rust_web.Prelude.Map
use rust_web.Prelude.Map.{Map, get-remove}
use rust_web.Rpc.{Value}
use rust_web.Error.{Error, Result, ok, err, clone_lem}
use rust_web.Transports.Batch.{
  Batch, take_senders, checked, answer_at, send_all, finish, cancel, cancelled,
}

-- The channels on which the requests with these ids wait, at their places.
abbrev pub Waiting : Map ℕ → List ℕ → List ℕ → Type 0
Waiting m [] [] = Unit
Waiting m (id ∷ ids) (tx ∷ txs) = (Map.get id m ≡ some tx) × Waiting m ids txs
Waiting m [] (tx ∷ txs) = ⊥
Waiting m (id ∷ ids) [] = ⊥

-- Places `n`, `n + 1`, … of the channels.
unfoldable pub places : ℕ → List ℕ → List (ℕ × ℕ)
places n [] = []
places n (tx ∷ txs) = (n, tx) ∷ places (n + 1) txs

-- The channels paired with the results.
unfoldable pub paired : List ℕ → List (Result Value) → List (ℕ × Result Value)
paired [] rs = []
paired (tx ∷ txs) [] = []
paired (tx ∷ txs) (r ∷ rs) = (tx, r) ∷ paired txs rs

Waiting-remove :
    (m : Map ℕ) (id : ℕ) (ids txs : List ℕ)
    → contains id ids ≡ false
    → Waiting m ids txs
    → Waiting (Map.remove id m) ids txs
Waiting-remove m id [] [] c h = tt
Waiting-remove m id [] (tx ∷ txs) c h = h
Waiting-remove m id (j ∷ ids) [] c h = h
Waiting-remove m id (j ∷ ids) (tx ∷ txs) c h =
    (ground (arith, get-remove id j m), Waiting-remove m id ids txs (ground arith) h.1)

Waiting-length : (m : Map ℕ) (ids txs : List ℕ) → Waiting m ids txs → length ids ≡ length txs
Waiting-length m [] [] h = refl
Waiting-length m [] (tx ∷ txs) h = absurd h
Waiting-length m (id ∷ ids) [] h = absurd h
Waiting-length m (id ∷ ids) (tx ∷ txs) h = ap suc (Waiting-length m ids txs h.1)

-- Every waiting sender is taken, with its place.
take_senders-places :
    (n : ℕ) (ids txs : List ℕ) (m : Map ℕ)
    → IsNodup ids
    → Waiting m ids txs
    → (take_senders n ids m).0 ≡ places n txs
unfolding take_senders places
take_senders-places n [] [] m d h = refl
take_senders-places n [] (tx ∷ txs) m d h = absurd h
take_senders-places n (id ∷ ids) [] m d h = absurd h
take_senders-places n (id ∷ ids) (tx ∷ txs) m d h =
    rw (h.0, take_senders)
      (ap (λ (l : List (ℕ × ℕ)). (n, tx) ∷ l)
        (take_senders-places (n + 1) ids txs (Map.remove id m) d.1
          (Waiting-remove m id ids txs d.0 h.1)))

-- What is left are the requests with other ids.
pub get-take_senders :
    (n : ℕ) (ids : List ℕ) (m : Map ℕ) (j : ℕ)
    → Map.get j (take_senders n ids m).1 ≡ (if contains j ids then none else Map.get j m)
unfolding take_senders
get-take_senders n [] m j = refl
get-take_senders n (id ∷ ids) m j =
    ground (arith, get-take_senders (n + 1) ids (Map.remove id m) j, get-remove id j m)

get_elem?-append :
    {A : Type 0} (xs ys : List A) (r : A) → get_elem? (xs ++ r ∷ ys) (length xs) ≡ some r
get_elem?-append [] ys r = refl
get_elem?-append (x ∷ xs) ys r = get_elem?-append xs ys r

-- The results behind `done` go to the channels at the places behind it.
send_all-paired :
    (done rs : List (Result Value)) (txs : List ℕ)
    → length txs ≡ length rs
    → send_all (ok (done ++ rs)) (places (length done) txs) ≡ paired txs rs
unfolding send_all places paired answer_at
send_all-paired done [] [] e = refl
send_all-paired done (r ∷ rs) [] e = refl
send_all-paired done [] (tx ∷ txs) e = absurd (omega arith)
send_all-paired done (r ∷ rs) (tx ∷ txs) e =
    let p : (done ++ r ∷ []) ++ rs ≡ done ++ r ∷ rs = append_assoc done (r ∷ []) rs in
    let q : length (done ++ r ∷ []) ≡ length done + 1 =
      omega (arith, length-append done (r ∷ [])) in
    let ih : send_all (ok (done ++ r ∷ rs)) (places (length done + 1) txs) ≡ paired txs rs =
      rw (p, q) at (send_all-paired (done ++ r ∷ []) rs txs (omega arith)) in
    cc (get_elem?-append done rs r, ih)

send_all-err :
    (e : Error) (n : ℕ) (txs : List ℕ)
    → send_all (err e) (places n txs) ≡ map (λ tx. (tx, err e)) txs
unfolding send_all places answer_at
send_all-err e n [] = refl
send_all-err e n (tx ∷ txs) = cc (clone_lem e, send_all-err e (n + 1) txs)

module _ (ids txs : List ℕ) (s : Batch) (nodup : IsNodup ids)
    (waiting : Waiting s.pending ids txs) where
  -- When the transport returns one result for each request of a submission, every waiting channel
  -- is sent its own request's result, the submission returns them all, and only the submission's
  -- requests stop being pending.
  pub finish-ok :
      (results : List (Result Value))
      → length results ≡ length ids
      → ((finish ids (ok results) s).0.answers ≡ s.answers ++ paired txs results)
        × ((finish ids (ok results) s).1 ≡ ok results)
        × ((j : ℕ)
            → Map.get j (finish ids (ok results) s).0.pending
              ≡ (if contains j ids then none else Map.get j s.pending))
  unfolding finish checked
  finish-ok results e = rw ((==_iff (length results) (length ids)).1 e) (
    rw (take_senders-places 0 ids txs s.pending nodup waiting) (
        ap (λ l. s.answers ++ l)
          (send_all-paired [] results txs
            (sym (Waiting-length s.pending ids txs waiting) ∙ sym e))),
    refl,
    λ j. get-take_senders 0 ids s.pending j,
  )

  -- When the transport fails, or returns another number of results than there were requests, every
  -- waiting channel is sent the error that the submission returns.
  pub finish-err :
      (reply : Result (List (Result Value))) (e : Error)
      → checked ids reply ≡ err e
      → ((finish ids reply s).0.answers ≡ s.answers ++ map (λ tx. (tx, err e)) txs)
        × ((finish ids reply s).1 ≡ err e)
        × ((j : ℕ)
            → Map.get j (finish ids reply s).0.pending
              ≡ (if contains j ids then none else Map.get j s.pending))
  unfolding finish
  finish-err reply e h = (
    rw (h, take_senders-places 0 ids txs s.pending nodup waiting)
        (ap (λ l. s.answers ++ l) (send_all-err e 0 txs)),
    h,
    λ j. get-take_senders 0 ids s.pending j,
  )

  -- A submission that is dropped before it is done tells every waiting channel so.
  pub cancel_lem :
      ((cancel ids s).answers ≡ s.answers ++ map (λ tx. (tx, err cancelled)) txs)
      × ((j : ℕ)
          → Map.get j (cancel ids s).pending
            ≡ (if contains j ids then none else Map.get j s.pending))
  unfolding cancel
  cancel_lem = (
    rw (take_senders-places 0 ids txs s.pending nodup waiting)
        (ap (λ l. s.answers ++ l) (send_all-err cancelled 0 txs)),
    λ j. get-take_senders 0 ids s.pending j,
  )
