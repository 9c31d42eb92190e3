-- ===== src/Helpers/Ids.antt =====
-- `next_request_id` of src/helpers.rs: the allocation of request ids.
use rust_web.Prelude.{
  ℕ, zero, suc, ◌+◌, ◌-◌, ◌^◌, ◌≤◌, ◌<◌, ◌≡◌, refl, List, [], ◌∷◌, contains, IsNodup, false, arith,
  ltb, if◌then◌else◌,
}

-- RequestId::MAX
abbrev pub max_request_id : ℕ
max_request_id = 2 ^ 64 - 1

-- The counter after the call, and the id that is returned. `checked_add` fails at the maximum, and
-- `fetch_update` then leaves the counter as it was.
unfoldable pub next_request_id : ℕ → ℕ × ℕ
next_request_id counter =
    if ltb counter max_request_id then (counter + 1, counter) else (counter, max_request_id)

-- The ids that `n` calls in a row return.
unfoldable pub allocate : ℕ → ℕ → List ℕ
allocate zero counter = []
allocate (suc n) counter = let (c, id) = next_request_id counter in id ∷ allocate n c

-- The counter stays in the range of `usize` and never goes down, and the id is the counter.
pub next_request_id_bounds :
    (c : ℕ)
    → c ≤ max_request_id
    → (c ≤ (next_request_id c).0)
      × ((next_request_id c).0 ≤ max_request_id)
      × ((next_request_id c).1 ≡ c)
unfolding next_request_id
next_request_id_bounds c h = ground arith

-- An id below the counter is not handed out any more, also after the counter has stopped.
pub allocate-fresh : (n c id : ℕ) → c ≤ max_request_id → id < c → contains id (allocate n c) ≡ false
unfolding allocate next_request_id
allocate-fresh zero c id h lt = refl
allocate-fresh (suc n) c id h lt =
    ground (arith, allocate-fresh n (c + 1) id, allocate-fresh n c id)

-- The ids of `n` calls are all different, as long as the counter does not reach the maximum.
pub allocate-IsNodup : (n c : ℕ) → c + n ≤ max_request_id → IsNodup (allocate n c)
unfolding allocate next_request_id
allocate-IsNodup zero c h = tt
allocate-IsNodup (suc n) c h =
    ground (arith, allocate-IsNodup n (c + 1), allocate-fresh n (c + 1) c)
