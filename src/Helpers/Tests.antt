-- ===== src/Helpers/Tests.antt =====
-- Runs of src/helpers.rs.
use rust_web.Prelude.{◌-◌, [], ◌∷◌, ◌≡◌, refl, IsNodup, arith}
use rust_web.Helpers.{max_request_id, next_request_id, allocate, allocate-IsNodup}

four : allocate 4 1 ≡ 1 ∷ 2 ∷ 3 ∷ 4 ∷ []
unfolding allocate next_request_id
four = refl

-- At its maximum the counter stops, and the maximum is handed out again and again.
stopped :
    allocate 3 (max_request_id - 1) ≡ (max_request_id - 1) ∷ max_request_id ∷ max_request_id ∷ []
unfolding allocate next_request_id
stopped = refl

allocate-IsNodup_example : IsNodup (allocate 4 1)
allocate-IsNodup_example = allocate-IsNodup 4 1 (omega arith)
