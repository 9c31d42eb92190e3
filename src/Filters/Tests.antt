-- ===== src/Filters/Tests.antt =====
-- Runs of src/types/log.rs: a range after a block hash, and topics with gaps.
use rust_web.Prelude.{ℕ, ◌≡◌, refl, List, [], ◌∷◌, Option, none, some}
use rust_web.Filters.{Method, trimmed, build, default}
use rust_web.Filters.Build.{IsExclusive, build-IsExclusive}

abbrev methods : List (Method ℕ)
methods = Method.block_hash 9 ∷ Method.from_block 1 ∷ Method.limit 5 ∷ []

build-IsExclusive_example : IsExclusive (build methods default)
build-IsExclusive_example = build-IsExclusive methods

abbrev gaps : List (Option (List ℕ))
gaps = none ∷ some (7 ∷ []) ∷ none ∷ none ∷ []

trimmed-gaps : trimmed gaps ≡ none ∷ some (7 ∷ []) ∷ []
unfolding trimmed
trimmed-gaps = refl
