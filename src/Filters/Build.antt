-- ===== src/Filters/Build.antt =====
-- What a chain of methods builds, in src/types/log.rs.
use rust_web.Prelude.{
  ℕ, ◌≡◌, refl, sym, ap, ◌∙◌, ◌⊎◌, inl, inr, List, [], ◌∷◌, ◌++◌, append-nil, append_assoc, Option,
  none, some,
}
use rust_web.Filters.{
  Filter, Method, from_block, to_block, block_hash, address, topics, topic_filter, limit, set,
  default, build, reverse, skip_none, trimmed,
}

-- A block hash excludes a range of blocks.
abbrev pub IsExclusive : {B : Type 0} → Filter B → Type 0
IsExclusive filter =
    (filter.block_hash ≡ none) ⊎ ((filter.from_block ≡ none) × (filter.to_block ≡ none))

set-IsExclusive : {B : Type 0} (m : Method B) (f : Filter B) → IsExclusive f → IsExclusive (set m f)
unfolding set
set-IsExclusive (from_block b) f h = inl refl
set-IsExclusive (to_block b) f h = inl refl
set-IsExclusive (block_hash n) f h = inr (refl, refl)
set-IsExclusive (address a) f h = h
set-IsExclusive (topics t1 t2 t3 t4) f h = h
set-IsExclusive (topic_filter t1 t2 t3 t4) f h = h
set-IsExclusive (limit n) f h = h

build-IsExclusive_from :
    {B : Type 0} (ms : List (Method B)) (f : Filter B) → IsExclusive f → IsExclusive (build ms f)
unfolding build
build-IsExclusive_from [] f h = h
build-IsExclusive_from (m ∷ ms) f h = build-IsExclusive_from ms (set m f) (set-IsExclusive m f h)

-- Whatever methods are called on a new builder, in whatever order: the filter has a block hash, or a
-- first or last block, and never both.
pub build-IsExclusive : {B : Type 0} (ms : List (Method B)) → IsExclusive (build ms default)
build-IsExclusive ms = build-IsExclusive_from ms default (inl refl)

-- Topics that are none, and topics that end with one that is there.
abbrev pub Nones : List (Option (List ℕ)) → Type 0
Nones [] = Unit
Nones (none ∷ xs) = Nones xs
Nones (some v ∷ xs) = ⊥

abbrev pub EndsSet : List (Option (List ℕ)) → Type 0
EndsSet xs = (xs ≡ []) ⊎ ((ys : List (Option (List ℕ))) × (v : List ℕ) × (xs ≡ ys ++ some v ∷ []))

reverse-append : (xs ys : List (Option (List ℕ))) → reverse (xs ++ ys) ≡ reverse ys ++ reverse xs
reverse-append [] ys = sym (append-nil (reverse ys))
reverse-append (x ∷ xs) ys =
    ap (λ zs. zs ++ x ∷ []) (reverse-append xs ys) ∙ append_assoc (reverse ys) (reverse xs) (x ∷ [])

reverse-reverse : (xs : List (Option (List ℕ))) → reverse (reverse xs) ≡ xs
reverse-reverse [] = refl
reverse-reverse (x ∷ xs) =
    reverse-append (reverse xs) (x ∷ []) ∙ ap (λ zs. x ∷ zs) (reverse-reverse xs)

Nones-append : (xs ys : List (Option (List ℕ))) → Nones xs → Nones ys → Nones (xs ++ ys)
Nones-append [] ys h k = k
Nones-append (none ∷ xs) ys h k = Nones-append xs ys h k
Nones-append (some v ∷ xs) ys h k = absurd h

-- What `skip_while` skips, and what is left.
skip_none-parts :
    (xs : List (Option (List ℕ)))
    → (skipped : List (Option (List ℕ))) × (reverse xs ≡ reverse (skip_none xs) ++ skipped)
      × Nones skipped
      × EndsSet (reverse (skip_none xs))
skip_none-parts [] = ([], refl, tt, inl refl)
skip_none-parts (some v ∷ xs) =
    ([], sym (append-nil (reverse xs ++ some v ∷ [])), tt, inr (reverse xs, v, refl))
skip_none-parts (none ∷ xs) =
    let (skipped, e, n, s) = skip_none-parts xs in
    (
      skipped ++ none ∷ [],
      ap (λ zs. zs ++ none ∷ []) e ∙ append_assoc (reverse (skip_none xs)) skipped (none ∷ []),
      Nones-append skipped (none ∷ []) n tt,
      s,
    )

-- The topics of a filter are the given ones in their order, without those at the end that are none,
-- and the last of them is there: a missing topic before a present one keeps its place.
pub trimmed_lem :
    (given : List (Option (List ℕ)))
    → (skipped : List (Option (List ℕ))) × (given ≡ trimmed given ++ skipped)
      × Nones skipped
      × EndsSet (trimmed given)
unfolding trimmed
trimmed_lem given =
    let (skipped, e, n, s) = skip_none-parts (reverse given) in
    (skipped, sym (reverse-reverse given) ∙ e, n, s)
