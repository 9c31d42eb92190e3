-- ===== src/Contract/Tokens/Sequences.antt =====
-- Lists of values in src/contract/tokens.rs: round trips of Vec<T> and of fixed arrays.
use rust_web.Prelude.{
  ℕ, ◌≡◌, refl, sym, ap, ◌∙◌, List, [], ◌∷◌, length, map, length-map, true, ◌==◌, ==_iff,
  Bool-cases, inl, inr,
}
use rust_web.Contract.Tokens.{
  Token, tokens_of, listed, Decoded, decoded, invalid, ◌>>=◌, Tokenizable, collect, fixed_array,
  vec_from_token, vec_into_token, fixed_array_from_token, fixed_array_into_token, sized_array,
}

-- A value comes back from its token.
pub record IsFaithful {A : Type 0} (item : Tokenizable A) : Type 0 where
  pub round_trip : (a : A) → item.from_token (item.into_token a) ≡ decoded a

listed-tokens_of : (ts : List Token) → listed (tokens_of ts) ≡ ts
listed-tokens_of [] = refl
listed-tokens_of (t ∷ ts) = ap (λ x. t ∷ x) (listed-tokens_of ts)

module _ {A : Type 0} (item : Tokenizable A) (faithful : IsFaithful item) where
  collect-map :
      (values : List A) → collect item (tokens_of (map item.into_token values)) ≡ decoded values
  unfolding collect
  collect-map [] = refl
  collect-map (v ∷ vs) = rw (faithful.round_trip v, collect-map vs) refl

  -- A Vec<T> comes back from its token, if its items do.
  pub vec_round_trip :
      (values : List A) → vec_from_token item (vec_into_token item values) ≡ decoded values
  unfolding vec_from_token vec_into_token
  vec_round_trip values = collect-map values

  -- A Vec<T> is also read from a fixed array, so that an array of any size is read as a list of its
  -- values; and a [T; N] comes back from its token, if its items do.
  pub fixed_array_round_trip :
      (values : List A)
      → (fixed_array_from_token item (length values) (fixed_array_into_token item values)
          ≡ decoded values)
        × (vec_from_token item (fixed_array_into_token item values) ≡ decoded values)
  unfolding fixed_array_from_token fixed_array_into_token vec_from_token
  fixed_array_round_trip values =
      let ts = map item.into_token values in
      let size : length (listed (tokens_of ts)) ≡ length values =
        ap (λ (x : List Token). length x) (listed-tokens_of ts)
        ∙ length-map item.into_token values in
      let same : (length (listed (tokens_of ts)) == length values) ≡ true =
        (==_iff (length (listed (tokens_of ts))) (length values)).1 size in
      let ours : (length values == length values) ≡ true =
        (==_iff (length values) (length values)).1 refl in
      (rw (same, collect-map values, ours) refl, collect-map values)

sized-length :
    {A : Type 0} (item : Tokenizable A) (size : ℕ) (d : Decoded (List A)) (values : List A)
    → (d >>= sized_array item size) ≡ decoded values
    → length values ≡ size
sized-length item size (invalid e) values h = cc
sized-length item size (decoded xs) values h = elim (Bool-cases (length xs == size)) [
  | inl same ↦
      let q : xs ≡ values = cc (rw same at h) in
      sym (ap (λ (x : List _). length x) q) ∙ (==_iff (length xs) size).0 same
  | inr other ↦ absurd (let r = rw other at h in cc)
]

-- What a [T; N] reads has N elements, whatever its items read.
pub fixed_array_length :
    {A : Type 0} (item : Tokenizable A) (size : ℕ) (t : Token) (values : List A)
    → fixed_array_from_token item size t ≡ decoded values
    → length values ≡ size
unfolding fixed_array_from_token collect
fixed_array_length item size (fixed_array ts) values h =
    elim (Bool-cases (length (listed ts) == size)) [
      | inl same ↦ sized-length item size (collect item ts) values (rw same at h)
      | inr other ↦ absurd (let r = rw other at h in cc)
    ]
fixed_array_length item size _ values h = cc
