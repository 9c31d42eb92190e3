-- ===== src/Signing/Names.antt =====
-- The hash of a domain name: `namehash` of src/signing.rs.
use rust_web.Prelude.{
  ℕ, ◌≡◌, refl, sym, ap, ◌∙◌, List, [], ◌∷◌, ◌++◌, length, All, contains, false, ◌==◌, arith,
}
use rust_web.Signing.{Crypto, split, reverse, node_of, namehash, zeros}

split-dot :
    (label rest : List ℕ)
    → contains 46 label ≡ false
    → split (label ++ 46 ∷ rest) ≡ label ∷ split rest
unfolding split
split-dot [] rest h = refl
split-dot (b ∷ label) rest h =
    let other : (b == 46) ≡ false = ground arith in
    let clear : contains 46 label ≡ false = ground arith in
    rw (split-dot label rest clear, other) refl

split-label : (label : List ℕ) → contains 46 label ≡ false → split label ≡ label ∷ []
unfolding split
split-label [] h = refl
split-label (b ∷ label) h =
    let other : (b == 46) ≡ false = ground arith in
    let clear : contains 46 label ≡ false = ground arith in rw (split-label label clear, other) refl

-- 32 zeros.
abbrev pub IsRoot : List ℕ → Type 0
IsRoot node = (length node ≡ 32) × All (λ b. b ≡ 0) node

only_zeros :
    (node other : List ℕ)
    → length node ≡ length other
    → All (λ b. b ≡ 0) node
    → All (λ b. b ≡ 0) other
    → node ≡ other
only_zeros [] [] h z k = refl
only_zeros [] (c ∷ other) h z k = absurd (omega (arith, h))
only_zeros (b ∷ node) [] h z k = absurd (omega (arith, h))
only_zeros (b ∷ node) (c ∷ other) h z k =
    rw (z.0, k.0, only_zeros node other (omega (arith, h)) z.1 k.1) refl

zeros-IsRoot : IsRoot zeros
zeros-IsRoot = (refl, ground arith)

zeros-only : (node : List ℕ) → IsRoot node → zeros ≡ node
zeros-only node r = only_zeros zeros node (refl ∙ sym r.0) zeros-IsRoot.1 r.1

module _ {SecretKey PublicKey : Type 0} (crypto : Crypto SecretKey PublicKey) where
  node_of-append :
      (node : List ℕ) (labels : List (List ℕ)) (label : List ℕ)
      → node_of crypto node (labels ++ label ∷ [])
        ≡ crypto.keccak256 (node_of crypto node labels ++ crypto.keccak256 label)
  unfolding node_of
  node_of-append node [] label = refl
  node_of-append node (l ∷ labels) label =
      node_of-append (crypto.keccak256 (node ++ crypto.keccak256 l)) labels label

  node_of-reverse :
      (label : List ℕ) (labels : List (List ℕ))
      → node_of crypto zeros (reverse (label ∷ labels))
        ≡ crypto.keccak256 (node_of crypto zeros (reverse labels) ++ crypto.keccak256 label)
  unfolding reverse
  node_of-reverse label labels = node_of-append zeros (reverse labels) label

  namehash-split :
      (b : ℕ) (bytes : List ℕ)
      → namehash crypto (b ∷ bytes) ≡ node_of crypto zeros (reverse (split (b ∷ bytes)))
  unfolding namehash
  namehash-split b bytes = refl

  namehash-dot :
      (label : List ℕ) (b : ℕ) (rest : List ℕ)
      → contains 46 label ≡ false
      → namehash crypto (label ++ 46 ∷ b ∷ rest)
        ≡ crypto.keccak256 (namehash crypto (b ∷ rest) ++ crypto.keccak256 label)
  namehash-dot [] b rest h =
      namehash-split 46 (b ∷ rest)
      ∙ ap (λ l. node_of crypto zeros (reverse l)) (split-dot [] (b ∷ rest) h)
      ∙ node_of-reverse [] (split (b ∷ rest))
      ∙ ap (λ n. crypto.keccak256 (n ++ crypto.keccak256 [])) (sym (namehash-split b rest))
  namehash-dot (c ∷ label) b rest h =
      namehash-split c (label ++ 46 ∷ b ∷ rest)
      ∙ ap (λ l. node_of crypto zeros (reverse l)) (split-dot (c ∷ label) (b ∷ rest) h)
      ∙ node_of-reverse (c ∷ label) (split (b ∷ rest))
      ∙ ap (λ n. crypto.keccak256 (n ++ crypto.keccak256 (c ∷ label))) (sym (namehash-split b rest))

  namehash-label :
      (b : ℕ) (label : List ℕ)
      → contains 46 (b ∷ label) ≡ false
      → namehash crypto (b ∷ label) ≡ crypto.keccak256 (zeros ++ crypto.keccak256 (b ∷ label))
  unfolding node_of reverse
  namehash-label b label h =
      namehash-split b label
      ∙ ap (λ l. node_of crypto zeros (reverse l)) (split-label (b ∷ label) h)

  -- The node of a name in EIP-137: 32 zeros for the empty name; the hash of these and of the hash of the
  -- label for a name of one label; and for `label.rest` the hash of the node of `rest` and of the hash
  -- of the label. A label has no dot, and a name does not end in one.
  pub data IsNode : List ℕ → List ℕ → Type 0 where
    root : (node : List ℕ) → IsRoot node → IsNode [] node
    top :
        (b : ℕ) (label zeros : List ℕ)
        → IsRoot zeros
        → contains 46 (b ∷ label) ≡ false
        → IsNode (b ∷ label) (crypto.keccak256 (zeros ++ crypto.keccak256 (b ∷ label)))
    sub :
        (label : List ℕ) (b : ℕ) (rest node : List ℕ)
        → contains 46 label ≡ false
        → IsNode (b ∷ rest) node
        → IsNode (label ++ 46 ∷ b ∷ rest) (crypto.keccak256 (node ++ crypto.keccak256 label))

  -- The hash of a name is its node in EIP-137, for every name that has one: the empty name, and those
  -- that do not end in a dot.
  pub namehash_eip137 : {name node : List ℕ} → IsNode name node → namehash crypto name ≡ node
  unfolding namehash
  namehash_eip137 (root node r) = zeros-only node r
  namehash_eip137 (top b label start r h) =
      namehash-label b label h
      ∙ ap (λ n. crypto.keccak256 (n ++ crypto.keccak256 (b ∷ label))) (zeros-only start r)
  namehash_eip137 (sub label b rest node h is) =
      namehash-dot label b rest h
      ∙ ap (λ n. crypto.keccak256 (n ++ crypto.keccak256 label)) (namehash_eip137 is)
