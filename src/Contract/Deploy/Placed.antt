-- ===== src/Contract/Deploy/Placed.antt =====
-- src/contract/deploy.rs: where the linker puts the addresses of libraries.
use rust_web.Prelude.{
  ℕ, zero, suc, ◌+◌, ◌≤◌, ◌-◌, List, [], ◌∷◌, ◌++◌, length, All, false, ◌≡◌, refl, ap, sym, ◌∙◌,
  ltb, arith, append_assoc,
}
use rust_web.Session.{done}
use rust_web.Contract.Deploy.{utf8_len, repeat, placeholder, replace_first, linked}
use rust_web.Contract.Deploy.Link.{IsWithout, replace_first-placeholder, length-repeat}

-- A library in the code: its name, the underscores that fill it up, its address, and the code that
-- follows.
pub record Library : Type 0 where
  pub name : List ℕ
  pub fill : List ℕ
  pub address : List ℕ
  pub following : List ℕ

-- The name and the underscores around it have 40 characters, and the name at most 38 bytes; neither the
-- address as text nor the code that follows has an underscore.
pub record IsPlaced (encode : List ℕ → List ℕ) (l : Library) : Type 0 where
  pub underscores : All (λ c. c ≡ b'_') l.fill
  pub width : 2 + length l.name + length l.fill ≡ 40
  pub short : utf8_len l.name ≤ 38
  pub address : IsWithout b'_' (encode l.address)
  pub following : IsWithout b'_' l.following

abbrev pub linker_of : List Library → List (List ℕ × List ℕ)
linker_of [] = []
linker_of (l ∷ ls) = (l.name, l.address) ∷ linker_of ls

-- The code from its first library on, before it is linked, and after.
abbrev pub unlinked : List Library → List ℕ
unlinked [] = []
unlinked (l ∷ ls) = b'_' ∷ b'_' ∷ l.name ++ (l.fill ++ (l.following ++ unlinked ls))

abbrev pub with_addresses : (List ℕ → List ℕ) → List Library → List ℕ
with_addresses encode [] = []
with_addresses encode (l ∷ ls) = encode l.address ++ (l.following ++ with_addresses encode ls)

assoc3 : (a b c d : List ℕ) → (a ++ (b ++ c)) ++ d ≡ a ++ (b ++ (c ++ d))
assoc3 a b c d = append_assoc a (b ++ c) d ∙ ap (λ x. a ++ x) (append_assoc b c d)

only :
    (x : ℕ) (a b : List ℕ) → All (λ c. c ≡ x) a → length a ≡ length b → All (λ c. c ≡ x) b → a ≡ b
only x [] [] h e k = refl
only x [] (c ∷ b) h e k = absurd (omega (arith, e))
only x (c ∷ a) [] h e k = absurd (omega (arith, e))
only x (c ∷ a) (d ∷ b) h e k = rw (h.0, k.0, only x a b h.1 (omega (arith, e)) k.1) refl

pub repeat-All : (x n : ℕ) → All (λ c. c ≡ x) (repeat x n)
repeat-All x zero = tt
repeat-All x (suc n) = (refl, repeat-All x n)

placeholder-IsPlaced :
    (encode : List ℕ → List ℕ) (l : Library)
    → IsPlaced encode l
    → placeholder l.name ≡ b'_' ∷ b'_' ∷ l.name ++ l.fill
unfolding placeholder
placeholder-IsPlaced encode l h =
    ap (λ f. b'_' ∷ b'_' ∷ l.name ++ f)
      (only b'_' (repeat b'_' (38 - length l.name)) l.fill (repeat-All b'_' (38 - length l.name))
        (length-repeat b'_' (38 - length l.name) ∙ omega (arith, h.width)) h.underscores)

IsWithout-append : (x : ℕ) (a b : List ℕ) → IsWithout x a → IsWithout x b → IsWithout x (a ++ b)
IsWithout-append x [] b h k = k
IsWithout-append x (c ∷ a) b h k = (h.0, IsWithout-append x a b h.1 k)

-- The first library of the linker is replaced by its address.
replace_first-unlinked :
    (encode : List ℕ → List ℕ) (start : List ℕ) (l : Library) (ls : List Library)
    → IsWithout b'_' start
    → IsPlaced encode l
    → replace_first (placeholder l.name) (encode l.address) (start ++ unlinked (l ∷ ls))
      ≡ (start ++ (encode l.address ++ l.following)) ++ unlinked ls
replace_first-unlinked encode start l ls clear h =
    let tail = l.following ++ unlinked ls in
    let found : unlinked (l ∷ ls) ≡ placeholder l.name ++ tail =
      sym (ap (λ x. b'_' ∷ b'_' ∷ x) (append_assoc l.name l.fill tail))
      ∙ ap (λ x. x ++ tail) (sym (placeholder-IsPlaced encode l h)) in
    ap (λ x. replace_first (placeholder l.name) (encode l.address) (start ++ x)) found
    ∙ replace_first-placeholder l.name (encode l.address) start tail clear
    ∙ sym (assoc3 start (encode l.address) l.following (unlinked ls))

-- Code in which every library of the linker stands once, in the linker's order, as two underscores and
-- its name filled up with underscores to 40 characters, is linked to the code with the addresses in
-- these places and no other change: if the names have at most 38 bytes and there is no other underscore
-- in the code or in an address as text.
pub linked-unlinked :
    (encode : List ℕ → List ℕ) (start : List ℕ) (libraries : List Library)
    → IsWithout b'_' start
    → All (IsPlaced encode) libraries
    → linked encode (linker_of libraries) (start ++ unlinked libraries)
      ≡ done (start ++ with_addresses encode libraries)
unfolding linked
linked-unlinked encode start [] clear h = refl
linked-unlinked encode start (l ∷ ls) clear h =
    let short : ltb 38 (utf8_len l.name) ≡ false = ground (arith, h.0.short) in
    let next = start ++ (encode l.address ++ l.following) in
    rw (short, replace_first-unlinked encode start l ls clear h.0)
      (linked-unlinked encode next ls
          (IsWithout-append b'_' start (encode l.address ++ l.following) clear
            (IsWithout-append b'_' (encode l.address) l.following h.0.address h.0.following))
          h.1
        ∙ ap done (assoc3 start (encode l.address) l.following (with_addresses encode ls)))
