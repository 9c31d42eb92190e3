-- ===== src/Contract/Deploy/Link.antt =====
-- src/contract/deploy.rs: putting the addresses of libraries into the code, and the fix for truffle.
use rust_web.Prelude.{
  ℕ, zero, suc, ◌+◌, ◌-◌, ◌*◌, ◌≤◌, List, [], ◌∷◌, ◌++◌, length, length-append, Bool, true, false,
  ◌≡◌, refl, ap, ◌∙◌, ◌==◌, ltb, Option, none, some, arith, if-else, ltb-false→le, ◌≢◌,
}
use rust_web.Session.{done}
use rust_web.Contract.Deploy.{
  utf8_len, repeat, placeholder, strip_prefix, replaced, replace_first, remove_quotes, remove_0x,
  cleaned, linked,
}

pub length-repeat : (c n : ℕ) → length (repeat c n) ≡ n
length-repeat c zero = refl
length-repeat c (suc n) = ap suc (length-repeat c n)

-- A text has as many bytes as characters, or more.
length-le-utf8_len : (s : List ℕ) → length s ≤ utf8_len s
length-le-utf8_len [] = omega arith
length-le-utf8_len (c ∷ s) = ground (arith, length-le-utf8_len s)

-- A placeholder has 40 characters, as an address in hexadecimal digits, if the library's name has at
-- most 38 bytes.
pub length-placeholder : (lib : List ℕ) → utf8_len lib ≤ 38 → length (placeholder lib) ≡ 40
unfolding placeholder
length-placeholder lib h = omega (
  arith,
  length-append lib (repeat b'_' (38 - length lib)),
  length-repeat b'_' (38 - length lib),
  length-le-utf8_len lib,
)

length-strip_prefix :
    (pattern s rest : List ℕ)
    → strip_prefix pattern s ≡ some rest
    → length s ≡ length pattern + length rest
unfolding strip_prefix
length-strip_prefix [] s rest h = ground arith
length-strip_prefix (p ∷ ps) [] rest h = cc
length-strip_prefix (p ∷ ps) (c ∷ cs) rest h = ground (arith, length-strip_prefix ps cs rest)

length-replaced :
    (pattern to s kept : List ℕ) (found : Option (List ℕ))
    → length pattern ≡ length to
    → strip_prefix pattern s ≡ found
    → length kept ≡ length s
    → length (replaced to found kept) ≡ length s
length-replaced pattern to s kept none same h k = k
length-replaced pattern to s kept (some rest) same h k =
    omega (arith, length-append to rest, length-strip_prefix pattern s rest h)

length-replace_first :
    (pattern to s : List ℕ)
    → length pattern ≡ length to
    → length (replace_first pattern to s) ≡ length s
unfolding replace_first
length-replace_first pattern to [] same = refl
length-replace_first pattern to (c ∷ cs) same =
    length-replaced pattern to (c ∷ cs) (c ∷ replace_first pattern to cs)
      (strip_prefix pattern (c ∷ cs)) same refl (ap suc (length-replace_first pattern to cs same))

-- Every address of the linker has 20 bytes.
abbrev pub IsLinker : List (List ℕ × List ℕ) → Type 0
IsLinker [] = Unit {0}
IsLinker ((lib, address) ∷ linker) = (length address ≡ 20) × IsLinker linker

-- Code has as many characters when it is linked as before, whichever libraries it uses, if its
-- addresses have 20 bytes and a byte is written as two hexadecimal digits.
pub linked-length :
    (encode : List ℕ → List ℕ) (linker : List (List ℕ × List ℕ)) (code out : List ℕ)
    → ((bytes : List ℕ) → length (encode bytes) ≡ 2 * length bytes)
    → IsLinker linker
    → linked encode linker code ≡ done out
    → length out ≡ length code
unfolding linked
linked-length encode [] code out hex twenty h = cc
linked-length encode ((lib, address) ∷ linker) code out hex twenty h =
    let (small, k) = if-else (ltb 38 (utf8_len lib)) (λ e. cc) h in
    linked-length encode linker (replace_first (placeholder lib) (encode address) code) out hex
      twenty.1 k
    ∙ length-replace_first (placeholder lib) (encode address) code
        (length-placeholder lib (ltb-false→le small) ∙ omega (arith, hex address, twenty.0))

strip_prefix_own : (p rest : List ℕ) → strip_prefix p (p ++ rest) ≡ some rest
unfolding strip_prefix
strip_prefix_own [] rest = refl
strip_prefix_own (c ∷ p) rest = ground (arith, strip_prefix_own p rest)

-- No character of the text is the given one.
abbrev pub IsWithout : ℕ → List ℕ → Type 0
IsWithout x [] = Unit {0}
IsWithout x (c ∷ cs) = (c ≢ x) × IsWithout x cs

pub replace_first-placeholder :
    (lib to before rest : List ℕ)
    → IsWithout b'_' before
    → replace_first (placeholder lib) to (before ++ (placeholder lib ++ rest))
      ≡ before ++ (to ++ rest)
unfolding replace_first placeholder strip_prefix
replace_first-placeholder lib to [] rest h =
    rw (strip_prefix_own (lib ++ repeat b'_' (38 - length lib)) rest) refl
replace_first-placeholder lib to (c ∷ before) rest h =
    let other : (b'_' == c) ≡ false = ground (arith, h.0) in
    rw (other, replace_first-placeholder lib to before rest h.1) refl

remove_quotes-without : (s : List ℕ) → IsWithout 34 s → remove_quotes (s ++ 34 ∷ []) ≡ s
unfolding remove_quotes
remove_quotes-without [] h = refl
remove_quotes-without (c ∷ s) h = ground (arith, remove_quotes-without s)

abbrev held : Bool → List ℕ → List ℕ
held true s = b'0' ∷ s
held false s = s

remove_0x-without : (h : Bool) (s : List ℕ) → IsWithout b'x' s → remove_0x h s ≡ held h s
unfolding remove_0x
remove_0x-without true [] w = refl
remove_0x-without false [] w = refl
remove_0x-without true (c ∷ s) w =
    ground (arith, w.0, remove_0x-without true s w.1, remove_0x-without false s w.1)
remove_0x-without false (c ∷ s) w =
    ground (arith, w.0, remove_0x-without true s w.1, remove_0x-without false s w.1)

-- Code that truffle quoted, with the prefix 0x, is read as the code within, if that has no quote and
-- no x.
pub cleaned-quoted :
    (code : List ℕ)
    → IsWithout 34 code
    → IsWithout b'x' code
    → cleaned (34 ∷ b'0' ∷ b'x' ∷ code ++ 34 ∷ []) ≡ code
unfolding cleaned remove_quotes remove_0x
cleaned-quoted code q w = rw (remove_quotes-without code q) (remove_0x-without false code w)
