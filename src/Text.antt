-- ===== src/Text.antt =====
-- C strings as lists of bytes without the closing NUL, and what the code uses of the C library on
-- them: `strcmp` and `strncmp` as tests for equality, decimal printing, `atoi` and `atol`.
mod Numbers
unfoldable pub use Numbers.*
use Prim.Native.Char.{code}
use Prim.Native.String.{String}
use rahunas.Prelude.{
  ℕ, zero, suc, ◌≡◌, refl, ap, ◌↔◌, Bool, true, false, ◌&&◌, List, [], ◌∷◌, Option, none, some,
  arith, ◌==◌, ==_refl,
}

abbrev pub Bytes : Type 0
Bytes = List ℕ

-- The code points of a literal, which are its bytes where it is ASCII.
abbrev pub codes : String → Bytes
codes String.[] = []
codes (String.◌∷◌ c s) = code c ∷ codes s

-- `strcmp(a, b) == 0`.
unfoldable pub strcmp_eq : Bytes → Bytes → Bool
strcmp_eq [] [] = true
strcmp_eq (x ∷ xs) (y ∷ ys) = x == y && strcmp_eq xs ys
strcmp_eq _ _ = false

-- `strncmp(a, b, n) == 0`.
unfoldable pub strncmp_eq : Bytes → Bytes → ℕ → Bool
strncmp_eq a b zero = true
strncmp_eq [] [] (suc n) = true
strncmp_eq (x ∷ xs) (y ∷ ys) (suc n) = x == y && strncmp_eq xs ys n
strncmp_eq _ _ (suc n) = false

pub strcmp_eq_refl : (a : Bytes) → strcmp_eq a a ≡ true
unfolding strcmp_eq
strcmp_eq_refl [] = refl
strcmp_eq_refl (x ∷ xs) = ground (arith, strcmp_eq_refl xs)

pub eq_of_strcmp_eq : (a b : Bytes) → strcmp_eq a b ≡ true → a ≡ b
unfolding strcmp_eq
eq_of_strcmp_eq [] [] h = refl
eq_of_strcmp_eq (x ∷ xs) (y ∷ ys) h = ground (arith, eq_of_strcmp_eq xs ys)
eq_of_strcmp_eq [] (y ∷ ys) h = cc
eq_of_strcmp_eq (x ∷ xs) [] h = cc
