-- ===== src/Text/Numbers.antt =====
-- Numbers and text, as the C library converts them: `%d`, `%u` and `%lu` of `printf`, `atol` and
-- `atoi`. A signed number of w bits stands for its bit pattern, a number below 2 ^ w.
use rahunas.Prelude.{
  ℕ, zero, suc, ◌+◌, ◌-◌, ◌*◌, ◌/◌, ◌%◌, ◌^◌, Bool, ◌&&◌, ◌||◌, List, [], ◌∷◌, ◌++◌, ltb, leb, ◌==◌,
  if◌then◌else◌,
}

-- The digits of `n`, which `fuel` bounds in number; 20 digits hold any 64-bit value.
unfoldable pub digits : ℕ → ℕ → List ℕ
digits zero n = []
digits (suc fuel) n =
    let rest = digits fuel (n / 10) in
    if ltb n 10 then (b'0' + n) ∷ [] else rest ++ (b'0' + n % 10) ∷ []

-- `%u` and `%lu`.
unfoldable pub show_u : ℕ → List ℕ
unfolding digits
show_u n = digits 20 n

-- `%d` of a 32-bit pattern.
unfoldable pub show_d : ℕ → List ℕ
unfolding show_u
show_d n = if ltb n (2 ^ 31) then show_u n else b'-' ∷ show_u (2 ^ 32 - n)

unfoldable pub is_digit : ℕ → Bool
is_digit c = leb b'0' c && leb c b'9'

unfoldable pub is_space : ℕ → Bool
is_space c = c == b' ' || (leb 9 c && leb c 13)

-- The value of the digits at the front.
unfoldable pub read_digits : ℕ → List ℕ → ℕ
unfolding is_digit
read_digits n [] = n
read_digits n (c ∷ cs) =
    let more = read_digits (10 * n + (c - b'0')) cs in if is_digit c then more else n

unfoldable pub skip_spaces : List ℕ → List ℕ
unfolding is_space
skip_spaces [] = []
skip_spaces (c ∷ cs) = let rest = skip_spaces cs in if is_space c then rest else c ∷ cs

-- An optional sign, then digits; the value saturates at the ends of the 64-bit range.
unfoldable pub read_signed : List ℕ → ℕ
unfolding read_digits
read_signed [] = 0
read_signed (c ∷ cs) =
    if c == b'-'
    then (let n = read_digits 0 cs in if leb n (2 ^ 63) then (2 ^ 64 - n) % 2 ^ 64 else 2 ^ 63)
    else if c == b'+'
    then (let n = read_digits 0 cs in if ltb n (2 ^ 63) then n else 2 ^ 63 - 1)
    else (let n = read_digits 0 (c ∷ cs) in if ltb n (2 ^ 63) then n else 2 ^ 63 - 1)

-- A 64-bit pattern.
unfoldable pub atol : List ℕ → ℕ
unfolding read_signed skip_spaces
atol s = read_signed (skip_spaces s)

-- The low half of `atol`, a 32-bit pattern.
unfoldable pub atoi : List ℕ → ℕ
unfolding atol
atoi s = atol s % 2 ^ 32
