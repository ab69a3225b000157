-- ===== src/Mac.antt =====
-- `parse_mac` and `mac_tostring` of src/rh-ipset.c. A hardware address is a list of six bytes.
pub mod RoundTrip
use rahunas.Prelude.{
  ℕ, zero, suc, ◌+◌, ◌-◌, ◌*◌, ◌/◌, ◌%◌, Bool, true, false, not, ◌&&◌, ◌||◌, List, [], ◌∷◌, ◌++◌,
  length, take, drop, ltb, leb, ◌==◌, if◌then◌else◌,
}
use rahunas.Text.{Bytes, is_space}

hex_digit : ℕ → ℕ
hex_digit n = if ltb n 10 then b'0' + n else b'A' + (n - 10)

-- `%02X` of a byte.
pub hex2 : ℕ → Bytes
unfolding hex_digit
hex2 b = hex_digit (b / 16) ∷ hex_digit (b % 16) ∷ []

-- The bytes with a colon between them.
pub colons : Bytes → Bytes
unfolding hex2
colons [] = []
colons (b ∷ []) = hex2 b
colons (b ∷ c ∷ bs) = hex2 b ++ (b':' ∷ colons (c ∷ bs))

unfoldable pub mac_tostring : Bytes → Bytes
unfolding colons
mac_tostring macaddress = take 17 (colons macaddress)

-- What `strtol` with base 16 reads: a sign, a magnitude, and the number of bytes up to `end`.
pub record Strtol : Type 0 where
  pub negative : Bool
  pub magnitude : ℕ
  pub consumed : ℕ

-- 16 is no digit.
pub hex_value : ℕ → ℕ
hex_value c =
    if leb b'0' c && leb c b'9'
    then c - b'0'
    else if leb b'A' c && leb c b'F'
    then c - b'A' + 10
    else if leb b'a' c && leb c b'f'
    then c - b'a' + 10
    else 16

-- The digits at the front, behind `seen` of them with the value `n`: value and number of digits.
pub hex_digits : ℕ → ℕ → Bytes → ℕ × ℕ
unfolding hex_value
hex_digits n seen [] = (n, seen)
hex_digits n seen (c ∷ cs) =
    let more = hex_digits (16 * n + hex_value c) (suc seen) cs in
    if ltb (hex_value c) 16 then more else (n, seen)

-- The digits behind `skipped` bytes of spaces and sign. With none of them, nothing is read.
pub strtol_digits : Bool → ℕ → Bytes → Strtol
unfolding hex_digits
strtol_digits negative skipped s =
    let (n, seen) = hex_digits 0 0 s in
    record {
      negative = negative;
      magnitude = n;
      consumed = if seen == 0 then 0 else skipped + seen;
    }

-- `0x` or `0X` in front of a digit is part of the number.
pub strtol_prefix : Bool → ℕ → Bytes → Strtol
unfolding strtol_digits
strtol_prefix negative skipped (z ∷ x ∷ d ∷ cs) =
    if z == b'0' && (x == b'x' || x == b'X') && ltb (hex_value d) 16
    then strtol_digits negative (skipped + 2) (d ∷ cs)
    else strtol_digits negative skipped (z ∷ x ∷ d ∷ cs)
strtol_prefix negative skipped s = strtol_digits negative skipped s

pub strtol_sign : ℕ → Bytes → Strtol
unfolding strtol_prefix
strtol_sign skipped [] = strtol_prefix false skipped []
strtol_sign skipped (c ∷ cs) =
    if c == b'-'
    then strtol_prefix true (suc skipped) cs
    else if c == b'+'
    then strtol_prefix false (suc skipped) cs
    else strtol_prefix false skipped (c ∷ cs)

pub strtol16 : ℕ → Bytes → Strtol
unfolding strtol_sign
strtol16 skipped [] = strtol_sign skipped []
strtol16 skipped (c ∷ cs) =
    let rest = strtol16 (suc skipped) cs in
    if is_space c then rest else strtol_sign skipped (c ∷ cs)

-- `end == mac + i * 3 + 2 && number >= 0 && number <= 255`.
pub accepted : Strtol → Bool
accepted r = r.consumed == 2 && (not r.negative || r.magnitude == 0) && leb r.magnitude 255

-- The loop over the bytes of the address that are left, at the text from `mac + i * 3` on. It
-- leaves the bytes from the first refused one on as they were.
pub parse_mac_loop : Bytes → Bytes → Bytes
parse_mac_loop mac [] = []
parse_mac_loop mac (b ∷ ethernet) =
    let r = strtol16 0 mac in
    let rest = parse_mac_loop (drop 3 mac) ethernet in
    if accepted r then r.magnitude ∷ rest else b ∷ ethernet

unfoldable pub parse_mac : Bytes → Bytes → Bytes
unfolding parse_mac_loop strtol16 accepted
parse_mac mac ethernet = if length mac == 17 then parse_mac_loop mac ethernet else ethernet
