-- ===== src/Mac/RoundTrip.antt =====
-- A printed hardware address is read back.
use rahunas.Mac.{hex2, colons, mac_tostring, strtol16, accepted, parse_mac_loop, parse_mac}
use rahunas.Prelude.{
  passes, passes_lem, ℕ, ◌<◌, ◌≡◌, refl, ap, Bool, true, false, ◌&&◌, [], ◌∷◌, ◌++◌, arith, length,
  drop, ◌==◌, ==_iff, All,
}
use rahunas.Text.{Bytes, is_space}

-- Two printed digits at the front of a text that goes on with a colon, or ends, are read.
reads_last : ℕ → Bool
unfolding hex2 strtol16 accepted is_space
reads_last b = let r = strtol16 0 (hex2 b) in accepted r && r.magnitude == b

reads_last_table : passes reads_last 256 ≡ true
unfolding passes reads_last
reads_last_table = refl

strtol16-colon :
    (b : ℕ) (rest : Bytes)
    → strtol16 0 (hex2 b ++ (b':' ∷ rest)) ≡ strtol16 0 (hex2 b ++ (b':' ∷ []))
unfolding strtol16 hex2 is_space
strtol16-colon b rest = ground arith

reads_more : ℕ → Bool
unfolding hex2 strtol16 accepted is_space
reads_more b = let r = strtol16 0 (hex2 b ++ (b':' ∷ [])) in accepted r && r.magnitude == b

reads_more_table : passes reads_more 256 ≡ true
unfolding passes reads_more
reads_more_table = refl

both_iff : (p q : Bool) → (p && q) ≡ true → (p ≡ true) × (q ≡ true)
both_iff true true h = (refl, refl)
both_iff true false h = cc
both_iff false q h = cc

read_last :
    (b : ℕ)
    → b < 256
    → (accepted (strtol16 0 (hex2 b)) ≡ true) × ((strtol16 0 (hex2 b)).magnitude ≡ b)
unfolding reads_last
read_last b h =
    let (ok, same) = both_iff _ _ (passes_lem reads_last 256 b h reads_last_table) in
    (ok, (==_iff _ b).0 same)

read_more :
    (b : ℕ) (rest : Bytes)
    → b < 256
    → (accepted (strtol16 0 (hex2 b ++ (b':' ∷ rest))) ≡ true)
      × ((strtol16 0 (hex2 b ++ (b':' ∷ rest))).magnitude ≡ b)
unfolding reads_more
read_more b rest h =
    let (ok, same) = both_iff _ _ (passes_lem reads_more 256 b h reads_more_table) in
    rw (strtol16-colon b rest) (ok, (==_iff _ b).0 same)

abbrev pub IsMac : Bytes → Type 0
IsMac m = All (λ b. b < 256) m

drop-hex2 : (b : ℕ) (rest : Bytes) → drop 3 (hex2 b ++ (b':' ∷ rest)) ≡ rest
unfolding hex2
drop-hex2 b rest = refl

parse_mac_loop-colons :
    (m e : Bytes) → IsMac m → length e ≡ length m → parse_mac_loop (colons m) e ≡ m
unfolding parse_mac_loop colons
parse_mac_loop-colons [] [] h l = refl
parse_mac_loop-colons [] (x ∷ e) h l = absurd (omega arith)
parse_mac_loop-colons (b ∷ m) [] h l = absurd (omega arith)
parse_mac_loop-colons (b ∷ []) (x ∷ []) h l = rw ((read_last b h.0).0, (read_last b h.0).1)
parse_mac_loop-colons (b ∷ []) (x ∷ y ∷ e) h l = absurd (omega arith)
parse_mac_loop-colons (b ∷ c ∷ m) (x ∷ e) h l =
    let (ok, same) = read_more b (colons (c ∷ m)) h.0 in
    rw (ok, same, drop-hex2 b (colons (c ∷ m)))
      (ap (◌∷◌ b) (parse_mac_loop-colons (c ∷ m) e h.1 (omega arith)))

mac_tostring-colons :
    (a b c d e f : ℕ)
    → (mac_tostring (a ∷ b ∷ c ∷ d ∷ e ∷ f ∷ []) ≡ colons (a ∷ b ∷ c ∷ d ∷ e ∷ f ∷ []))
      × (length (colons (a ∷ b ∷ c ∷ d ∷ e ∷ f ∷ [])) ≡ 17)
unfolding mac_tostring
mac_tostring-colons a b c d e f = (refl, refl)

-- The text that `mac_tostring` prints of six bytes is read back to those bytes by `parse_mac`,
-- whatever the six bytes were that it overwrites.
pub parse_mac-mac_tostring :
    (a b c d e f : ℕ) (ethernet : Bytes)
    → IsMac (a ∷ b ∷ c ∷ d ∷ e ∷ f ∷ [])
    → length ethernet ≡ 6
    → parse_mac (mac_tostring (a ∷ b ∷ c ∷ d ∷ e ∷ f ∷ [])) ethernet ≡ a ∷ b ∷ c ∷ d ∷ e ∷ f ∷ []
parse_mac-mac_tostring a b c d e f ethernet h l =
    let (printed, long) = mac_tostring-colons a b c d e f in
    rw printed (unfold parse_mac in rw (long) (parse_mac_loop-colons _ ethernet h l))
