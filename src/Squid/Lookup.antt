-- ===== src/Squid/Lookup.antt =====
-- Which virtual server an address belongs to.
use native.Mathlib.Nat.{mod-lt, mod-le, one-le-pow, add-mod, mod-eq_of_lt}
use rahunas.Prelude.{
  ℕ, ◌+◌, ◌-◌, ◌%◌, ◌^◌, ◌<◌, ◌≤◌, ◌≡◌, refl, ap, ◌∙◌, Bool, false, not, ◌&&◌, ◌||◌, List, [], ◌∷◌,
  some, arith, All, ltb, ◌==◌, if◌then◌else◌, Bool-cases, inl, inr,
}
use rahunas.Squid.{VserverInfo, no_vserver, in_network, find_vserver}

-- Clearing the low bits of an address, by its rest.
in_block :
    (p n src r : ℕ)
    → r < p
    → (n ≤ src → src < n + p → r ≡ src - n)
    → r ≤ src
    → (src - r == n) ≡ (not (ltb src n) && ltb src (n + p))
in_block p n src r small rest below = elim (Bool-cases (ltb src n)) [
  | inl before ↦ ground arith
  | inr from ↦ elim (Bool-cases (ltb src (n + p))) [
    | inl inside ↦ let e : r ≡ src - n = rest (ground arith) (ground arith) in ground arith
    | inr behind ↦ ground arith
  ]
]

rest_in_block : (p n src : ℕ) → n % p ≡ 0 → n ≤ src → src < n + p → src % p ≡ src - n
rest_in_block p n src aligned from inside =
    let e : src ≡ n + (src - n) = omega arith in
    let small : (src - n) < p = omega arith in
    ap (λ x. x % p) e
    ∙ (add-mod n (src - n) p
        ∙ rw (aligned, mod-eq_of_lt small)
            (let zero_add : 0 + (src - n) ≡ src - n = omega arith in
              ap (λ x. x % p) zero_add ∙ mod-eq_of_lt small))

-- A network of a length that can be shifted by, whose address has no bits behind it.
pub record IsNetwork (info : VserverInfo) : Type 0 where
  pub some_length : 0 < info.mask
  pub fits : info.mask ≤ 32
  pub aligned : info.net_ip % 2 ^ (32 - info.mask) ≡ 0

-- From the address of the network, as many addresses as it has.
unfoldable pub covers : VserverInfo → ℕ → Bool
covers info src_ip = not (ltb src_ip info.net_ip) && ltb src_ip (info.net_ip + 2 ^ (32 - info.mask))

unfoldable pub first_containing : ℕ → List VserverInfo → ℕ
unfolding covers
first_containing src_ip [] = no_vserver
first_containing src_ip (info ∷ vs) =
    if covers info src_ip then info.id else first_containing src_ip vs

pub in_network-covers :
    (src_ip : ℕ) (info : VserverInfo)
    → IsNetwork info
    → in_network src_ip info ≡ some (covers info src_ip)
unfolding in_network covers
in_network-covers src_ip info w =
    let shiftable : (info.mask == 0 || ltb 32 info.mask) ≡ false =
      let a = w.some_length in let b = w.fits in ground arith in
    let size = 2 ^ (32 - info.mask) in
    let some_size : 0 < size = one-le-pow (32 - info.mask) 2 (omega arith) in
    rw shiftable (
      ap some (
        in_block size info.net_ip src_ip (src_ip % size) (mod-lt src_ip some_size)
          (rest_in_block size info.net_ip src_ip w.aligned) (mod-le src_ip size)))

-- For networks that can be shifted by and have no bits behind their length, the walk finds the first
-- whose range holds the address.
pub find_vserver-first_containing :
    (src_ip : ℕ) (vservers : List VserverInfo)
    → All IsNetwork vservers
    → find_vserver src_ip vservers ≡ some (first_containing src_ip vservers)
unfolding find_vserver first_containing
find_vserver-first_containing src_ip [] all = refl
find_vserver-first_containing src_ip (info ∷ vs) (w, all) =
    let rest = find_vserver-first_containing src_ip vs all in
    elim (Bool-cases (covers info src_ip)) [
      | inl hit ↦ rw (in_network-covers src_ip info w, find_vserver, hit) refl
      | inr miss ↦ rw (in_network-covers src_ip info w, find_vserver, miss) rest
    ]
