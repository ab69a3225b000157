-- ===== src/Interfaces.antt =====
-- The list of internal interfaces and the reservation of their ifb devices: `append_interface`,
-- `remove_interface`, `get_interface`, `ifb_interface_reserve` and `ifb_interface_release` of
-- src/rh-config.c. A name is shorter than 32 characters, as the kernel's are, so that `strncpy` closes
-- it.
pub mod Reserve
pub mod RoundTrip
use rahunas.Prelude.{
  ℕ, zero, suc, ◌+◌, ◌-◌, ◌*◌, ◌/◌, ◌%◌, List, [], ◌∷◌, ◌++◌, Option, none, some, leb, ◌==◌,
  if◌then◌else◌, length, take, drop, ◌>>=◌, Bool,
}
use rahunas.Session.Slots.{has_bit, with_bit}
use rahunas.Text.{Bytes, codes, strncmp_eq, show_d, atoi}

-- `hit` counts the users of an interface, and is never negative here.
pub record Interface : Type 0 where
  pub dev_internal : Bytes
  pub dev_ifb : Bytes
  pub hit : ℕ
  pub init : ℕ

-- `x & ~(1 << k)`, by the binary digits.
unfoldable pub without_bit : ℕ → ℕ → ℕ
without_bit x zero = if x % 2 == 1 then x - 1 else x
without_bit x (suc k) = 2 * without_bit (x / 2) k + x % 2

-- What the reservation returns: the number of a device with the new mask, -1, or nothing that C
-- defines, since `1 << i` is a shift of an `int`.
pub data Reservation : Type 0 where
  device : ℕ → ℕ → Reservation
  no_device : Reservation
  undefined : Reservation

-- From device `i` on; the first argument is how many are left.
unfoldable pub reserve_loop : ℕ → ℕ → ℕ → Reservation
unfolding has_bit with_bit
reserve_loop zero i ifb_reserved = no_device
reserve_loop (suc left) i ifb_reserved =
    let next = reserve_loop left (suc i) ifb_reserved in
    if leb 31 i
    then undefined
    else if has_bit ifb_reserved i
    then next
    else device i (with_bit ifb_reserved i)

unfoldable pub ifb_interface_reserve : ℕ → Reservation
unfolding reserve_loop
ifb_interface_reserve ifb_reserved = reserve_loop 64 0 ifb_reserved

unfoldable pub ifb_interface_release : ℕ → ℕ → ℕ
unfolding without_bit
ifb_interface_release ifno ifb_reserved = without_bit ifb_reserved ifno

-- `strncmp(iface->dev_internal, inf_name, strlen(inf_name)) == 0`.
abbrev pub is_named : Bytes → Interface → Bool
is_named inf_name iface = strncmp_eq iface.dev_internal inf_name (length inf_name)

unfoldable pub get_interface : List Interface → Option Bytes → Option Interface
get_interface inf none = none
get_interface [] (some inf_name) = none
get_interface (x ∷ xs) (some inf_name) =
    let rest = get_interface xs (some inf_name) in if is_named inf_name x then some x else rest

-- `(iface->hit)++` of the first that has the name.
unfoldable pub hit_first : Bytes → List Interface → List Interface
hit_first inf_name [] = []
hit_first inf_name (x ∷ xs) =
    let rest = hit_first inf_name xs in
    if is_named inf_name x then record x { hit = x.hit + 1 } ∷ xs else x ∷ rest

unfoldable pub new_interface : Bytes → ℕ → Interface
new_interface inf_name ifno = record {
  dev_internal = take 32 inf_name;
  dev_ifb = take 31 (codes "ifb" ++ show_d ifno);
  hit = 1;
  init = 0;
}

-- The list and the mask; `none` where the shift is undefined.
unfoldable pub append_reserved :
    List Interface → Bytes → ℕ → Reservation → Option (List Interface × ℕ)
unfolding new_interface
append_reserved inf inf_name ifb_reserved (device ifno mask) =
    some (inf ++ (new_interface inf_name ifno ∷ []), mask)
append_reserved inf inf_name ifb_reserved no_device = some (inf, ifb_reserved)
append_reserved inf inf_name ifb_reserved undefined = none

unfoldable pub append_interface : List Interface → Option Bytes → ℕ → Option (List Interface × ℕ)
unfolding append_reserved hit_first
append_interface inf none ifb_reserved = some (inf, ifb_reserved)
append_interface inf (some inf_name) ifb_reserved = elim (get_interface inf (some inf_name)) [
  | none ↦ append_reserved inf inf_name ifb_reserved (ifb_interface_reserve ifb_reserved)
  | some iface ↦ some (hit_first inf_name inf, ifb_reserved)
]

-- `sscanf(iface->dev_ifb, "ifb%d", &ifb_ifno)` on a text that `append_interface` has printed.
unfoldable pub ifb_ifno : Interface → ℕ
ifb_ifno iface = atoi (drop 3 iface.dev_ifb)

-- The walk goes on behind an interface that has other users.
unfoldable pub remove_loop : Bytes → List Interface → ℕ → List Interface × ℕ
unfolding ifb_ifno ifb_interface_release
remove_loop inf_name [] ifb_reserved = ([], ifb_reserved)
remove_loop inf_name (x ∷ xs) ifb_reserved =
    let rest = remove_loop inf_name xs ifb_reserved in
    if is_named inf_name x
    then (if leb x.hit 1
        then (xs, ifb_interface_release (ifb_ifno x) ifb_reserved)
        else (record x { hit = x.hit - 1 } ∷ rest.0, rest.1))
    else (x ∷ rest.0, rest.1)

unfoldable pub remove_interface : List Interface → Option Bytes → ℕ → List Interface × ℕ
unfolding remove_loop
remove_interface inf none ifb_reserved = (inf, ifb_reserved)
remove_interface inf (some inf_name) ifb_reserved = remove_loop inf_name inf ifb_reserved
