-- ===== src/Utils/Ip.antt =====
-- `iptoid` and `idtoip` of src/rh-utils.c. `inet_aton` and `inet_ntoa` are parameters, on addresses
-- in host order. A `uint32_t` is a number below 2 ^ 32, and -1 as one is 2 ^ 32 - 1.
pub mod RoundTrip
use rahunas.Prelude.{ℕ, ◌+◌, ◌-◌, ◌%◌, ◌^◌, [], Option, none, some, ltb, if◌then◌else◌}
use rahunas.Member.{VMap}
use rahunas.Text.{Bytes}

abbrev pub invalid_id : ℕ
invalid_id = 2 ^ 32 - 1

-- `ret < 0` is never true of a `uint32_t`.
unfoldable pub iptoid : (Bytes → Option ℕ) → Option VMap → Option Bytes → ℕ
iptoid inet_aton none ip = invalid_id
iptoid inet_aton (some vmap) none = invalid_id
iptoid inet_aton (some vmap) (some ip) = elim (inet_aton ip) [
  | none ↦ invalid_id
  | some req_ip ↦
      let ret = (req_ip + 2 ^ 32 - vmap.first_ip) % 2 ^ 32 in
      if ltb ((vmap.size + 2 ^ 32 - 1) % 2 ^ 32) ret then invalid_id else ret
]

-- `id < 0` is never true; `termstring` is the empty text.
unfoldable pub idtoip : (ℕ → Bytes) → Option VMap → ℕ → Bytes
idtoip inet_ntoa none id = []
idtoip inet_ntoa (some vmap) id = inet_ntoa ((vmap.first_ip + id) % 2 ^ 32)
