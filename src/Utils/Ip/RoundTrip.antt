-- ===== src/Utils/Ip/RoundTrip.antt =====
-- Addresses and identifiers correspond within the range of a virtual server.
use rahunas.Prelude.{ℕ, ◌+◌, ◌-◌, ◌≤◌, ◌<◌, ◌%◌, ◌^◌, ◌≡◌, ◌⊎◌, Option, some, arith}
use rahunas.Member.{VMap}
use rahunas.Text.{Bytes}
use rahunas.Utils.Ip.{iptoid, idtoip, invalid_id}

-- The documented behaviour of `inet_aton` and `inet_ntoa`: an address is a 32-bit number, and
-- what the second prints the first reads back.
pub record InetLaws (inet_aton : Bytes → Option ℕ) (inet_ntoa : ℕ → Bytes) : Type 0 where
  pub aton_lt : (s : Bytes) (n : ℕ) → inet_aton s ≡ some n → n < 2 ^ 32
  pub aton-ntoa : (n : ℕ) → n < 2 ^ 32 → inet_aton (inet_ntoa n) ≡ some n

-- What `get_header_from_set` stores: the range of addresses and their number.
pub record IsRange (vmap : VMap) : Type 0 where
  pub last_lt : vmap.last_ip < 2 ^ 32
  pub ordered : vmap.first_ip ≤ vmap.last_ip
  pub counted : vmap.size ≡ (vmap.last_ip - vmap.first_ip + 1) % 2 ^ 32

module _ (inet_aton : Bytes → Option ℕ) (inet_ntoa : ℕ → Bytes)
    (laws : InetLaws inet_aton inet_ntoa) (vmap : VMap) (range : IsRange vmap) where
  -- The address of an identifier below the size of the range has that identifier.
  pub iptoid-idtoip :
      (id : ℕ)
      → id < vmap.size
      → iptoid inet_aton (some vmap) (some (idtoip inet_ntoa (some vmap) id)) ≡ id
  unfolding iptoid idtoip
  iptoid-idtoip id h =
      let low : (vmap.first_ip + id) % 2 ^ 32 ≡ vmap.first_ip + id = omega arith in
      rw (low, laws.aton-ntoa (vmap.first_ip + id) (omega arith), iptoid) (ground arith)

  -- The identifier of an address in the range is its distance from the first, and the address is that
  -- of the identifier; an address outside the range gets 2 ^ 32 - 1.
  pub iptoid_cases :
      (ip : Bytes) (n : ℕ)
      → inet_aton ip ≡ some n
      → (vmap.first_ip ≤ n)
          × (n ≤ vmap.last_ip)
          × (iptoid inet_aton (some vmap) (some ip) ≡ n - vmap.first_ip)
          × (idtoip inet_ntoa (some vmap) (n - vmap.first_ip) ≡ inet_ntoa n)
        ⊎ (((n < vmap.first_ip) ⊎ (vmap.last_ip < n))
            × (iptoid inet_aton (some vmap) (some ip) ≡ invalid_id))
  unfolding iptoid idtoip
  iptoid_cases ip n e = ground (arith, laws.aton_lt ip n e)
