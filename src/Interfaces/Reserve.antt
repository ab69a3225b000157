-- ===== src/Interfaces/Reserve.antt =====
-- Which ifb device is reserved.
use rahunas.Interfaces.{
  Reservation, device, undefined, reserve_loop, ifb_interface_reserve, without_bit,
}
use rahunas.Prelude.{
  ℕ, zero, suc, sym, ◌∙◌, ◌≢◌, ◌+◌, ◌*◌, ◌/◌, ◌%◌, ◌≤◌, ◌<◌, ◌≡◌, refl, true, false, arith, leb,
  ◌==◌, Bool-cases, inl, inr,
}
use rahunas.Session.Slots.{has_bit, with_bit}

-- The device that a reservation gives: the lowest that was free, which is then marked.
pub record Lowest (ifb_reserved : ℕ) (r : Reservation) : Type 0 where
  pub number : ℕ
  pub small : number < 31
  pub given : r ≡ device number (with_bit ifb_reserved number)
  pub free : has_bit ifb_reserved number ≡ false
  pub lower : (k : ℕ) → k < number → has_bit ifb_reserved k ≡ true

reserve_loop-Lowest :
    (left i j ifb_reserved : ℕ)
    → i ≤ j
    → j < 31
    → j < i + left
    → ((k : ℕ) → k < i → has_bit ifb_reserved k ≡ true)
    → has_bit ifb_reserved j ≡ false
    → Lowest ifb_reserved (reserve_loop left i ifb_reserved)
unfolding reserve_loop
reserve_loop-Lowest zero i j r le small room lower free = absurd (omega arith)
reserve_loop-Lowest (suc left) i j r le small room lower free =
    let defined : leb 31 i ≡ false = ground arith in
    elim (Bool-cases (has_bit r i)) [
      | inl taken ↦
          let ne : i ≢ j = λ e. let both : true ≡ false = sym (rw e at taken) ∙ free in absurd cc in
          rw (defined, taken)
            (reserve_loop-Lowest left (suc i) j r (omega arith) small (omega arith)
              (λ k lt. elim (Bool-cases (k == i)) [
                | inl same ↦ let k_i : k ≡ i = ground arith in rw k_i taken
                | inr other ↦ lower k (ground arith)
              ])
              free)
      | inr hit ↦
          rw (defined, hit)
            (record { number = i; small = omega arith; given = refl; free = hit; lower = lower })
    ]

-- While one of the first 31 devices is free, the reservation gives the lowest free one and marks
-- it.
pub ifb_interface_reserve-Lowest :
    (j ifb_reserved : ℕ)
    → j < 31
    → has_bit ifb_reserved j ≡ false
    → Lowest ifb_reserved (ifb_interface_reserve ifb_reserved)
unfolding ifb_interface_reserve
ifb_interface_reserve-Lowest j r small free =
    reserve_loop-Lowest 64 0 j r (omega arith) small (omega arith) (λ k lt. absurd (omega arith))
      free

reserve_loop-undefined :
    (left i ifb_reserved : ℕ)
    → i ≤ 31
    → 31 < i + left
    → ((k : ℕ) → k < 31 → has_bit ifb_reserved k ≡ true)
    → reserve_loop left i ifb_reserved ≡ undefined
unfolding reserve_loop
reserve_loop-undefined zero i r le room taken = absurd (omega arith)
reserve_loop-undefined (suc left) i r le room taken = elim (Bool-cases (leb 31 i)) [
  | inl last ↦ rw last refl
  | inr before ↦
      rw (before, taken i (ground arith))
        (reserve_loop-undefined left (suc i) r (ground arith) (omega arith) taken)
]

-- With the first 31 devices taken, what the reservation does is undefined.
pub ifb_interface_reserve-undefined :
    (ifb_reserved : ℕ)
    → ((k : ℕ) → k < 31 → has_bit ifb_reserved k ≡ true)
    → ifb_interface_reserve ifb_reserved ≡ undefined
unfolding ifb_interface_reserve
ifb_interface_reserve-undefined r taken =
    reserve_loop-undefined 64 0 r (omega arith) (omega arith) taken

-- Releasing a device that was free when it was marked gives the mask back.
pub without_bit-with_bit : (x k : ℕ) → has_bit x k ≡ false → without_bit (with_bit x k) k ≡ x
unfolding without_bit with_bit has_bit
without_bit-with_bit x zero free = ground arith
without_bit-with_bit x (suc k) free =
    let half : (2 * with_bit (x / 2) k + x % 2) / 2 ≡ with_bit (x / 2) k = omega arith in
    let low : (2 * with_bit (x / 2) k + x % 2) % 2 ≡ x % 2 = omega arith in
    rw (half, low) (omega (arith, without_bit-with_bit (x / 2) k free))
