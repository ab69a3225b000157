-- ===== src/Session/Slots/Bounds.antt =====
-- Drawn slots are in the array, free, and not 0; a reserved slot is never drawn again.
use rahunas.Prelude.{
  ℕ, zero, suc, ◌+◌, ◌*◌, ◌/◌, ◌%◌, ◌^◌, ◌≤◌, ◌<◌, ◌≡◌, refl, ◌≢◌, ap, true, false, List, [], ◌∷◌,
  some, arith, length, ◌==◌, Bool-cases, inl, inr, ◌⊎◌, leb, if◌then◌else◌,
}
use rahunas.Host.{Host, Event, clock, draw}
use rahunas.Session.{Sess, ask}
use rahunas.Session.Slots.{
  has_bit, with_bit, page_at, mark_page, is_reserved, drawn_slot, draw_loop, get_slot_id,
  mark_reserved_slot_id, page_size, max_slot_page, max_slot_id,
}

-- Where `random` keeps to its range, a slot's page is one of the array.
pub drawn_slot-page : (r : ℕ) → r < 2 ^ 31 → drawn_slot r / page_size < max_slot_page
unfolding drawn_slot
drawn_slot-page r h = omega arith

has_bit-with_bit : (x k : ℕ) → has_bit (with_bit x k) k ≡ true
unfolding has_bit with_bit
has_bit-with_bit x zero = ground arith
has_bit-with_bit x (suc k) =
    let half : (2 * with_bit (x / 2) k + x % 2) / 2 ≡ with_bit (x / 2) k = omega arith in
    rw half (has_bit-with_bit (x / 2) k)

has_bit-with_bit_ne : (x j k : ℕ) → j ≢ k → has_bit (with_bit x k) j ≡ has_bit x j
unfolding has_bit with_bit
has_bit-with_bit_ne x zero zero ne = absurd (ne refl)
has_bit-with_bit_ne x zero (suc k) ne = ground arith
has_bit-with_bit_ne x (suc j) zero ne =
    let half : (if x % 2 == 1 then x else x + 1) / 2 ≡ x / 2 = ground arith in rw half
has_bit-with_bit_ne x (suc j) (suc k) ne =
    let half : (2 * with_bit (x / 2) k + x % 2) / 2 ≡ with_bit (x / 2) k = omega arith in
    rw half (has_bit-with_bit_ne (x / 2) j k (λ e. ne (ap suc e)))

page_at-mark_page :
    (pages : List ℕ) (i j k : ℕ)
    → i < length pages
    → page_at (mark_page pages i k) j
      ≡ (if i == j then with_bit (page_at pages j) k else page_at pages j)
unfolding page_at mark_page
page_at-mark_page [] i j k h = absurd (omega arith)
page_at-mark_page (x ∷ xs) zero zero k h = ground arith
page_at-mark_page (x ∷ xs) zero (suc j) k h = ground arith
page_at-mark_page (x ∷ xs) (suc i) zero k h = ground arith
page_at-mark_page (x ∷ xs) (suc i) (suc j) k h = ground (arith, page_at-mark_page xs i j k)

-- Marking a slot of the array reserves that slot and leaves every other slot as it was.
pub is_reserved-mark_reserved_slot_id :
    (slot_id j : ℕ) (s : Sess)
    → slot_id / page_size < length s.slot_flags
    → is_reserved (mark_reserved_slot_id slot_id s).slot_flags j
      ≡ (if slot_id == j then true else is_reserved s.slot_flags j)
unfolding mark_reserved_slot_id is_reserved
is_reserved-mark_reserved_slot_id slot_id j s h =
    rw (page_at-mark_page s.slot_flags (slot_id / 16) (j / 16) (slot_id % 16) h) (
      ground (
        arith,
        has_bit-with_bit (page_at s.slot_flags (j / 16)) (slot_id % 16),
        has_bit-with_bit_ne (page_at s.slot_flags (j / 16)) (j % 16) (slot_id % 16),
      ))

draw_loop-free :
    (h : Host) (fuel : ℕ) (s t : Sess) (slot_id : ℕ)
    → draw_loop h fuel s ≡ some (slot_id, t)
    → (is_reserved s.slot_flags slot_id ≡ false)
      × (t.slot_flags ≡ s.slot_flags)
      × (t.slot_count ≡ s.slot_count)
unfolding draw_loop
draw_loop-free h zero s t slot_id e = cc
draw_loop-free h (suc fuel) s t slot_id e =
    ground (arith, draw_loop-free h fuel (ask draw (ask clock s)) t slot_id)

-- A slot that `_get_slot_id` returns is 0, and then 9900 or more slots are counted, or it is not
-- reserved, so it is not 0 while slot 0 is reserved. The flags and the count are left alone.
pub get_slot_id-free :
    (h : Host) (fuel : ℕ) (s t : Sess) (slot_id : ℕ)
    → is_reserved s.slot_flags 0 ≡ true
    → get_slot_id h fuel s ≡ some (slot_id, t)
    → (((slot_id ≡ 0) × (max_slot_id ≤ s.slot_count))
        ⊎ ((slot_id ≢ 0) × (is_reserved s.slot_flags slot_id ≡ false)))
      × (t.slot_flags ≡ s.slot_flags)
      × (t.slot_count ≡ s.slot_count)
unfolding get_slot_id
get_slot_id-free h fuel s t slot_id zero_reserved e =
    elim (Bool-cases (leb max_slot_id s.slot_count)) [
      | inl full ↦ (inl (ground arith), ground arith, ground arith)
      | inr room ↦
          let (free, flags, count) = draw_loop-free h fuel s t slot_id (rw room at e) in
          (inr (λ z. cc, free), flags, count)
    ]

pub get_slot_id-flags :
    (h : Host) (fuel : ℕ) (s t : Sess) (slot_id : ℕ)
    → get_slot_id h fuel s ≡ some (slot_id, t)
    → t.slot_flags ≡ s.slot_flags
unfolding get_slot_id
get_slot_id-flags h fuel s t slot_id e = elim (Bool-cases (leb max_slot_id s.slot_count)) [
  | inl full ↦ ground arith
  | inr room ↦ (draw_loop-free h fuel s t slot_id (rw room at e)).1
]

-- The history after so many draws.
pub draws : ℕ → List Event → List Event
draws zero log = log
draws (suc n) log = draws n (draw ∷ clock ∷ log)

draw_loop-returns :
    (h : Host) (fuel i : ℕ) (s : Sess)
    → i < fuel
    → is_reserved s.slot_flags (drawn_slot (h.random (draws (suc i) s.log))) ≡ false
    → (slot_id : ℕ) × (t : Sess) × (draw_loop h fuel s ≡ some (slot_id, t))
unfolding draw_loop draws
draw_loop-returns h zero i s lt free = absurd (omega arith)
draw_loop-returns h (suc fuel) zero s lt free =
    (drawn_slot (h.random (draw ∷ clock ∷ s.log)), ask draw (ask clock s), rw free)
draw_loop-returns h (suc fuel) (suc i) s lt free =
    elim (Bool-cases (is_reserved s.slot_flags (drawn_slot (h.random (draw ∷ clock ∷ s.log))))) [
      | inl taken ↦
          rw taken (draw_loop-returns h fuel i (ask draw (ask clock s)) (omega arith) free)
      | inr hit ↦ (drawn_slot (h.random (draw ∷ clock ∷ s.log)), ask draw (ask clock s), rw hit)
    ]

-- The search ends as soon as one of the draws that the fuel allows hits a slot that is not reserved.
pub get_slot_id-returns :
    (h : Host) (fuel i : ℕ) (s : Sess)
    → i < fuel
    → is_reserved s.slot_flags (drawn_slot (h.random (draws (suc i) s.log))) ≡ false
    → (slot_id : ℕ) × (t : Sess) × (get_slot_id h fuel s ≡ some (slot_id, t))
unfolding get_slot_id
get_slot_id-returns h fuel i s lt free = elim (Bool-cases (leb max_slot_id s.slot_count)) [
  | inl full ↦ (0, s, rw full)
  | inr room ↦ rw room (draw_loop-returns h fuel i s lt free)
]
