-- ===== src/Session/Slots.antt =====
-- The bandwidth slots of src/rh-task-bandwidth.c: `slot_flags`, `slot_count`, `_get_slot_id` and
-- `mark_reserved_slot_id`. The search for a free slot draws until it finds one; it takes `fuel`
-- draws, and `none` says that all of them hit a reserved slot.
pub mod Bounds
use rahunas.Host.{Host, clock, draw}
use rahunas.Prelude.{
  ℕ, zero, suc, ◌+◌, ◌*◌, ◌/◌, ◌%◌, ◌^◌, Bool, List, [], ◌∷◌, Option, none, some, leb, ◌==◌,
  if◌then◌else◌,
}
use rahunas.Session.{Sess, ask}

abbrev pub max_slot_id : ℕ
max_slot_id = 9900

abbrev pub page_size : ℕ
page_size = 16

abbrev pub max_slot_page : ℕ
max_slot_page = 619

-- An element of an array, 0 behind its end.
unfoldable pub page_at : List ℕ → ℕ → ℕ
page_at [] i = 0
page_at (x ∷ xs) zero = x
page_at (x ∷ xs) (suc i) = page_at xs i

-- `x & (1 << k)`, as a test, and `x | 1 << k`, by the binary digits.
unfoldable pub has_bit : ℕ → ℕ → Bool
has_bit x zero = x % 2 == 1
has_bit x (suc k) = has_bit (x / 2) k

unfoldable pub with_bit : ℕ → ℕ → ℕ
with_bit x zero = if x % 2 == 1 then x else x + 1
with_bit x (suc k) = 2 * with_bit (x / 2) k + x % 2

unfoldable pub mark_page : List ℕ → ℕ → ℕ → List ℕ
unfolding with_bit
mark_page [] i k = []
mark_page (x ∷ xs) zero k = with_bit x k ∷ xs
mark_page (x ∷ xs) (suc i) k = x ∷ mark_page xs i k

unfoldable pub is_reserved : List ℕ → ℕ → Bool
unfolding has_bit page_at
is_reserved slot_flags slot_id =
    has_bit (page_at slot_flags (slot_id / page_size)) (slot_id % page_size)

-- `random() / (int)(((unsigned int)RAND_MAX + 1) / (MAX_SLOT_ID + 1))`, as an `unsigned short`.
unfoldable pub drawn_slot : ℕ → ℕ
drawn_slot random = random / (2 ^ 31 / (max_slot_id + 1)) % 65536

unfoldable pub draw_loop : Host → ℕ → Sess → Option (ℕ × Sess)
draw_loop h zero s = none
draw_loop h (suc fuel) s =
    let asked = ask draw (ask clock s) in
    let slot_id = drawn_slot (h.random asked.log) in
    let retry = draw_loop h fuel asked in
    if is_reserved s.slot_flags slot_id then retry else some (slot_id, asked)

unfoldable pub get_slot_id : Host → ℕ → Sess → Option (ℕ × Sess)
get_slot_id h fuel s = if leb max_slot_id s.slot_count then some (0, s) else draw_loop h fuel s

unfoldable pub mark_reserved_slot_id : ℕ → Sess → Sess
unfolding mark_page
mark_reserved_slot_id slot_id s = record s {
  slot_count = (s.slot_count + 1) % 65536;
  slot_flags = mark_page s.slot_flags (slot_id / page_size) (slot_id % page_size);
}
