-- ===== src/Utils/Log/Doubled.antt =====
-- Which messages `logmsg` frees its buffer twice for.
use rahunas.Prelude.{
  ℕ, suc, ◌+◌, ◌^◌, ◌≤◌, ◌<◌, ◌≡◌, refl, true, false, ◌∷◌, none, some, arith, length, ltb, ◌++◌,
  ==_refl, Bool-cases, inl, inr, if◌then◌else◌,
}
use rahunas.Server.Run.{returned, faults}
use rahunas.Text.{Bytes, codes}
use rahunas.Utils.Log.{
  Libc, Memory, allocated, is_live, without, free, rh_malloc, rh_free, fits, enlarged, resize,
  log_loop, print_and_free, logmsg,
}

-- What C says of `vsnprintf` for a text: the length is returned, and the whole text is in a buffer
-- that is longer than it.
pub record Formats (c : Libc) (text : Bytes) : Type 0 where
  pub returns : (size : ℕ) → (c.vsnprintf size).0 ≡ some (length text)
  pub whole : (size : ℕ) → length text < size → (c.vsnprintf size).1 ≡ text

-- What the allocator does for the message: both calls succeed, and the second does not give the
-- address of another block that is live.
pub record Allocates (c : Libc) (text : Bytes) (m : Memory) : Type 0 where
  pub first : ℕ
  pub second : ℕ
  pub malloc : c.malloc 256 m ≡ some first
  pub realloc : c.realloc first (length text + 1) (allocated first m) ≡ some second
  pub fresh : is_live second m.live ≡ false

abbrev pub logged : Libc → Bytes → Memory → Memory
logged c text m = record m {
  printed = (c.timemsg ++ (codes " : " ++ (text ++ codes "\n"))) ∷ m.printed;
}

free-allocated : (a : ℕ) (m : Memory) → free a (allocated a m) ≡ returned m
unfolding free is_live without
free-allocated a m = rw (==_refl a, is_live, without) refl

print_short :
    (c : Libc) (text : Bytes) (a : ℕ) (m : Memory)
    → print_and_free c (record { p = some a; np = none; text = text }) (allocated a m)
      ≡ returned (none, logged c text m)
unfolding print_and_free rh_free
print_short c text a m = rw (free-allocated a (logged c text m)) refl

print_long :
    (c : Libc) (text : Bytes) (b : ℕ) (m : Memory)
    → is_live b m.live ≡ false
    → print_and_free c (record { p = some b; np = some b; text = text }) (allocated b m) ≡ faults
unfolding print_and_free rh_free free
print_long c text b m fresh = rw (free-allocated b (logged c text m)) (rw fresh refl)

module _ (c : Libc) (text : Bytes) (m : Memory) (f : Formats c text) (a : Allocates c text m) where
  resized :
      length text + 1 < 2 ^ 31
      → resize c (length text + 1) a.first (allocated a.first m)
        ≡ returned (some a.second, allocated a.second m)
  unfolding resize
  resized bound =
      let small : ltb (length text + 1) (2 ^ 31) ≡ true = ground arith in
      rw small (rw (free-allocated a.first m) (rw a.realloc refl))

  loop_long :
      (fuel : ℕ)
      → ltb (length text) 256 ≡ false
      → length text + 1 < 2 ^ 31
      → log_loop c (suc (suc fuel)) 256 a.first none (allocated a.first m)
        ≡ returned
            (record { p = some a.second; np = some a.second; text = text }, allocated a.second m)
  unfolding log_loop fits enlarged
  loop_long fuel long bound =
      let room : ltb (length text) (length text + 1) ≡ true = ground arith in
      rw (log_loop, f.returns 256, fits, long, enlarged, resized bound)
        (rw
          (
            f.returns 256,
            enlarged,
            f.returns (length text + 1),
            fits,
            room,
            f.whole (length text + 1) (omega arith),
          )
          refl)

  loop_short :
      (fuel : ℕ)
      → ltb (length text) 256 ≡ true
      → log_loop c (suc (suc fuel)) 256 a.first none (allocated a.first m)
        ≡ returned (record { p = some a.first; np = none; text = text }, allocated a.first m)
  unfolding log_loop fits
  loop_short fuel short = rw (log_loop, f.returns 256, fits, short, f.whole 256 (ground arith)) refl

-- Where `vsnprintf` formats a text as C says, and the allocator succeeds, a message that is not below
-- the log level is printed, its buffer is freed and nothing else, in a text of fewer than 256
-- characters; for each longer text whose length is an `int` with room for one more, the function frees
-- the buffer that it had from `realloc` twice, which is undefined. Two rounds of the loop are enough.
pub logmsg_lem :
    (c : Libc) (text : Bytes) (fuel priority : ℕ) (m : Memory)
    → 1 ≤ priority
    → length text + 1 < 2 ^ 31
    → Formats c text
    → Allocates c text m
    → logmsg c (suc (suc fuel)) priority m
      ≡ (if ltb (length text) 256 then returned (none, logged c text m) else faults)
unfolding logmsg rh_malloc
logmsg_lem c text fuel priority m level bound f a =
    let loud : ltb priority 1 ≡ false = ground arith in
    elim (Bool-cases (ltb (length text) 256)) [
      | inl short ↦
          rw (loud, a.malloc, rh_malloc, loop_short c text m f a fuel short, short)
            (print_short c text a.first m)
      | inr long ↦
          rw (loud, a.malloc, rh_malloc, loop_long c text m f a fuel long bound, long)
            (print_long c text a.second m a.fresh)
    ]
