-- ===== src/Utils/Log.antt =====
-- `logmsg` of src/rh-utils.c, with `rh_malloc` and `rh_free`. The heap is the list of the blocks that are
-- live. The allocator, `vsnprintf` and the text of the time are parameters.
pub mod Doubled
use rahunas.Prelude.{
  ℕ, zero, suc, ◌+◌, ◌*◌, ◌^◌, Bool, true, false, List, [], ◌∷◌, ◌++◌, Option, none, some, ltb,
  ◌==◌, if◌then◌else◌,
}
use rahunas.Server.Run.{Run, returned, exits, faults, unended, ◌>>=◌}
use rahunas.Session.{minus_one}
use rahunas.Text.{Bytes, codes}

-- The addresses of the live blocks, and what standard error got, newest first.
pub record Memory : Type 0 where
  pub live : List ℕ
  pub printed : List Bytes

pub record Libc : Type 0 where
  pub malloc : ℕ → Memory → Option ℕ
  pub realloc : ℕ → ℕ → Memory → Option ℕ
  -- what it returns for a size, `none` for a negative number, and the text in the buffer
  pub vsnprintf : ℕ → Option ℕ × Bytes
  pub timemsg : Bytes

unfoldable pub is_live : ℕ → List ℕ → Bool
is_live a [] = false
is_live a (b ∷ bs) = let rest = is_live a bs in if a == b then true else rest

unfoldable pub without : ℕ → List ℕ → List ℕ
without a [] = []
without a (b ∷ bs) = let rest = without a bs in if a == b then bs else b ∷ rest

abbrev pub allocated : ℕ → Memory → Memory
allocated a m = record m { live = a ∷ m.live }

-- A block that is not live must not be freed.
unfoldable pub free : ℕ → Memory → Run Memory
unfolding is_live without
free a m = if is_live a m.live then returned (record m { live = without a m.live }) else faults

unfoldable pub rh_malloc : Libc → ℕ → Memory → Run (Option ℕ × Memory)
rh_malloc c size m =
    if size == 0
    then returned (none, m)
    else elim (c.malloc size m) [ none ↦ exits | some a ↦ returned (some a, allocated a m) ]

unfoldable pub rh_free : Option ℕ → Memory → Run Memory
unfolding free
rh_free none m = returned m
rh_free (some a) m = free a m

-- The variables of the loop when it is left, with the text in the buffer.
pub record Buffers : Type 0 where
  pub p : Option ℕ
  pub np : Option ℕ
  pub text : Bytes

unfoldable pub fits : Option ℕ → ℕ → Bool
fits none size = false
fits (some n) size = ltb n size

unfoldable pub enlarged : Option ℕ → ℕ → ℕ
enlarged none size = size * 2
enlarged (some n) size = n + 1

-- `realloc`, with its failure; the new size is an `int`, which must not overflow.
unfoldable pub resize : Libc → ℕ → ℕ → Memory → Run (Option ℕ × Memory)
unfolding free
resize c size p m =
    if ltb size (2 ^ 31)
    then (free p m >>= λ freed. elim (c.realloc p size m) [
      | none ↦ returned (none, freed)
      | some q ↦ returned (some q, allocated q freed)
    ])
    else faults

unfoldable pub log_loop : Libc → ℕ → ℕ → ℕ → Option ℕ → Memory → Run (Buffers × Memory)
unfolding fits enlarged resize
log_loop c zero size p np m = unended
log_loop c (suc fuel) size p np m =
    let written = c.vsnprintf size in
    if fits written.0 size
    then returned (record { p = some p; np = np; text = written.1 }, m)
    else resize c (enlarged written.0 size) p m >>= λ r. elim r.0 [
      | none ↦ returned (record { p = none; np = none; text = written.1 }, r.1)
      | some q ↦ log_loop c fuel (enlarged written.0 size) q (some q) r.1
    ]

-- `fprintf` and the two calls of `rh_free`. The function ends without a value.
unfoldable pub print_and_free : Libc → Buffers → Memory → Run (Option ℕ × Memory)
unfolding rh_free
print_and_free c b m =
    let line = c.timemsg ++ (codes " : " ++ (b.text ++ codes "\n")) in
    rh_free b.p (record m { printed = line ∷ m.printed }) >>= λ first.
    rh_free b.np first >>= λ second. returned (none, second)

-- `RH_LOG_LEVEL` is `RH_LOG_NORMAL`, which is 1.
unfoldable pub logmsg : Libc → ℕ → ℕ → Memory → Run (Option ℕ × Memory)
unfolding rh_malloc log_loop print_and_free
logmsg c fuel priority m =
    if ltb priority 1
    then returned (some 0, m)
    else rh_malloc c 256 m >>= λ r. elim r.0 [
      | none ↦ returned (some minus_one, r.1)
      | some a ↦ log_loop c fuel 256 a none r.1 >>= λ done. elim done.0.p [
        | none ↦ returned (some minus_one, done.1)
        | some p ↦ print_and_free c done.0 done.1
      ]
    ]
