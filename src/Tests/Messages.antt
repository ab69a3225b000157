-- ===== src/Tests/Messages.antt =====
-- A log message of 300 characters.
use rahunas.Prelude.{ℕ, zero, suc, ◌-◌, ◌≤◌, ◌≡◌, refl, ap, [], ◌∷◌, some, arith, length, take}
use rahunas.Server.Run.{faults}
use rahunas.Text.{Bytes}
use rahunas.Utils.Log.Doubled.{Formats, Allocates, logmsg_lem}
use rahunas.Utils.Log.{Libc, Memory, logmsg, is_live}

abbrev letters : ℕ → Bytes
letters zero = []
letters (suc n) = b'a' ∷ letters n

abbrev nothing_live : Memory
nothing_live = record { live = []; printed = [] }

abbrev formats_300 : Libc
formats_300 = record {
  malloc = λ size m. some 1;
  realloc = λ p size m. some 2;
  vsnprintf = λ size. (some 300, take (size - 1) (letters 300));
  timemsg = [];
}

take_whole : (n : ℕ) (text : Bytes) → length text ≤ n → take n text ≡ text
take_whole zero [] le = refl
take_whole (suc n) [] le = refl
take_whole zero (c ∷ cs) le = let no : ⊥ = omega arith in absurd no
take_whole (suc n) (c ∷ cs) le = ap (λ xs. c ∷ xs) (take_whole n cs (omega arith))

three_hundred : Formats formats_300 (letters 300)
three_hundred = record {
  returns = λ size. refl;
  whole = λ size room. take_whole (size - 1) (letters 300) (omega arith);
}

one_and_two : Allocates formats_300 (letters 300) nothing_live
unfolding is_live
one_and_two = record { first = 1; second = 2; malloc = refl; realloc = refl; fresh = refl }

logmsg_lem_example : logmsg formats_300 2 1 nothing_live ≡ faults
logmsg_lem_example =
    logmsg_lem formats_300 (letters 300) 0 1 nothing_live (omega arith) (omega arith) three_hundred
      one_and_two
