-- ===== src/Expiry/Times.antt =====
-- The comparisons of times in the walk, as comparisons of numbers.
use rahunas.Expiry.{SetEntry, cause_of, sign_extend, signed_gt}
use rahunas.Prelude.{
  ℕ, ◌+◌, ◌-◌, ◌%◌, ◌^◌, ◌<◌, ◌≡◌, refl, not, ◌&&◌, none, some, arith, ltb, leb, ◌==◌, Bool-cases,
  inl, inr, if◌then◌else◌,
}

difference :
    (now stamp limit : ℕ)
    → now < 2 ^ 63
    → stamp < 2 ^ 63
    → limit < 2 ^ 31
    → signed_gt ((now + 2 ^ 64 - stamp) % 2 ^ 64) (sign_extend limit) ≡ ltb (stamp + limit) now
unfolding signed_gt sign_extend
difference now stamp limit n s l = elim (Bool-cases (leb stamp now)) [
  | inl later ↦
      let d : (now + 2 ^ 64 - stamp) % 2 ^ 64 ≡ now - stamp = ground arith in rw d (ground arith)
  | inr earlier ↦
      let d : (now + 2 ^ 64 - stamp) % 2 ^ 64 ≡ now + 2 ^ 64 - stamp = ground arith in
      rw d (ground arith)
]

end_of_session :
    (now session_timeout : ℕ)
    → now < 2 ^ 63
    → session_timeout < 2 ^ 63
    → signed_gt now session_timeout ≡ ltb session_timeout now
unfolding signed_gt
end_of_session now t n h = ground arith

-- For times before the end of a signed 64-bit clock and a limit that is not negative: the cause is
-- the idle limit where the entry is older than that, which no entry of the future is; else the end of
-- the session where it has one and it has passed; else there is none.
pub cause_of_lem :
    (now idle_timeout : ℕ) (d : SetEntry) (session_timeout : ℕ)
    → now < 2 ^ 63
    → d.timestamp < 2 ^ 63
    → idle_timeout < 2 ^ 31
    → session_timeout < 2 ^ 63
    → cause_of now idle_timeout d session_timeout ≡ (
        if ltb (d.timestamp + idle_timeout) now
        then some 4
        else if not (session_timeout == 0) && ltb session_timeout now
        then some 5
        else none)
unfolding cause_of
cause_of_lem now idle d t n s l h =
    rw (difference now d.timestamp idle n s l, end_of_session now t n h) refl
