-- ===== src/Utils/Sep/Fields.antt =====
-- What `rh_string_get_sep` returns, in terms of the fields of the text.
use mathlib.Core.List.{append-nil}
use rahunas.Prelude.{
  ℕ, zero, suc, ◌+◌, ◌%◌, ◌<◌, ◌≡◌, refl, ◌≢◌, ◌∙◌, ap, List, [], ◌∷◌, ◌++◌, Option, none, some,
  arith, length, get_elem?, ◌==◌, if◌then◌else◌, All, Bool-cases, ◌⊎◌, ==_refl, inl, inr,
  Option-cases,
}
use rahunas.Text.{Bytes}
use rahunas.Utils.Sep.{Fetch, null, str, overrun, find_sep, get_sep_loop, rh_string_get_sep}

-- The texts between the separators: one more than there are separators.
unfoldable pub split : ℕ → Bytes → Bytes × List Bytes
split sep [] = ([], [])
split sep (c ∷ cs) = let (f, fs) = split sep cs in if c == sep then ([], f ∷ fs) else (c ∷ f, fs)

-- A last field: not found where it is empty, and where it is not, a field behind it is an overrun.
pick_last : (Bytes → Bytes) → Bytes → ℕ → Fetch
pick_last trim [] i = null
pick_last trim (c ∷ f) zero = str (trim (c ∷ f))
pick_last trim (c ∷ f) (suc i) = overrun

-- Field `i + 1` of the list that begins with `f` and goes on with the second argument.
unfoldable pub pick : (Bytes → Bytes) → Bytes → List Bytes → ℕ → Fetch
unfolding pick_last
pick trim f [] i = pick_last trim f i
pick trim f (g ∷ fs) zero = str (trim f)
pick trim f (g ∷ fs) (suc i) = pick trim g fs i

tail_fields : ℕ → Option Bytes → List Bytes
tail_fields sep none = []
tail_fields sep (some rest) = (split sep rest).0 ∷ (split sep rest).1

-- One search for the separator is the first step of `split`.
split-find_sep :
    (sep : ℕ) (s : Bytes)
    → ((split sep s).0 ≡ (find_sep sep s).0)
      × ((split sep s).1 ≡ tail_fields sep (find_sep sep s).1)
unfolding split find_sep tail_fields
split-find_sep sep [] = (refl, refl)
split-find_sep sep (c ∷ cs) = elim (Bool-cases (c == sep)) [
  | inl e ↦ rw e (refl, refl)
  | inr e ↦ rw e (ap (◌∷◌ c) (split-find_sep sep cs).0, (split-find_sep sep cs).1)
]

length-find_sep :
    (sep : ℕ) (s rest : Bytes) → (find_sep sep s).1 ≡ some rest → length rest < length s
unfolding find_sep
length-find_sep sep [] rest h = cc
length-find_sep sep (c ∷ cs) rest h = ground (arith, length-find_sep sep cs rest)

-- A text with no separator in it is found whole.
find_sep_whole :
    (sep c : ℕ) (cs : Bytes)
    → (find_sep sep (c ∷ cs)).1 ≡ none
    → (find_sep sep (c ∷ cs)).0 ≡ c ∷ (find_sep sep cs).0
unfolding find_sep
find_sep_whole sep c cs h = ground arith

module _ (trim : Bytes → Bytes) (sep idx : ℕ) (small : idx < 65536) where
  -- A round at the last field, and one at a field that a separator closes.
  round_last :
      (fuel cur i c : ℕ) (cs : Bytes)
      → idx ≡ cur + suc i
      → (find_sep sep (c ∷ cs)).1 ≡ none
      → get_sep_loop trim sep idx (suc fuel) cur (c ∷ cs) ≡ pick trim (find_sep sep (c ∷ cs)).0 [] i
  unfolding get_sep_loop pick
  round_last fuel cur zero c cs e last = rw (last, find_sep_whole sep c cs last) (ground arith)
  round_last fuel cur (suc i) c cs e last = rw (last, find_sep_whole sep c cs last) (ground arith)

  round_more :
      (fuel cur i c : ℕ) (cs rest : Bytes)
      → idx ≡ cur + suc i
      → (find_sep sep (c ∷ cs)).1 ≡ some rest
      → ((j : ℕ)
          → idx ≡ (cur + 1) + suc j
          → get_sep_loop trim sep idx fuel (cur + 1) rest
            ≡ pick trim (split sep rest).0 (split sep rest).1 j)
      → get_sep_loop trim sep idx (suc fuel) cur (c ∷ cs)
        ≡ pick trim (find_sep sep (c ∷ cs)).0 (tail_fields sep (some rest)) i
  unfolding get_sep_loop pick tail_fields
  round_more fuel cur zero c cs rest e more later = rw more (ground arith)
  round_more fuel cur (suc i) c cs rest e more later =
      let small' : (cur + 1) % 65536 ≡ cur + 1 = omega arith in
      rw (more, small') (ground (arith, later i (omega arith)))

  get_sep_loop-pick :
      (fuel cur i : ℕ) (s : Bytes)
      → length s < fuel
      → idx ≡ cur + suc i
      → get_sep_loop trim sep idx fuel cur s ≡ pick trim (split sep s).0 (split sep s).1 i
  get_sep_loop-pick zero cur i s h e = absurd (omega arith)
  get_sep_loop-pick (suc fuel) cur i [] h e = unfold get_sep_loop pick split in refl
  get_sep_loop-pick (suc fuel) cur i (c ∷ cs) h e =
      rw ((split-find_sep sep (c ∷ cs)).0, (split-find_sep sep (c ∷ cs)).1)
        (elim (Option-cases (find_sep sep (c ∷ cs)).1) [
          | inl last ↦ rw last (unfold tail_fields in round_last fuel cur i c cs e last)
          | inr (rest, more) ↦ rw more (
              round_more fuel cur i c cs rest e more λ j e'.
                get_sep_loop-pick fuel (cur + 1) j rest
                  (omega (arith, length-find_sep sep (c ∷ cs) rest more)) e')
        ])

-- For every text and every index from 1 to 65535, the loop ends, and returns the trimmed field at the
-- index; NULL where the last field is empty and the index is not below it; and it reads behind the
-- end of the text where the last field is not empty and the index is behind it.
pub rh_string_get_sep-pick :
    (trim : Bytes → Bytes) (sep i : ℕ) (haystack : Bytes)
    → suc i < 65536
    → rh_string_get_sep trim (some haystack) sep (suc i)
      ≡ pick trim (split sep haystack).0 (split sep haystack).1 i
unfolding rh_string_get_sep
rh_string_get_sep-pick trim sep i haystack small =
    get_sep_loop-pick trim sep (suc i) small (suc (length haystack)) 0 i haystack (omega arith)
      (omega arith)

-- Fields joined by the separator.
pub join : ℕ → Bytes → List Bytes → Bytes
join sep f [] = f
join sep f (g ∷ fs) = f ++ (sep ∷ join sep g fs)

abbrev pub Without : ℕ → Bytes → Type 0
Without sep s = All (λ c. c ≢ sep) s

split_prefix :
    (sep : ℕ) (f s : Bytes)
    → Without sep f
    → split sep (f ++ s) ≡ (f ++ (split sep s).0, (split sep s).1)
unfolding split
split_prefix sep [] s w = refl
split_prefix sep (c ∷ f) s w = ground (arith, split_prefix sep f s)

split_whole : (sep : ℕ) (f : Bytes) → Without sep f → split sep f ≡ (f, [])
unfolding split
split_whole sep [] w = refl
split_whole sep (c ∷ f) w = ground (arith, split_whole sep f w.1)

split_at : (sep : ℕ) (s : Bytes) → split sep (sep ∷ s) ≡ ([], (split sep s).0 ∷ (split sep s).1)
unfolding split
split_at sep s = rw (==_refl sep)

pub split-join :
    (sep : ℕ) (f : Bytes) (fs : List Bytes)
    → Without sep f
    → All (Without sep) fs
    → split sep (join sep f fs) ≡ (f, fs)
unfolding join
split-join sep f [] w ws = split_whole sep f w
split-join sep f (g ∷ fs) w (wg, ws) =
    split_prefix sep f (sep ∷ join sep g fs) w
    ∙ rw (split_at sep (join sep g fs), split-join sep g fs wg ws)
        (ap (λ t. (t, g ∷ fs)) (append-nil f))

-- The field at `i` of a list of fields, of which the last is not looked up when it is empty.
abbrev pub Found : Bytes → List Bytes → ℕ → Bytes → Type 0
Found f fs i x = (get_elem? (f ∷ fs) i ≡ some x) × ((suc i < length (f ∷ fs)) ⊎ (x ≢ []))

pick-Found :
    (trim : Bytes → Bytes) (f : Bytes) (fs : List Bytes) (i : ℕ) (x : Bytes)
    → Found f fs i x
    → pick trim f fs i ≡ str (trim x)
unfolding pick
pick-Found trim [] [] zero x (e, inl h) = absurd (omega arith)
pick-Found trim [] [] zero x (e, inr h) = absurd (h (ground arith))
pick-Found trim [] [] (suc i) x (e, h) = cc
pick-Found trim (c ∷ f) [] zero x (e, h) = ground arith
pick-Found trim (c ∷ f) [] (suc i) x (e, h) = cc
pick-Found trim f (g ∷ fs) zero x (e, h) = ground arith
pick-Found trim f (g ∷ fs) (suc i) x (e, inl h) = pick-Found trim g fs i x (e, inl (omega arith))
pick-Found trim f (g ∷ fs) (suc i) x (e, inr h) = pick-Found trim g fs i x (e, inr h)

-- A text of joined fields gives each field back, trimmed: the field at index `i + 1`, below 65536,
-- unless it is the last one and empty. No field holds the separator.
pub rh_string_get_sep-join :
    (trim : Bytes → Bytes) (sep i : ℕ) (f : Bytes) (fs : List Bytes) (x : Bytes)
    → suc i < 65536
    → Without sep f
    → All (Without sep) fs
    → Found f fs i x
    → rh_string_get_sep trim (some (join sep f fs)) sep (suc i) ≡ str (trim x)
rh_string_get_sep-join trim sep i f fs x small w ws found =
    rh_string_get_sep-pick trim sep i (join sep f fs) small
    ∙ rw (split-join sep f fs w ws) (pick-Found trim f fs i x found)
