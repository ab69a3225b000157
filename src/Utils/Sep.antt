-- ===== src/Utils/Sep.antt =====
-- `rh_string_get_sep` of src/rh-utils.c: the field of a text at an index, counted from 1.
-- The separator is one character, as in every call. GLib's `g_strchug` and `g_strchomp` together
-- are the parameter `trim`.
pub mod Fields
use rahunas.Prelude.{
  ℕ, zero, suc, ◌+◌, ◌%◌, List, [], ◌∷◌, Option, none, some, length, ◌==◌, if◌then◌else◌,
}
use rahunas.Text.{Bytes}

-- `overrun`: the loop reads behind the end of the text, which is undefined behaviour.
-- `no_fuel`: the model's own, and never returned.
pub data Fetch : Type 0 where
  null : Fetch
  str : Bytes → Fetch
  overrun : Fetch
  no_fuel : Fetch

-- `g_strstr_len`: the text before the separator, and the text behind it where it was found.
unfoldable pub find_sep : ℕ → Bytes → Bytes × Option Bytes
find_sep sep [] = ([], none)
find_sep sep (c ∷ cs) =
    let found = find_sep sep cs in if c == sep then ([], some cs) else (c ∷ found.0, found.1)

module _ (trim : Bytes → Bytes) (sep idx : ℕ) where
  -- The loop, from `pStart`. `pEnd++` steps over the separator; where none was found it steps over
  -- the end of the text.
  pub get_sep_loop : ℕ → ℕ → Bytes → Fetch
  get_sep_loop zero current_idx start = no_fuel
  get_sep_loop (suc fuel) current_idx [] = null
  get_sep_loop (suc fuel) current_idx (c ∷ cs) =
      let found = find_sep sep (c ∷ cs) in
      let current = (current_idx + 1) % 65536 in
      let next : Fetch = elim found.1 [
        | none ↦ overrun
        | some rest ↦ get_sep_loop fuel current rest
      ] in
      if current == idx then str (trim found.0) else next

unfoldable pub rh_string_get_sep : (Bytes → Bytes) → Option Bytes → ℕ → ℕ → Fetch
unfolding get_sep_loop find_sep
rh_string_get_sep trim none sep idx = null
rh_string_get_sep trim (some haystack) sep idx =
    get_sep_loop trim sep idx (suc (length haystack)) 0 haystack
