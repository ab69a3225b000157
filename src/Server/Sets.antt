-- ===== src/Server/Sets.antt =====
-- The requests for a whole set of the kernel: `set_adt_get`, `set_flush`, `load_set_list`,
-- `get_header_from_set` and `walk_through_set` of src/rh-ipset.c. The protocol's version is known, and a
-- socket is opened; Socket is on both. Memory does not run out. The lock of `walk_through_set` is left
-- out: it is given up before the callback.
pub mod Socket
use rahunas.Expiry.{SetEntry}
use rahunas.Host.{Event, adt_get, flush, max_sets, list_size, list_set}
use rahunas.Member.{VMap}
use rahunas.Prelude.{
  ℕ, zero, suc, ◌+◌, ◌-◌, ◌%◌, ◌^◌, Bool, List, ◌∷◌, Option, none, some, ◌==◌, if◌then◌else◌,
}
use rahunas.Server.Run.{Run, returned, exits, faults}
use rahunas.Server.{Server, Site, config_of, log_of, with_log}
use rahunas.Session.{minus_one}
use rahunas.Text.{Bytes}

-- What the buffer of a listing holds: the header's two addresses, in host order, the entries, and the
-- six bytes at `table[id].ethernet` of an array that begins behind the header, where these lie inside
-- the buffer.
pub record Listing : Type 0 where
  pub from : ℕ
  pub to : ℕ
  pub entries : List SetEntry
  pub table : ℕ → Option Bytes

-- `kernel_getfrom_handleerrno`: an error with `EAGAIN`, or 0, whether the kernel has answered with
-- as many bytes as were asked for, and what the buffer holds then.
pub data Answer (A : Type 0) : Type 0 where
  again : Answer A
  answered : Bool → A → Answer A

-- The kernel's answers, by the whole history of requests. `max_sets` is answered by the number of
-- sets and the index of the one that was named.
pub record SetHost : Type 0 where
  pub index : List Event → ℕ
  pub sets : List Event → ℕ × ℕ
  pub size : List Event → Answer ℕ
  pub listing : List Event → Answer Listing

-- The index, and what is left of the history.
unfoldable pub set_adt_get : SetHost → Bytes → List Event → List Event × ℕ
set_adt_get k name log = let asked = adt_get name ∷ log in (asked, k.index asked)

unfoldable pub set_flush : Bytes → List Event → List Event
set_flush name log = flush name ∷ log

-- One try: no sets, a size, or a reason to try again, with the index of the set.
unfoldable pub load_try : SetHost → Bytes → List Event → List Event × Option ℕ × ℕ
load_try k name log =
    let asked = max_sets name ∷ log in
    let (sets, idx) = k.sets asked in
    let sized = list_size idx ∷ asked in
    if sets == 0 then (asked, some 0, idx) else elim (k.size sized) [
      | again ↦ (sized, none, idx)
      | answered fits size ↦ (sized, (if fits then some size else none), idx)
    ]

-- The tries; the first argument is how many may be repeated. The result is a `socklen_t`.
unfoldable pub load_tries : ℕ → SetHost → Bytes → List Event → List Event × ℕ × ℕ
unfolding load_try
load_tries zero k name log =
    let (asked, size, idx) = load_try k name log in
    elim size [ some n ↦ (asked, n, idx) | none ↦ (asked, minus_one, idx) ]
load_tries (suc left) k name log =
    let (asked, size, idx) = load_try k name log in
    elim size [ some n ↦ (asked, n, idx) | none ↦ load_tries left k name asked ]

-- `LIST_TRIES` is 5.
unfoldable pub load_set_list : SetHost → Bytes → List Event → List Event × ℕ × ℕ
unfolding load_tries
load_set_list k name log = load_tries 5 k name log

-- The part that `get_header_from_set` and `walk_through_set` share: the listing, or nothing where
-- its size is 0; `none` where it could not be read and the function returns `-EAGAIN`.
unfoldable pub read_listing : SetHost → Bytes → List Event → List Event × Option (Option Listing)
unfolding load_set_list
read_listing k name log =
    let (asked, size, idx) = load_set_list k name log in
    let listed = list_set idx ∷ asked in
    if size == 0 then (asked, some none) else elim (k.listing listed) [
      | again ↦ (listed, none)
      | answered fits l ↦ (listed, if fits then some (some l) else none)
    ]

-- The map of a header; the members stay.
unfoldable pub header_map : Listing → VMap → VMap
header_map l map = record map {
  first_ip = l.from;
  last_ip = l.to;
  size = (l.to + 2 ^ 32 - l.from + 1) % 2 ^ 32;
}

-- The caller of `get_header_from_set` exits where it returns a negative number. A size of 0 leaves a
-- null pointer to read the header from.
unfoldable pub get_header_from_set : SetHost → VMap → Site → Run Site
unfolding read_listing header_map
get_header_from_set k map u =
    let (asked, answer) = read_listing k (config_of u).vserver_name (log_of u) in
    elim answer [
      | none ↦ exits
      | some found ↦ elim found [
        | none ↦ faults
        | some l ↦
            returned
              (record (with_log asked u) { vs = record v { v_map = some (header_map l map) } })
      ]
    ]
  where
    v : Server
    v = u.vs

-- The callback is called where there is a listing. What is returned is dropped by every caller.
unfoldable pub walk_through_set : SetHost → (Listing → Site → Run Site) → Site → Run Site
unfolding read_listing
walk_through_set k callback u =
    let (asked, answer) = read_listing k (config_of u).vserver_name (log_of u) in
    elim answer [
      | none ↦ returned (with_log asked u)
      | some found ↦ elim found [
        | none ↦ returned (with_log asked u)
        | some l ↦ callback l (with_log asked u)
      ]
    ]
