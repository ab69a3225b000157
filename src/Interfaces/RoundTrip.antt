-- ===== src/Interfaces/RoundTrip.antt =====
-- An interface that is added and removed.
use rahunas.Interfaces.{new_interface, ifb_ifno}
use rahunas.Prelude.{ℕ, Bool, [], ◌==◌}

reads_number : ℕ → Bool
reads_number ifno = ifb_ifno (new_interface [] ifno) == ifno
