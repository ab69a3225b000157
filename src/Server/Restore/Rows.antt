-- ===== src/Server/Restore/Rows.antt =====
-- The freeing of what a query of the database returned: `free_data_list` of src/rh-task-dbset.c.
use rahunas.Config.Texts.Freed.{Blocks, Texts, among, all_texts, free_all-Frees, free_all-append}
use rahunas.Config.Texts.{free_all}
use rahunas.Prelude.{ℕ, ◌≡◌, refl, ◌∙◌, sym, true, false, List, [], ◌∷◌, Option}
use rahunas.Server.Run.{Run, returned, ◌>>=◌, >>=_ext, any_return}
use rahunas.Utils.Log.{Memory, is_live}

-- The blocks of a `struct dbset_row`: its own and those of its texts.
pub record RowBlocks : Type 0 where
  pub row : ℕ
  pub session_id : Option ℕ
  pub vserver_id : Option ℕ
  pub username : Option ℕ
  pub ip : Option ℕ
  pub mac : Option ℕ
  pub service_class : Option ℕ

-- The texts in the order in which they are freed.
abbrev pub row_texts : RowBlocks → List (Option ℕ)
row_texts r = r.session_id ∷ r.vserver_id ∷ r.username ∷ r.ip ∷ r.mac ∷ r.service_class ∷ []

-- `g_free` does nothing with a null pointer.
unfoldable pub free_data_list : List RowBlocks → Memory → Run Memory
unfolding free_all
free_data_list [] m = returned m
free_data_list (r ∷ rs) m = free_all (row_texts r) m >>= free_data_list rs

free_data_list-free_all :
    (rs : List RowBlocks) (m : Memory) → free_data_list rs m ≡ free_all (all_texts row_texts rs) m
unfolding free_data_list free_all
free_data_list-free_all [] m = refl
free_data_list-free_all (r ∷ rs) m =
    >>=_ext (λ left. Unit) (free_all (row_texts r) m) (free_data_list rs)
      (free_all (all_texts row_texts rs)) (any_return (free_all (row_texts r) m))
      (λ left u. free_data_list-free_all rs left)
    ∙ sym (free_all-append (row_texts r) (all_texts row_texts rs) m)

-- Where every text is a live block of its own, the freeing of the rows returns and frees each text once;
-- a row's own block that is live, and no text, stays live: it is never freed.
pub free_data_list-leaks :
    (rs : List RowBlocks) (m : Memory) (row : ℕ)
    → Blocks m.live
    → Texts m.live (all_texts row_texts rs)
    → is_live row m.live ≡ true
    → among row (all_texts row_texts rs) ≡ false
    → (left : Memory) × ((free_data_list rs m ≡ returned left) × (is_live row left.live ≡ true))
free_data_list-leaks rs m row u t there own =
    let f = free_all-Frees (all_texts row_texts rs) m u t in
    (f.left, (free_data_list-free_all rs m ∙ f.runs, f.live row ∙ rw own there))
