-- ===== src/Member/Freed.antt =====
-- The blocks of a member and their freeing: `rh_free_member` of src/rahunasd.c. `termstring` is the
-- address of a text that is not on the heap.
use rahunas.Config.Texts.Freed.{Blocks, Texts, Frees, among, free_all-Frees}
use rahunas.Config.Texts.{free_all}
use rahunas.Prelude.{
  ℕ, ◌≡◌, ◌∙◌, true, false, List, [], ◌∷◌, Option, none, some, map, ◌==◌, if◌then◌else◌,
}
use rahunas.Server.Run.{Run, returned}
use rahunas.Utils.Log.{Memory, is_live}

-- `member` is the block of the `struct rahunas_member`.
pub record MemberBlocks : Type 0 where
  pub member : ℕ
  pub username : Option ℕ
  pub session_id : Option ℕ
  pub serviceclass_name : Option ℕ
  pub mapping_ip : Option ℕ

-- A pointer that is freed: not null, and not `termstring`.
unfoldable pub unless_term : ℕ → Option ℕ → Option ℕ
unless_term termstring none = none
unless_term termstring (some a) = if a == termstring then none else some a

abbrev pub member_texts : ℕ → MemberBlocks → List (Option ℕ)
member_texts termstring m =
    map (unless_term termstring)
      (m.username ∷ m.session_id ∷ m.serviceclass_name ∷ m.mapping_ip ∷ [])

unfoldable pub rh_free_member : ℕ → MemberBlocks → Memory → Run Memory
unfolding free_all unless_term
rh_free_member termstring m heap = free_all (member_texts termstring m) heap

-- Where each text but `termstring` is a live block of its own, the freeing of a member returns, and frees
-- these texts once and nothing else; so the block of the member, which is no text, stays live.
pub rh_free_member-leaks :
    (termstring : ℕ) (m : MemberBlocks) (heap : Memory)
    → Blocks heap.live
    → Texts heap.live (member_texts termstring m)
    → is_live m.member heap.live ≡ true
    → among m.member (member_texts termstring m) ≡ false
    → Frees (member_texts termstring m) heap (rh_free_member termstring m heap)
      × ((left : Memory) × ((rh_free_member termstring m heap ≡ returned left)
            × (is_live m.member left.live ≡ true)))
unfolding rh_free_member
rh_free_member-leaks termstring m heap u t there own =
    let f = free_all-Frees (member_texts termstring m) heap u t in
    (f, (f.left, (f.runs, f.live m.member ∙ rw own there)))
