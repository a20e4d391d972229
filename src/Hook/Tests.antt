-- ===== src/Hook/Tests.antt =====
-- event/hook.c: concrete hooks.
use fnav.Prelude.{
  codes, ℕ, ◌≡◌, refl, false, Option, none, some, List, [], ◌∷◌, arith, negsuc, str_eq,
}
use fnav.Hook.{
  Hook, Hooks, hk_cmd, cmd, event_names, event_idx, name_idx, aug_of, find_aug, augroup_add,
  hook_delete, of_group, erase_loop, utarray_erase,
}
use fnav.Hook.Delete.{survivors, others, Apart, hook_delete-survivors}
use fnav.Hook.Groups.{Unique, augroup_add-IsAdded}

abbrev hook_of : Option ℕ → ℕ → Hook
hook_of aug line = record {
  bufno = negsuc 0;
  type = hk_cmd;
  aug = aug;
  caller = none;
  host = none;
  pat = none;
  data_ = cmd (line ∷ []);
}

abbrev two_of_one : List Hook
two_of_one = hook_of (some 1) 97 ∷ hook_of (some 1) 98 ∷ hook_of none 99 ∷ []

-- The second hook of the group is left.
second_left : hook_delete (some 1) two_of_one ≡ some (hook_of (some 1) 98 ∷ hook_of none 99 ∷ [])
unfolding hook_delete erase_loop of_group utarray_erase
second_left = refl

execopen_idx : event_idx (codes "execopen") ≡ 3
unfolding event_idx name_idx event_names str_eq
execopen_idx = refl

unknown_idx : event_idx (codes "none") ≡ 16
unfolding event_idx name_idx event_names str_eq
unknown_idx = refl

hook_delete-survivors_example :
    (hook_delete (some 1) two_of_one ≡ some (survivors (of_group (some 1)) two_of_one))
    × (others (of_group (some 1)) (survivors (of_group (some 1)) two_of_one)
        ≡ others (of_group (some 1)) two_of_one)
hook_delete-survivors_example = hook_delete-survivors (some 1) two_of_one

between-Apart :
    Apart (of_group (some 1)) (hook_of (some 1) 97 ∷ hook_of none 98 ∷ hook_of (some 1) 99 ∷ [])
unfolding of_group
between-Apart = (λ e. refl, (λ e. absurd (ground arith), tt))

abbrev group_g : Hooks
group_g = record {
  aug_tbl = record { key = codes "g"; address = 1 } ∷ [];
  events = two_of_one ∷ (hook_of none 100 ∷ []) ∷ [];
}

group_g-Unique : Unique group_g.aug_tbl
unfolding find_aug
group_g-Unique = (refl, tt)

augroup_add-IsAdded_example :
    Unique (augroup_add (codes "h") 2 group_g).aug_tbl
    × (aug_of (some (codes "h")) (augroup_add (codes "h") 2 group_g) ≡ some 2)
    × ((key' : List ℕ)
        → str_eq (codes "h") key' ≡ false
        → aug_of (some key') (augroup_add (codes "h") 2 group_g) ≡ aug_of (some key') group_g)
augroup_add-IsAdded_example = augroup_add-IsAdded (codes "h") 2 group_g group_g-Unique

-- A program that keeps the calls of its hooks in a list.
abbrev Trace : Type 0
Trace = List Hook
