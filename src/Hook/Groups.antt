-- ===== src/Hook/Groups.antt =====
-- event/hook.c: groups, and the removal of hooks by their name or without an event.
use fnav.Prelude.{
  ℕ, ◌≡◌, ◌≢◌, ◌∙◌, sym, refl, true, false, Option, none, some, List, [], ◌∷◌, ◌++◌, if◌then◌else◌,
  get_elem?, arith, Bool-cases, inl, inr, str_eq, str_eq_refl, str_eq→eq, str_eq_comm,
  get_elem?-set_ne,
}
use fnav.Hook.{
  Hook, Hooks, Augroup, update_event, hook_remove, hook_delete, aug_of, find_aug, del_aug,
  augroup_add, augroup_remove, get_event, set_event, of_group,
}
use fnav.Hook.Delete.{survivors, hook_delete-survivors}

-- No key is twice in the table.
abbrev pub Absent : List ℕ → List Augroup → Type 0
Absent key tbl = find_aug key tbl ≡ none

abbrev pub Unique : List Augroup → Type 0
Unique [] = Unit
Unique (g ∷ tbl) = Absent g.key tbl × Unique tbl

find_aug-append :
    (key : List ℕ) (tbl : List Augroup) (g : Augroup)
    → find_aug key tbl ≡ none
    → find_aug key (tbl ++ (g ∷ [])) ≡ (if str_eq g.key key then some g.address else none)
unfolding find_aug
find_aug-append key [] g h = ground arith
find_aug-append key (x ∷ tbl) g h = ground (arith, find_aug-append key tbl g)

find_aug-append_other :
    (key : List ℕ) (tbl : List Augroup) (g : Augroup)
    → str_eq g.key key ≡ false
    → find_aug key (tbl ++ (g ∷ [])) ≡ find_aug key tbl
unfolding find_aug
find_aug-append_other key [] g h = ground arith
find_aug-append_other key (x ∷ tbl) g h = ground (arith, find_aug-append_other key tbl g)

module _ (key : List ℕ) (g : Augroup) (tbl : List Augroup) where
  deleted : str_eq g.key key ≡ true → del_aug key (g ∷ tbl) ≡ tbl
  unfolding del_aug
  deleted e = ground arith

  passed : str_eq g.key key ≡ false → del_aug key (g ∷ tbl) ≡ g ∷ del_aug key tbl
  unfolding del_aug
  passed e = ground arith

  not_here : str_eq g.key key ≡ false → find_aug key (g ∷ tbl) ≡ find_aug key tbl
  unfolding find_aug
  not_here e = ground arith

find_aug-del_aug :
    (key : List ℕ) (tbl : List Augroup) → Unique tbl → find_aug key (del_aug key tbl) ≡ none
unfolding find_aug del_aug
find_aug-del_aug key [] u = refl
find_aug-del_aug key (x ∷ tbl) u = elim (Bool-cases (str_eq x.key key)) [
  | inl e ↦ rw (deleted key x tbl e, sym (str_eq→eq x.key key e)) u.0
  | inr e ↦
      rw (passed key x tbl e, not_here key x (del_aug key tbl) e) (find_aug-del_aug key tbl u.1)
]

find_aug-del_aug_other :
    (key key' : List ℕ) (tbl : List Augroup)
    → str_eq key key' ≡ false
    → find_aug key' (del_aug key tbl) ≡ find_aug key' tbl
unfolding find_aug del_aug
find_aug-del_aug_other key key' [] u = refl
find_aug-del_aug_other key key' (x ∷ tbl) u = elim (Bool-cases (str_eq x.key key)) [
  | inl e ↦
      let k : str_eq x.key key' ≡ false = rw (str_eq→eq x.key key e) u in
      rw (deleted key x tbl e) (sym (not_here key' x tbl k))
  | inr e ↦ rw (passed key x tbl e) (ground (arith, find_aug-del_aug_other key key' tbl u))
]

Unique-del_aug : (key : List ℕ) (tbl : List Augroup) → Unique tbl → Unique (del_aug key tbl)
unfolding del_aug
Unique-del_aug key [] u = tt
Unique-del_aug key (x ∷ tbl) u = elim (Bool-cases (str_eq x.key key)) [
  | inl e ↦ rw (deleted key x tbl e) u.1
  | inr e ↦
      let k : str_eq key x.key ≡ false = str_eq_comm key x.key ∙ e in
      rw (passed key x tbl e)
        (find_aug-del_aug_other key x.key tbl k ∙ u.0, Unique-del_aug key tbl u.1)
]

Unique-append :
    (tbl : List Augroup) (g : Augroup)
    → Unique tbl
    → find_aug g.key tbl ≡ none
    → Unique (tbl ++ (g ∷ []))
unfolding find_aug
Unique-append [] g u h = (refl, tt)
Unique-append (x ∷ tbl) g u h =
    let n : str_eq x.key g.key ≡ false = ground arith in
    let n' : str_eq g.key x.key ≡ false = str_eq_comm g.key x.key ∙ n in
    let h' : find_aug g.key tbl ≡ none = ground arith in
    (find_aug-append_other x.key tbl g n' ∙ u.0, Unique-append tbl g u.1 h')

-- augroup_add on a table without double names gives such a table, in which the name has the new
-- address, and every other name what it had.
pub augroup_add-IsAdded :
    (key : List ℕ) (address : ℕ) (s : Hooks)
    → Unique s.aug_tbl
    → Unique (augroup_add key address s).aug_tbl
      × (aug_of (some key) (augroup_add key address s) ≡ some address)
      × ((key' : List ℕ)
          → str_eq key key' ≡ false
          → aug_of (some key') (augroup_add key address s) ≡ aug_of (some key') s)
unfolding augroup_add augroup_remove aug_of
augroup_add-IsAdded key address s u =
    let g : Augroup = record { key = key; address = address } in
    let t = del_aug key s.aug_tbl in
    let n = find_aug-del_aug key s.aug_tbl u in
    (
      Unique-append t g (Unique-del_aug key s.aug_tbl u) n,
      find_aug-append key t g n ∙ rw (str_eq_refl key) refl,
      λ key' h. find_aug-append_other key' t g h ∙ find_aug-del_aug_other key key' s.aug_tbl h,
    )

updated :
    (f : List Hook → Option (List Hook)) (hooks left : List Hook) (s : Hooks)
    → get_elem? s.events 0 ≡ some hooks
    → f hooks ≡ some left
    → update_event 0 f s ≡ some (set_event 0 left s)
unfolding update_event get_event
updated f hooks left s e k = ground arith

-- hook_remove without an event returns, and leaves the hooks of each event but the first as they are.
hook_remove_elsewhere :
    (group : Option (List ℕ)) (s : Hooks) (ev : ℕ)
    → ev ≢ 0
    → (t : Hooks) × (hook_remove group none s ≡ some t) × (get_event t ev ≡ get_event s ev)
unfolding hook_remove update_event get_event
hook_remove_elsewhere group s ev n = go (get_elem? s.events 0) refl
  where
    go :
        (o : Option (List Hook))
        → get_elem? s.events 0 ≡ o
        → (t : Hooks) × (hook_remove group none s ≡ some t) × (get_event t ev ≡ get_event s ev)
    go none e = (s, ground arith, refl)
    go (some hooks) e =
        let left = survivors (of_group (aug_of group s)) hooks in
        let k = (hook_delete-survivors (aug_of group s) hooks).0 in
        (
          set_event 0 left s,
          updated (hook_delete (aug_of group s)) hooks left s e k,
          get_elem?-set_ne s.events 0 ev left (λ z. n (sym z)),
        )
