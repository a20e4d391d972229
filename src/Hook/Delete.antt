-- ===== src/Hook/Delete.antt =====
-- event/hook.c: what the loops that erase hooks leave.
use fnav.Prelude.{
  ℕ, zero, suc, ◌<◌, ◌≡◌, ◌∙◌, sym, ap, refl, Bool, true, false, Option, none, some, List, [], ◌∷◌,
  ◌++◌, if◌then◌else◌, length, get_elem?, get_elem?-middle, get_elem?-end, get_elem?-past,
  snoc_length, snoc_append, arith, append-nil, Bool-cases, inl, inr,
}
use fnav.Hook.{Hook, utarray_erase, erase_loop, erase_hooks, of_group, hook_delete}

module _ (test : Hook → Bool) where
  -- The hook behind one that is erased is passed over.
  pub survivors : List Hook → List Hook
  survivors [] = []
  survivors (h ∷ []) = if test h then [] else h ∷ []
  survivors (h ∷ k ∷ r) = if test h then k ∷ survivors r else h ∷ survivors (k ∷ r)

  -- The hooks that the test refuses.
  pub others : List Hook → List Hook
  others [] = []
  others (h ∷ r) = if test h then others r else h ∷ others r

  -- No two neighbours are accepted by the test.
  abbrev pub Apart : List Hook → Type 0
  Apart [] = Unit
  Apart (h ∷ []) = Unit
  Apart (h ∷ k ∷ r) = (test h ≡ true → test k ≡ false) × Apart (k ∷ r)

  utarray_erase-middle :
      (done : List Hook) (h : Hook) (r : List Hook)
      → utarray_erase (done ++ h ∷ r) (length done) ≡ done ++ r
  unfolding utarray_erase
  utarray_erase-middle [] h r = refl
  utarray_erase-middle (d ∷ done) h r = ap (d ∷◌) (utarray_erase-middle done h r)

  loop_ends :
      (fuel i : ℕ) (hooks : List Hook)
      → get_elem? hooks i ≡ none
      → erase_loop test (suc fuel) i hooks ≡ some hooks
  unfolding erase_loop
  loop_ends fuel i hooks e = ground arith

  loop_erases :
      (fuel i : ℕ) (hooks : List Hook) (it : Hook)
      → get_elem? hooks i ≡ some it
      → test it ≡ true
      → erase_loop test (suc fuel) i hooks ≡ erase_loop test fuel (suc i) (utarray_erase hooks i)
  unfolding erase_loop
  loop_erases fuel i hooks it e t = ground arith

  loop_keeps :
      (fuel i : ℕ) (hooks : List Hook) (it : Hook)
      → get_elem? hooks i ≡ some it
      → test it ≡ false
      → erase_loop test (suc fuel) i hooks ≡ erase_loop test fuel (suc i) hooks
  unfolding erase_loop
  loop_keeps fuel i hooks it e t = ground arith

  -- The loop past `h`, by what it does behind `done` and `h`.
  loop_past :
      (fuel : ℕ) (done : List Hook) (h : Hook) (r s : List Hook)
      → erase_loop test fuel (length (done ++ (h ∷ []))) ((done ++ (h ∷ [])) ++ r)
        ≡ some ((done ++ (h ∷ [])) ++ s)
      → erase_loop test fuel (suc (length done)) (done ++ h ∷ r) ≡ some (done ++ h ∷ s)
  loop_past fuel done h r s e =
      rw (sym (snoc_length done h), sym (snoc_append done h r), sym (snoc_append done h s)) e

  erase_loop-survivors :
      (fuel : ℕ) (done rest : List Hook)
      → length rest < fuel
      → erase_loop test fuel (length done) (done ++ rest) ≡ some (done ++ survivors rest)
  unfolding survivors
  erase_loop-survivors zero done rest f = absurd (omega arith)
  erase_loop-survivors (suc fuel) done [] f =
      loop_ends fuel (length done) (done ++ []) (rw (append-nil done) (get_elem?-end done))
  erase_loop-survivors (suc zero) done (h ∷ []) f = absurd (omega arith)
  erase_loop-survivors (suc (suc fuel)) done (h ∷ []) f = elim (Bool-cases (test h)) [
    | inl t ↦
        let a =
          loop_erases (suc fuel) (length done) (done ++ h ∷ []) h (get_elem?-middle done h []) t in
        let b = loop_ends fuel (suc (length done)) done (get_elem?-past done) in
        rw t (a ∙ rw (utarray_erase-middle done h [], append-nil done) b)
    | inr t ↦
        let a =
          loop_keeps (suc fuel) (length done) (done ++ h ∷ []) h (get_elem?-middle done h []) t in
        rw t (
          a
          ∙ loop_past (suc fuel) done h [] []
              (erase_loop-survivors (suc fuel) (done ++ (h ∷ [])) [] (omega arith)))
  ]
  erase_loop-survivors (suc fuel) done (h ∷ k ∷ r) f = elim (Bool-cases (test h)) [
    | inl t ↦
        let a =
          loop_erases fuel (length done) (done ++ h ∷ k ∷ r) h (get_elem?-middle done h (k ∷ r))
            t in
        let b =
          loop_past fuel done k r (survivors r)
            (erase_loop-survivors fuel (done ++ (k ∷ [])) r (omega arith)) in
        rw t (a ∙ rw (utarray_erase-middle done h (k ∷ r)) b)
    | inr t ↦
        let a =
          loop_keeps fuel (length done) (done ++ h ∷ k ∷ r) h (get_elem?-middle done h (k ∷ r)) t in
        rw t (
          a
          ∙ loop_past fuel done h (k ∷ r) (survivors (k ∷ r))
              (erase_loop-survivors fuel (done ++ (h ∷ [])) (k ∷ r) (omega arith)))
  ]

  pub erase_hooks-survivors : (hooks : List Hook) → erase_hooks test hooks ≡ some (survivors hooks)
  erase_hooks-survivors hooks = erase_loop-survivors (suc (length hooks)) [] hooks (omega arith)

  pub others-survivors : (hooks : List Hook) → others (survivors hooks) ≡ others hooks
  unfolding survivors others
  others-survivors [] = refl
  others-survivors (h ∷ []) = ground arith
  others-survivors (h ∷ k ∷ r) = ground (arith, others-survivors r, others-survivors (k ∷ r))

  Apart-tail : (h : Hook) (r : List Hook) → Apart (h ∷ r) → Apart r
  Apart-tail h [] a = tt
  Apart-tail h (k ∷ r) a = a.1

  pub survivors-others : (hooks : List Hook) → Apart hooks → survivors hooks ≡ others hooks
  unfolding survivors others
  survivors-others [] a = refl
  survivors-others (h ∷ []) a = ground arith
  survivors-others (h ∷ k ∷ r) a = elim (Bool-cases (test h)) [
    | inl t ↦ rw (t, a.0 t) (ap (k ∷◌) (survivors-others r (Apart-tail k r a.1)))
    | inr t ↦ rw t (ap (h ∷◌) (survivors-others (k ∷ r) a.1))
  ]

-- hook_delete returns, and leaves the hooks that are not of the group, in order, and those of the
-- group that stand behind one that it has erased.
pub hook_delete-survivors :
    (aug : Option ℕ) (hooks : List Hook)
    → (hook_delete aug hooks ≡ some (survivors (of_group aug) hooks))
      × (others (of_group aug) (survivors (of_group aug) hooks) ≡ others (of_group aug) hooks)
unfolding hook_delete
hook_delete-survivors aug hooks =
    (erase_hooks-survivors (of_group aug) hooks, others-survivors (of_group aug) hooks)

-- Where no two hooks of the group are neighbours, hook_delete leaves none of the group.
hook_delete-others :
    (aug : Option ℕ) (hooks : List Hook)
    → Apart (of_group aug) hooks
    → hook_delete aug hooks ≡ some (others (of_group aug) hooks)
hook_delete-others aug hooks a =
    (hook_delete-survivors aug hooks).0 ∙ ap some (survivors-others (of_group aug) hooks a)
