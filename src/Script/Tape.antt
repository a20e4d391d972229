-- ===== src/Script/Tape.antt =====
-- cmd.c: the loop of cmd_start one round at a time, and the ends of a recorded block.
use fnav.Prelude.{ℕ, suc, ◌≡◌, refl, Bool, true, false, Option, none, some, List, arith, get_elem?}
use fnav.Script.{
  Ctl, if_, elseif, else_, nop, end, Node, root, at, Symb, Nvs, cmd_loop, cmd_step, branch,
  cmd_next, first_child,
}

-- What a script has done, if nothing faulted.
abbrev pub effect {ℓ} : {E : Type ℓ} → Option (Nvs × E) → Option E
effect none = none
effect (some (s, e)) = some e

-- An entry, by its fields.
abbrev pub entry : Ctl → ℕ → Node → Option ℕ → List ℕ → Symb
entry type st parent end_at line = record {
  type = type;
  st = st;
  parent = parent;
  end_at = end_at;
  line = line;
}

module _ {ℓ} {E : Type ℓ} (run : List ℕ → E → E) (cond : List ℕ → E → Option Bool × E) where
  pub loop_next :
      (fuel i : ℕ) (tape : List Symb) (x : Symb) (it : Option ℕ) (e e' : E)
      → get_elem? tape i ≡ some x
      → cmd_step run cond tape i x e ≡ (it, false, e')
      → cmd_loop run cond (suc fuel) tape (some i) e ≡ cmd_loop run cond fuel tape it e'
  unfolding cmd_loop
  loop_next fuel i tape x it e e' h k = ground arith

  pub loop_done :
      (fuel : ℕ) (tape : List Symb) (e : E) → cmd_loop run cond fuel tape none e ≡ some (false, e)
  unfolding cmd_loop
  loop_done fuel tape e = refl

  pub step_true :
      (tape : List Symb) (i st : ℕ) (up : Node) (end_at : Option ℕ) (c : List ℕ) (e e' : E)
      → cond c e ≡ (some true, e')
      → cmd_step run cond tape i (entry if_ st up end_at c) e ≡ (first_child tape (at i), false, e')
  unfolding cmd_step
  step_true tape i st up end_at c e e' h = rw h (unfold branch in refl)

  pub step_false :
      (tape : List Symb) (i st : ℕ) (up : Node) (end_at : Option ℕ) (c : List ℕ) (e e' : E)
      → cond c e ≡ (some false, e')
      → cmd_step run cond tape i (entry if_ st up end_at c) e ≡ (cmd_next tape i up, false, e')
  unfolding cmd_step
  step_false tape i st up end_at c e e' h = rw h (unfold branch in refl)

  pub step_nop :
      (tape : List Symb) (i st : ℕ) (up : Node) (end_at : Option ℕ) (c : List ℕ) (e : E)
      → cmd_step run cond tape i (entry nop st up end_at c) e ≡ (cmd_next tape i up, false, run c e)
  unfolding cmd_step
  step_nop tape i st up end_at c e = refl

  pub step_end :
      (tape : List Symb) (i st : ℕ) (end_at : Option ℕ) (c : List ℕ) (e : E)
      → cmd_step run cond tape i (entry end st root end_at c) e ≡ (none, false, e)
  unfolding cmd_step
  step_end tape i st end_at c e = refl

  pub step_else :
      (tape : List Symb) (i st : ℕ) (up : Node) (end_at : Option ℕ) (c : List ℕ) (e : E)
      → cmd_step run cond tape i (entry else_ st up end_at c) e
        ≡ (first_child tape (at i), false, e)
  unfolding cmd_step
  step_else tape i st up end_at c e = refl

  pub step_elseif_false :
      (tape : List Symb) (i st : ℕ) (up : Node) (end_at : Option ℕ) (c : List ℕ) (e e' : E)
      → cond c e ≡ (some false, e')
      → cmd_step run cond tape i (entry elseif st up end_at c) e ≡ (cmd_next tape i up, false, e')
  unfolding cmd_step
  step_elseif_false tape i st up end_at c e e' h = rw h (unfold branch in refl)

  pub step_inner_end :
      (tape : List Symb) (i p st : ℕ) (end_at : Option ℕ) (c : List ℕ) (e : E)
      → cmd_step run cond tape i (entry end st (at p) end_at c) e ≡ (some (suc i), false, e)
  unfolding cmd_step
  step_inner_end tape i p st end_at c e = refl
