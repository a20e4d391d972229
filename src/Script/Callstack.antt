-- ===== src/Script/Callstack.antt =====
-- cmd.c: the stack of blocks of a script, linked by the pointer `parent` of each block. A block is a
-- number; 0 is `nvs.scope`, the one block that is no local variable of cmd_call. What `clear_block`
-- was called on is `cleared`, the latest first.
use fnav.Prelude.{
  ℕ, ◌≡◌, ◌≢◌, Bool, true, Option, none, some, List, ◌∷◌, arith, ◌==◌, if◌then◌else◌,
}

pub record Callstack : Type 0 where
  pub top : Option ℕ
  pub parent : ℕ → ℕ
  pub cleared : List ℕ

-- push_callstack: the parent of the first block is the block itself.
pub push_callstack : ℕ → Callstack → Callstack
push_callstack blk s =
    let up : ℕ = elim s.top [ none ↦ blk | some t ↦ t ] in
    record s { top = some blk; parent = λ b. if b == blk then up else s.parent b }

-- pop_callstack
pub pop_callstack : Callstack → Callstack
pop_callstack s = elim s.top [
  | none ↦ s
  | some t ↦ record s {
    cleared = if t == 0 then s.cleared else t ∷ s.cleared;
    top = if t == s.parent t then none else some (s.parent t);
  }
]

-- cmd_callstack, the block whose variables are in scope.
pub cmd_callstack : Callstack → Option ℕ
cmd_callstack s = s.top

-- cmd_load of the module of a key, and cmd_unload.
pub cmd_load : Bool → Callstack → Callstack
unfolding push_callstack
cmd_load found s = if found then push_callstack 0 s else s

pub cmd_unload : Bool → Callstack → Callstack
unfolding pop_callstack
cmd_unload scope s = if scope then pop_callstack s else s

-- A function of a module that itself loads a module: `nvs.scope` is pushed a second time above the
-- block of the function, and behind the unload and the return of the function the next unload makes
-- that block the top again, whose variables are cleared already.
scope_reload_dangles :
    (blk : ℕ) (s : Callstack)
    → s.top ≡ some 0
    → blk ≢ 0
    → let t = pop_callstack (cmd_unload true (cmd_load true (push_callstack blk s))) in
      (cmd_callstack t ≡ some 0)
      × (t.cleared ≡ blk ∷ s.cleared)
      × (cmd_callstack (cmd_unload true t) ≡ some blk)
unfolding cmd_callstack cmd_unload cmd_load pop_callstack push_callstack
scope_reload_dangles blk s h k = ground arith
