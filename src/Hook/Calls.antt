-- ===== src/Hook/Calls.antt =====
-- event/hook.c: which hooks send_hook_msg calls.
use fnav.Prelude.{
  ℕ, ◌≡◌, Bool, ◌&&◌, ◌||◌, Option, some, List, [], ◌∷◌, if◌then◌else◌, ℤ, eqb_ℤ, negsuc,
}
use fnav.Hook.{HookArg, Hook, Hooks, is_cmd, is_tmp, opt_eq, get_event, pat_ok, passed_caller}

module _ {ℓ} {S : Type ℓ} (hooks_of : S → Hooks) (plugin_id : ℕ → ℤ)
    (regex_match : List ℕ → List ℕ → Bool) (run_cmd : Hook → S → S)
    (run_fn : Hook → Option ℕ → Option ℕ → S → S) where
  -- The hook is meant for the plugin `h` and the argument.
  pub is_meant : ℕ → HookArg → Hook → Bool
  is_meant h arg it =
      if is_cmd it.type
      then (eqb_ℤ it.bufno (negsuc 0) || eqb_ℤ (plugin_id h) it.bufno) && pat_ok regex_match arg it
      else opt_eq it.host (some h) || is_tmp it.type

  -- A call of it.
  pub called : ℕ → Option ℕ → Hook → S → S
  called h caller it s =
      if is_cmd it.type then run_cmd it s else run_fn it (some h) (passed_caller caller it) s

  -- The hooks of a list that are meant, called in order.
  pub call_meant : ℕ → Option ℕ → HookArg → List Hook → S → S
  call_meant h caller arg [] s = s
  call_meant h caller arg (it ∷ hooks) s =
      call_meant h caller arg hooks (if is_meant h arg it then called h caller it s else s)

  -- A handler does not change the hooks of the event.
  abbrev pub Stable : ℕ → Type ℓ
  Stable ev =
      ((it : Hook) (s : S) → get_event (hooks_of (run_cmd it s)) ev ≡ get_event (hooks_of s) ev)
      × ((it : Hook) (h c : Option ℕ) (s : S)
          → get_event (hooks_of (run_fn it h c s)) ev ≡ get_event (hooks_of s) ev)
