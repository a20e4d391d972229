-- ===== src/Hook.antt =====
-- event/hook.c: the hooks of the events, their groups, and the calls of an event's hooks.
-- Plugins, groups and internal handlers are named by numbers, which stand for their addresses. A
-- pattern is its text: regex_match is a parameter, as are the handlers and the id of a plugin.
pub mod Delete
pub mod Groups
pub mod Calls
mod Tests
use fnav.Prelude.{
  codes, ◌>>=◌, ℕ, zero, suc, ◌+◌, ◌-◌, Bool, true, false, ◌&&◌, ◌||◌, not, Option, none, some,
  List, [], ◌∷◌, ◌++◌, ltb, ◌==◌, if◌then◌else◌, length, get_elem?, set, take, drop, str_eq, ℤ,
  eqb_ℤ, negsuc, map,
}
use fnav.Text.{strip_quotes}

-- HK_CMD, HK_INTL and HK_TMP.
pub data HookType : Type 0 where
  hk_intl hk_cmd hk_tmp : HookType

-- The union of a Hook: its function, or the line of a command.
pub data HookData : Type 0 where
  fn : ℕ → HookData
  cmd : List ℕ → HookData

pub record Hook : Type 0 where
  pub bufno : ℤ
  pub type : HookType
  pub aug : Option ℕ
  pub caller : Option ℕ
  pub host : Option ℕ
  pub pat : Option (List ℕ)
  pub data_ : HookData

-- A group of aug_tbl, with its address.
pub record Augroup : Type 0 where
  pub key : List ℕ
  pub address : ℕ

-- The static state: the groups, and the hooks of each of default_events.
pub record Hooks : Type 0 where
  pub aug_tbl : List Augroup
  pub events : List (List Hook)

pub event_names : List (List ℕ)
event_names =
    codes "cursorchange"
    ∷ codes "diropen"
    ∷ codes "execclose"
    ∷ codes "execopen"
    ∷ codes "fileopen"
    ∷ codes "jump"
    ∷ codes "left"
    ∷ codes "open"
    ∷ codes "optionset"
    ∷ codes "paste"
    ∷ codes "pipe"
    ∷ codes "piperemove"
    ∷ codes "remove"
    ∷ codes "right"
    ∷ codes "windowresize"
    ∷ []

-- hook_init
pub hook_init : Hooks
unfolding event_names
hook_init = record { aug_tbl = []; events = map (λ (n : List ℕ). []) event_names }

-- event_idx: one more than the number of events for an unknown name.
pub name_idx : List ℕ → List (List ℕ) → ℕ → ℕ
name_idx key [] i = i + 1
name_idx key (n ∷ names) i = elim (str_eq n key) [ true ↦ i | false ↦ name_idx key names (suc i) ]

pub event_idx : List ℕ → ℕ
event_idx key = name_idx key event_names 0

-- get_event: the hooks of the event.
pub get_event : Hooks → ℕ → Option (List Hook)
get_event s ev = get_elem? s.events ev

abbrev pub set_event : ℕ → List Hook → Hooks → Hooks
set_event ev hooks s = record s { events = set s.events ev hooks }

-- HASH_FIND_STR and HASH_DEL of aug_tbl.
pub find_aug : List ℕ → List Augroup → Option ℕ
find_aug key [] = none
find_aug key (g ∷ tbl) = elim (str_eq g.key key) [
  | true ↦ some g.address
  | false ↦ find_aug key tbl
]

pub del_aug : List ℕ → List Augroup → List Augroup
del_aug key [] = []
del_aug key (g ∷ tbl) = elim (str_eq g.key key) [ true ↦ tbl | false ↦ g ∷ del_aug key tbl ]

pub augroup_remove : List ℕ → Hooks → Hooks
augroup_remove key s = record s { aug_tbl = del_aug key s.aug_tbl }

-- augroup_add, where `address` is what malloc returns.
pub augroup_add : List ℕ → ℕ → Hooks → Hooks
augroup_add key address s =
    let t = augroup_remove key s in
    record t { aug_tbl = t.aug_tbl ++ (record { key = key; address = address } ∷ []) }

-- The group of an optional name, NULL without a name and for one that is not found.
pub aug_of : Option (List ℕ) → Hooks → Option ℕ
aug_of none s = none
aug_of (some key) s = find_aug key s.aug_tbl

-- hook_add, with augroup_insert.
pub hook_add : Option (List ℕ) → List ℕ → Option (List ℕ) → List ℕ → ℤ → Hooks → Hooks
hook_add group event pattern expr id s = elim (get_event s (event_idx event)) [
  | none ↦ s
  | some hooks ↦
      let hook : Hook = record {
        bufno = id;
        type = hk_cmd;
        aug = aug_of group s;
        caller = none;
        host = none;
        pat = pattern;
        data_ = cmd (strip_quotes expr);
      } in
      set_event (event_idx event) (hooks ++ (hook ∷ [])) s
]

abbrev pub opt_eq : Option ℕ → Option ℕ → Bool
opt_eq none none = true
opt_eq none (some b) = false
opt_eq (some a) none = false
opt_eq (some a) (some b) = a == b

abbrev pub is_cmd : HookType → Bool
is_cmd hk_intl = false
is_cmd hk_cmd = true
is_cmd hk_tmp = false

abbrev pub is_tmp : HookType → Bool
is_tmp hk_intl = false
is_tmp hk_cmd = false
is_tmp hk_tmp = true

-- utarray_erase of one element.
pub utarray_erase : List Hook → ℕ → List Hook
utarray_erase hooks i = take i hooks ++ drop (suc i) hooks

-- The loops of hook_delete, hook_clear_host and hook_rm_container, on fuel: what `test` accepts at
-- place `i` is erased, and `i` moves on in any case.
pub erase_loop : (Hook → Bool) → ℕ → ℕ → List Hook → Option (List Hook)
erase_loop test zero i hooks = none
erase_loop test (suc fuel) i hooks = elim (get_elem? hooks i) [
  | none ↦ some hooks
  | some it ↦ erase_loop test fuel (suc i) (if test it then utarray_erase hooks i else hooks)
]

abbrev pub erase_hooks : (Hook → Bool) → List Hook → Option (List Hook)
erase_hooks test hooks = erase_loop test (suc (length hooks)) 0 hooks

pub of_group : Option ℕ → Hook → Bool
of_group aug it = is_cmd it.type && opt_eq it.aug aug

pub hook_delete : Option ℕ → List Hook → Option (List Hook)
hook_delete aug hooks = erase_hooks (of_group aug) hooks

-- What an event's loop leaves, put back.
pub update_event : ℕ → (List Hook → Option (List Hook)) → Hooks → Option Hooks
update_event ev f s = elim (get_event s ev) [
  | none ↦ some s
  | some hooks ↦ f hooks >>= λ left. some (set_event ev left s)
]

-- hook_remove. Without an event the loop begins at default_events, and `hh.next` of each event is
-- NULL, since no event is ever put in a hash table.
pub hook_remove : Option (List ℕ) → Option (List ℕ) → Hooks → Option Hooks
hook_remove group none s = update_event 0 (hook_delete (aug_of group s)) s
hook_remove group (some event) s = update_event (event_idx event) (hook_delete (aug_of group s)) s

-- hook_clear_host, whose loop over the events is the same.
pub hook_clear_host : ℤ → Hooks → Option Hooks
hook_clear_host id s = update_event 0 (erase_hooks (λ it. eqb_ℤ it.bufno id)) s

-- hook_add_intl; `none` is the NULL event that is written to.
pub hook_add_intl : ℤ → Option ℕ → Option ℕ → ℕ → ℕ → Hooks → Option Hooks
hook_add_intl id host caller f ev s = elim (get_event s ev) [
  | none ↦ none
  | some hooks ↦
      let hook : Hook = record {
        bufno = id;
        type = hk_intl;
        aug = none;
        caller = caller;
        host = host;
        pat = none;
        data_ = fn f;
      } in
      some (set_event ev (hooks ++ (hook ∷ [])) s)
]

-- hook_rm_intl, with hook_rm_container.
pub hook_rm_intl : Option ℕ → Option ℕ → ℕ → Hooks → Option Hooks
hook_rm_intl host caller ev s =
    update_event ev (erase_hooks (λ it. opt_eq it.host host && opt_eq it.caller caller)) s

-- hook_set_tmp; `none` is the NULL of utarray_back of no hooks.
pub set_last_tmp : List Hook → Option (List Hook)
set_last_tmp [] = none
set_last_tmp (h ∷ []) = some (record h { type = hk_tmp } ∷ [])
set_last_tmp (h ∷ k ∷ hooks) = set_last_tmp (k ∷ hooks) >>= λ r. some (h ∷ r)

pub hook_set_tmp : ℕ → Hooks → Option Hooks
hook_set_tmp ev s = update_event ev set_last_tmp s

-- hook_group_name and hook_event_name; `none` is NULL.
pub hook_group_name : Option (List ℕ) → Hooks → Option (List ℕ)
hook_group_name none s = none
hook_group_name (some key) s = elim (find_aug key s.aug_tbl) [ none ↦ none | some _ ↦ some key ]

pub hook_event_name : Option (List ℕ) → Option (List ℕ)
hook_event_name none = none
hook_event_name (some key) = get_elem? event_names (event_idx key)

-- HookArg: there may be none, and its argument may be NULL.
abbrev pub HookArg : Type 0
HookArg = Option (Option (List ℕ))

-- regex_match of a string that may be NULL.
unfoldable pub arg_matches : (List ℕ → List ℕ → Bool) → List ℕ → Option (List ℕ) → Bool
arg_matches regex_match pat none = false
arg_matches regex_match pat (some arg) = regex_match pat arg

-- The test of call_cmd_hook.
unfoldable pub pat_ok : (List ℕ → List ℕ → Bool) → HookArg → Hook → Bool
pat_ok regex_match none it = true
pat_ok regex_match (some arg) it = elim it.pat [
  | none ↦ true
  | some pat ↦ arg_matches regex_match pat arg
]

-- The caller that call_intl_hook passes on.
abbrev pub passed_caller : Option ℕ → Hook → Option ℕ
passed_caller none it = it.caller
passed_caller (some caller) it = some caller

-- call_hooks and send_hook_msg. `S` is the state of the program, with the hooks among it; `run` runs the
-- command of a hook (call_cmd_hook behind its test) or calls its function with a host and a caller.
module _ {ℓ} {S : Type ℓ} (hooks_of : S → Hooks) (plugin_id : ℕ → ℤ)
    (regex_match : List ℕ → List ℕ → Bool) (run_cmd : Hook → S → S)
    (run_fn : Hook → Option ℕ → Option ℕ → S → S) where
  -- One round of the loop; `none` is the fault of id_from_plugin without a host.
  pub call_hook : Option ℕ → Option ℕ → HookArg → Hook → S → Option S
  call_hook host caller arg it s =
      if is_cmd it.type
      then elim host [
        | none ↦ none
        | some h ↦
            if eqb_ℤ it.bufno (negsuc 0) || eqb_ℤ (plugin_id h) it.bufno
            then if pat_ok regex_match arg it then some (run_cmd it s) else some s
            else some s
      ]
      else if not (opt_eq it.host host) && not (is_tmp it.type)
      then some s
      else some (run_fn it host (passed_caller caller it) s)

  -- The loop from `i` on, with `n` rounds to go: the hooks are read again in each round, and a hook
  -- behind their end is NULL.
  pub call_loop : Option ℕ → Option ℕ → HookArg → ℕ → ℕ → ℕ → S → Option S
  call_loop host caller arg ev zero i s = some s
  call_loop host caller arg ev (suc n) i s = do
    hooks ← get_event (hooks_of s) ev
    it ← get_elem? hooks i
    t ← call_hook host caller arg it s
    call_loop host caller arg ev n (suc i) t

  pub send_hook_msg : ℕ → Option ℕ → Option ℕ → HookArg → S → Option S
  send_hook_msg ev host caller arg s = elim (get_event (hooks_of s) ev) [
    | none ↦ some s
    | some hooks ↦ call_loop host caller arg ev (length hooks) 0 s
  ]
