-- ===== src/Event.antt =====
-- event/event.c: the two queues of the main loop and the loops that empty them. A QUEUE is a list, the
-- head first. The handlers of the events, the loop of libuv and its clock are parameters: a handler
-- may do anything to the state, since it may queue events and turn the loop once more. `none` is the
-- end of the fuel.
pub mod Order
pub mod Ends
mod Tests
use fnav.Prelude.{
  ℕ, zero, suc, ◌-◌, ◌/◌, Bool, true, false, ◌&&◌, not, Option, none, some, List, [], ◌∷◌, ◌++◌, ℤ,
  pos, ◌-ℤ◌, ltb_ℤ, if◌then◌else◌,
}

-- struct loop: the queues, `running`, whether the prepare handle is started, and the rest.
pub record Loop {ℓ κ} (A : Type ℓ) (S : Type κ) : Type (ℓ ⊔ κ) where
  pub eventq : List A
  pub drawq : List A
  pub running : Bool
  pub prepared : Bool
  pub env : S

pub data Queue : Type 0 where
  events draws : Queue

-- TIMEOUT
abbrev pub timeout : ℤ
timeout = pos 10

abbrev pub is_empty {ℓ} : {A : Type ℓ} → List A → Bool
is_empty [] = true
is_empty (e ∷ es) = false

module _ {ℓ κ} {A : Type ℓ} {S : Type κ} where
  abbrev pub queue_of : Queue → Loop A S → List A
  queue_of events l = l.eventq
  queue_of draws l = l.drawq

  abbrev pub put_queue : Queue → List A → Loop A S → Loop A S
  put_queue events q l = record l { eventq = q }
  put_queue draws q l = record l { drawq = q }

  -- queue_push
  pub queue_push : Queue → A → Loop A S → Loop A S
  queue_push q e l = put_queue q (queue_of q l ++ (e ∷ [])) l

  -- queue_empty
  pub queue_empty : Queue → Loop A S → Bool
  queue_empty q l = is_empty (queue_of q l)

  -- mainloop_busy
  pub mainloop_busy : Loop A S → Bool
  unfolding queue_empty
  mainloop_busy l = not (queue_empty events l && queue_empty draws l)

  -- queue_put_event
  pub queue_put_event : Queue → A → Loop A S → Loop A S
  unfolding queue_push
  queue_put_event q e l =
      let l' = queue_push q e l in if not l'.running then record l' { prepared = true } else l'

  module _ (handler : A → Option (Loop A S → Loop A S)) (uv_run : Loop A S → Loop A S)
      (hrtime : Loop A S → ℕ) where
    -- e.handler(e.argv), if there is a handler.
    pub run_event : A → Loop A S → Loop A S
    run_event e l = elim (handler e) [ none ↦ l | some h ↦ h l ]

    -- The loop of queue_process_events. With no time left at its start it neither pops nor breaks.
    pub process_loop : ℕ → ℕ → ℤ → Queue → Loop A S → Option (Loop A S)
    unfolding run_event
    process_loop zero before remaining q l = none
    process_loop (suc fuel) before remaining q l = elim (queue_of q l) [
      | [] ↦ some l
      | e ∷ es ↦ elim (ltb_ℤ (pos 0) remaining) [
        | false ↦ process_loop fuel before remaining q l
        | true ↦
            let l' = run_event e (put_queue q es l) in
            let left = remaining -ℤ pos ((hrtime l' - before) / 1000000) in
            elim (ltb_ℤ (pos 0) left) [
              | true ↦ process_loop fuel before left q l'
              | false ↦ some l'
            ]
      ]
    ]

    pub queue_process_events : ℕ → Queue → ℤ → Loop A S → Option (Loop A S)
    queue_process_events fuel q ms l =
        process_loop fuel (if ltb_ℤ (pos 0) ms then hrtime l else 0) ms q l

    -- The body of the loop of prepare_events, up to the test.
    pub process_both : ℕ → Loop A S → Option (Loop A S)
    process_both fuel l = elim (queue_process_events fuel events timeout l) [
      | none ↦ none
      | some l' ↦ queue_process_events fuel draws timeout l'
    ]

    -- The loop of prepare_events, with fuel for its rounds and for the loops in it.
    pub prepare_loop : ℕ → ℕ → Loop A S → Option (Loop A S)
    prepare_loop zero fuel l = none
    prepare_loop (suc rounds) fuel l = elim (process_both fuel l) [
      | none ↦ none
      | some l' ↦ elim (mainloop_busy l') [
        | false ↦ some (record l' { prepared = false })
        | true ↦ prepare_loop rounds fuel (uv_run l')
      ]
    ]

    pub prepare_events : ℕ → ℕ → Loop A S → Option (Loop A S)
    prepare_events rounds fuel l =
        if l.running
        then some l
        else elim (prepare_loop rounds fuel (record l { running = true })) [
          | none ↦ none
          | some l' ↦ some (record l' { running = false })
        ]

    -- event_cycle_once; both runs of libuv are `uv_run`.
    pub event_cycle_once : ℕ → Loop A S → Option (Loop A S)
    event_cycle_once fuel l = elim (process_both fuel (record l { running = false })) [
      | none ↦ none
      | some l' ↦ some (record (uv_run (uv_run l')) { running = l.running })
    ]
