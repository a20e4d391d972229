-- ===== src/Event/Tests.antt =====
-- event/event.c: loops whose events are numbers and whose state is their clock.
use fnav.Prelude.{
  ℕ, zero, suc, none, ◌+◌, ◌≡◌, refl, sym, append-nil, true, false, Option, some, List, [], ◌∷◌,
  ◌++◌, pos, arith,
}
use fnav.Event.{
  Loop, events, run_event, process_loop, queue_process_events, process_both, prepare_loop,
  prepare_events, mainloop_busy, queue_empty,
}
use fnav.Event.Order.{Appends, Ran, queue_process_events-order}
use fnav.Event.Ends.{weight, Settles, queue_process_events_ends}

abbrev Clocked : Type 0
Clocked = Loop ℕ ℕ

abbrev wait : ℕ → Option (Clocked → Clocked)
wait e = some (λ l. record l { env = l.env + 1000000 })

abbrev turn : Clocked → Clocked
turn l = l

abbrev clock : Clocked → ℕ
clock l = l.env

abbrev nothing : ℕ → Clocked → List ℕ
nothing e l = []

abbrev two_events : Clocked
two_events = record { eventq = 3 ∷ 4 ∷ []; drawq = []; running = false; prepared = true; env = 0 }

abbrev after_two : Clocked
after_two = record { eventq = []; drawq = []; running = false; prepared = true; env = 2000000 }

abbrev idle : Clocked
idle = record { eventq = []; drawq = []; running = false; prepared = false; env = 2000000 }

wait-Appends : Appends wait turn clock events nothing
unfolding run_event
wait-Appends e l = sym (append-nil l.eventq)

-- An event that queues those below it, one after the other.
abbrev count_down : ℕ → Option (Clocked → Clocked)
count_down zero = none
count_down (suc e) = some (λ l. record l { eventq = l.eventq ++ (e ∷ []) })

heavier :
    (es : List ℕ) (e : ℕ)
    → weight count_down turn clock suc (es ++ (e ∷ []))
      ≡ suc e + weight count_down turn clock suc es
unfolding weight
heavier [] e = omega arith
heavier (x ∷ es) e = omega (arith, heavier es e)

count_down-Settles : Settles count_down turn clock suc events
unfolding Settles run_event
count_down-Settles zero l = omega arith
count_down-Settles (suc e) l = omega (arith, heavier l.eventq e)

two_events_run : queue_process_events wait turn clock 9 events (pos 10) two_events ≡ some after_two
unfolding queue_process_events process_loop run_event
two_events_run = refl

queue_process_events-order_example :
    (hs : List ℕ) × (new : List ℕ) × Ran wait turn clock events nothing two_events hs new after_two
    × (hs ++ [] ≡ (3 ∷ 4 ∷ []) ++ new)
queue_process_events-order_example =
    queue_process_events-order wait turn clock events nothing 9 (pos 10) two_events after_two
      wait-Appends two_events_run

queue_process_events_ends_example :
    (l' : Clocked) × (queue_process_events count_down turn clock
        (suc (weight count_down turn clock suc two_events.eventq))
        events
        (pos 10)
        two_events
      ≡ some l')
queue_process_events_ends_example =
    queue_process_events_ends count_down turn clock suc 10 events two_events count_down-Settles
      (omega arith)

prepare_run : prepare_events wait turn clock 2 9 two_events ≡ some idle
unfolding prepare_events prepare_loop process_both queue_process_events process_loop run_event
    mainloop_busy queue_empty
prepare_run = refl
