-- ===== src/Event/Ends.antt =====
-- event/event.c: when the loops over the queues end.
use fnav.Prelude.{
  ℕ, zero, suc, ◌+◌, ◌-◌, ◌/◌, ◌≤◌, ◌≡◌, refl, ap, true, false, Option, none, some, List, [], ◌∷◌,
  pos, ◌-ℤ◌, ltb_ℤ, arith, if◌then◌else◌, inl, inr, Bool-cases,
}
use fnav.Event.{
  Loop, Queue, events, draws, queue_of, put_queue, run_event, process_loop, queue_process_events,
  process_both, prepare_loop, prepare_events, queue_empty, mainloop_busy,
}

some_left :
    (n d : ℕ) → ltb_ℤ (pos 0) (pos n -ℤ pos d) ≡ true → (pos n -ℤ pos d ≡ pos (n - d)) × (1 ≤ n - d)
some_left n d k = ground arith

module _ {ℓ κ} {A : Type ℓ} {S : Type κ} (handler : A → Option (Loop A S → Loop A S))
    (uv_run : Loop A S → Loop A S) (hrtime : Loop A S → ℕ) where
  -- The weight of a queue, with the weight `w` of each event.
  unfoldable pub weight : (A → ℕ) → List A → ℕ
  weight w [] = 0
  weight w (e ∷ es) = w e + weight w es

  -- Handling an event leaves less in the queue than there was with it: what a handler queues, also
  -- while it turns the loop, weighs less than its event.
  unfoldable pub Settles : (A → ℕ) → Queue → Type (ℓ ⊔ κ)
  Settles w q =
      (e : A) (l : Loop A S)
      → suc (weight w (queue_of q (run_event handler uv_run hrtime e l)))
        ≤ w e + weight w (queue_of q l)

  queue_of-put_queue : (q : Queue) (es : List A) (l : Loop A S) → queue_of q (put_queue q es l) ≡ es
  queue_of-put_queue events es l = refl
  queue_of-put_queue draws es l = refl

  process_loop_ends :
      (w : A → ℕ) (fuel before n : ℕ) (q : Queue) (l : Loop A S)
      → Settles w q
      → 1 ≤ n
      → suc (weight w (queue_of q l)) ≤ fuel
      → (l' : Loop A S) × (process_loop handler uv_run hrtime fuel before (pos n) q l ≡ some l')
  unfolding process_loop weight Settles
  process_loop_ends w zero before n q l t o f = absurd (omega arith)
  process_loop_ends w (suc fuel) before n q l t o f =
      go (queue_of q l) refl (process_loop_ends w fuel before)
    where
      Ends : Type (ℓ ⊔ κ)
      Ends =
          (m : ℕ) (p : Queue) (k : Loop A S)
          → Settles w p
          → 1 ≤ m
          → suc (weight w (queue_of p k)) ≤ fuel
          → (k' : Loop A S) × (process_loop handler uv_run hrtime fuel before (pos m) p k ≡ some k')

      go :
          (o : List A)
          → queue_of q l ≡ o
          → Ends
          → (l' : Loop A S) × (process_loop handler uv_run hrtime (suc fuel) before (pos n) q l
              ≡ some l')
      go [] k ih = (l, ground arith)
      go (e ∷ es) k ih =
          let start = put_queue q es l in
          let m = run_event handler uv_run hrtime e start in
          let d = (hrtime m - before) / 1000000 in
          let less : suc (weight w (queue_of q m)) ≤ fuel =
            omega
              (arith, t e start, ap (weight w) (queue_of-put_queue q es l), ap (weight w) k, f) in
          elim (Bool-cases (ltb_ℤ (pos 0) (pos n -ℤ pos d))) [
            | inl u ↦
                let (left, more) = some_left n d u in
                let (l', r) = ih (n - d) q m t more less in (l', ground (arith, r))
            | inr u ↦ (m, ground arith)
          ]

  -- Where, for some weight of the events, handling an event, whatever the state of the loop, adds
  -- less to the weight of the queue than the event weighs: `queue_process_events` with a millisecond
  -- or more returns within as many rounds as the queue weighs and one, whatever the clock says.
  pub queue_process_events_ends :
      (w : A → ℕ) (n : ℕ) (q : Queue) (l : Loop A S)
      → Settles w q
      → 1 ≤ n
      → (l' : Loop A S) × (queue_process_events handler uv_run hrtime
            (suc (weight w (queue_of q l)))
            q
            (pos n)
            l
          ≡ some l')
  unfolding queue_process_events
  queue_process_events_ends w n q l t o =
      process_loop_ends w (suc (weight w (queue_of q l)))
        (if ltb_ℤ (pos 0) (pos n) then hrtime l else 0) n q l t o (omega arith)

  -- The state of a loop with nothing to do.
  pub record IsIdle (l : Loop A S) : Type (ℓ ⊔ κ) where
    pub no_events : queue_empty events l ≡ true
    pub no_draws : queue_empty draws l ≡ true
    pub stopped : l.prepared ≡ false

  prepare_loop-IsIdle :
      (rounds fuel : ℕ) (l l' : Loop A S)
      → prepare_loop handler uv_run hrtime rounds fuel l ≡ some l'
      → IsIdle l'
  unfolding prepare_loop mainloop_busy queue_empty
  prepare_loop-IsIdle zero fuel l l' h = absurd (ground arith)
  prepare_loop-IsIdle (suc rounds) fuel l l' h =
      go (process_both handler uv_run hrtime fuel l) refl (prepare_loop-IsIdle rounds fuel)
    where
      go :
          (o : Option (Loop A S))
          → process_both handler uv_run hrtime fuel l ≡ o
          → ((k k' : Loop A S)
              → prepare_loop handler uv_run hrtime rounds fuel k ≡ some k'
              → IsIdle k')
          → IsIdle l'
      go none k ih = absurd (ground arith)
      go (some m) k ih = elim (Bool-cases (mainloop_busy m)) [
        | inl b ↦ ih (uv_run m) l' (ground arith)
        | inr b ↦
            let p : l' ≡ record m { prepared = false } = ground arith in
            rw p (record { no_events = ground arith; no_draws = ground arith; stopped = refl })
      ]

  -- Whenever `prepare_events` returns from its loop, both queues are empty, the prepare handle is
  -- stopped, and the loop is marked as not running, whatever the handlers and libuv did in between.
  pub prepare_events-IsIdle :
      (rounds fuel : ℕ) (l l' : Loop A S)
      → l.running ≡ false
      → prepare_events handler uv_run hrtime rounds fuel l ≡ some l'
      → IsIdle l' × (l'.running ≡ false)
  unfolding prepare_events queue_empty
  prepare_events-IsIdle rounds fuel l l' r h =
      go (prepare_loop handler uv_run hrtime rounds fuel (record l { running = true })) refl
    where
      go :
          (o : Option (Loop A S))
          → prepare_loop handler uv_run hrtime rounds fuel (record l { running = true }) ≡ o
          → IsIdle l' × (l'.running ≡ false)
      go none k = absurd (ground arith)
      go (some m) k =
          let v = prepare_loop-IsIdle rounds fuel (record l { running = true }) m k in
          let p : l' ≡ record m { running = false } = ground arith in
          rw p
            (record { no_events = v.no_events; no_draws = v.no_draws; stopped = v.stopped }, refl)
