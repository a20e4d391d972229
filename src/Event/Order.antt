-- ===== src/Event/Order.antt =====
-- event/event.c: the order in which the events of a queue are handled.
use fnav.Prelude.{
  ℕ, zero, suc, ◌-◌, ◌/◌, ◌≡◌, refl, sym, ap, ◌∙◌, Option, some, List, [], ◌∷◌, ◌++◌, ℤ, pos, ◌-ℤ◌,
  ltb_ℤ, append_assoc, append-nil, arith, inl, inr, Bool-cases,
}
use fnav.Event.{
  Loop, Queue, events, draws, queue_of, put_queue, run_event, process_loop, queue_process_events,
}

module _ {ℓ κ} {A : Type ℓ} {S : Type κ} (handler : A → Option (Loop A S → Loop A S))
    (uv_run : Loop A S → Loop A S) (hrtime : Loop A S → ℕ) (q : Queue)
    (added : A → Loop A S → List A) where
  -- A handler leaves the queue with what it adds at its end.
  abbrev pub Appends : Type (ℓ ⊔ κ)
  Appends =
      (e : A) (l : Loop A S)
      → queue_of q (run_event handler uv_run hrtime e l) ≡ queue_of q l ++ added e l

  -- From one state to another the events of the first list are popped and handled, one after the
  -- other, each as the head of the queue; the second list is what they add.
  pub data Ran : Loop A S → List A → List A → Loop A S → Type (ℓ ⊔ κ) where
    stop : (l : Loop A S) → Ran l [] [] l
    next :
        (l : Loop A S) (e : A) (es hs new : List A) (l' : Loop A S)
        → queue_of q l ≡ e ∷ es
        → Ran (run_event handler uv_run hrtime e (put_queue q es l)) hs new l'
        → Ran l (e ∷ hs) (added e (put_queue q es l) ++ new) l'

  queue_of-put_queue : (es : List A) (l : Loop A S) → queue_of q (put_queue q es l) ≡ es
  queue_of-put_queue es l = go q
    where
      go : (p : Queue) → queue_of p (put_queue p es l) ≡ es
      go events = refl
      go draws = refl

  -- What a run leaves: nothing is lost, doubled or overtaken.
  Ran-keeps :
      (l : Loop A S) (hs new : List A) (l' : Loop A S)
      → Appends
      → Ran l hs new l'
      → hs ++ queue_of q l' ≡ queue_of q l ++ new
  Ran-keeps l [] [] l' a (stop k) = sym (append-nil (queue_of q k))
  Ran-keeps l hs new l' a (next k e es gs fresh k' h r) =
      let t = put_queue q es k in
      ap (λ x. e ∷ x)
        (Ran-keeps (run_event handler uv_run hrtime e t) gs fresh k' a r
          ∙ ap (λ x. x ++ fresh) (a e t ∙ ap (λ x. x ++ added e t) (queue_of-put_queue es k))
          ∙ append_assoc es (added e t) fresh)
      ∙ ap (λ x. x ++ (added e t ++ fresh)) (sym h)

  Returns : Loop A S → Loop A S → Type (ℓ ⊔ κ)
  Returns l l' = (hs : List A) × (new : List A) × Ran l hs new l'

  process_loop-Ran :
      (fuel before : ℕ) (remaining : ℤ) (l l' : Loop A S)
      → process_loop handler uv_run hrtime fuel before remaining q l ≡ some l'
      → Returns l l'
  unfolding process_loop Returns
  process_loop-Ran zero before remaining l l' h = absurd (ground arith)
  process_loop-Ran (suc fuel) before remaining l l' h =
      go (queue_of q l) refl (process_loop-Ran fuel before)
    where
      Run : Type (ℓ ⊔ κ)
      Run =
          (r : ℤ) (k k' : Loop A S)
          → process_loop handler uv_run hrtime fuel before r q k ≡ some k'
          → Returns k k'

      go : (o : List A) → queue_of q l ≡ o → Run → Returns l l'
      go [] k ih = let p : l' ≡ l = ground arith in rw p ([], [], stop l)
      go (e ∷ es) k ih = elim (Bool-cases (ltb_ℤ (pos 0) remaining)) [
        | inr t ↦ ih remaining l l' (rw (k, t, process_loop) at h)
        | inl t ↦
            let m = run_event handler uv_run hrtime e (put_queue q es l) in
            let left = remaining -ℤ pos ((hrtime m - before) / 1000000) in
            let (hs, new, r) : Returns m l' = elim (Bool-cases (ltb_ℤ (pos 0) left)) [
              | inl u ↦ ih left m l' (ground arith)
              | inr u ↦ let p : l' ≡ m = ground arith in rw p ([], [], stop m)
            ] in
            (e ∷ hs, added e (put_queue q es l) ++ new, next l e es hs new l' k r)
      ]

  -- Whenever the loop over a queue returns, it has handled events one after the other, each as the
  -- head of the queue; and if each handler leaves the queue with what it adds at its end, the handled
  -- events and behind them those that are left are exactly the events that were in the queue and
  -- behind them those that were added, in this order: none is lost, doubled or overtaken.
  pub queue_process_events-order :
      (fuel : ℕ) (ms : ℤ) (l l' : Loop A S)
      → Appends
      → queue_process_events handler uv_run hrtime fuel q ms l ≡ some l'
      → (hs : List A) × (new : List A) × Ran l hs new l'
        × (hs ++ queue_of q l' ≡ queue_of q l ++ new)
  unfolding queue_process_events Returns
  queue_process_events-order fuel ms l l' a h =
      let (hs, new, r) = process_loop-Ran fuel _ ms l l' h in
      (hs, new, r, Ran-keeps l hs new l' a r)
