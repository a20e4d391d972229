-- ===== src/History/Calls.antt =====
-- tui/history.c: the states that the calls of the command line reach.
use fnav.Prelude.{ℕ, ◌≡◌, refl, Option, none, some, List, [], ◌∷◌, arith}
use fnav.History.{
  Hist, Which, cmds, regs, Histories, hist_init, hist_new, hist_of, put_hist, current, update,
  hist_insert, hist_push, hist_save, hist_prev, hist_next, hist_first, Call, push, insert, save,
  prev, next, first, option, put_back, forget, call, calls,
}
use fnav.History.Keeps.{
  IsHist, IsValid, hist_insert-IsValid, hist_save-IsHist, hist_prev-IsHist, hist_next-IsHist,
  hist_first-IsHist,
}

forget-some {ℓ} :
    {A : Type ℓ} (o : Option (A × Hist)) (h : Hist)
    → forget o ≡ some h
    → (a : A) × (o ≡ some (a, h))
unfolding forget
forget-some none h e = absurd (ground arith)
forget-some (some (a, k)) h e = (a, ground arith)

current-IsHist : (s : Histories) → IsValid s → IsHist s.next_id (current s)
current-IsHist s v = go s.which
  where
    go : (w : Which) → IsHist s.next_id (hist_of w s)
    go cmds = v.cmd_ok
    go regs = v.reg_ok

update-IsValid : (s : Histories) (h : Hist) → IsValid s → IsHist s.next_id h → IsValid (update s h)
update-IsValid s h v k = go s.which
  where
    go : (w : Which) → IsValid (put_hist w s h)
    go cmds = record { cmd_ok = k; reg_ok = v.reg_ok }
    go regs = record { cmd_ok = v.cmd_ok; reg_ok = k }

put_back-IsValid :
    (s t : Histories) (o : Option Hist)
    → IsValid s
    → ((h : Hist) → o ≡ some h → IsHist s.next_id h)
    → put_back s o ≡ some t
    → IsValid t
unfolding put_back
put_back-IsValid s t none v k e = absurd (ground arith)
put_back-IsValid s t (some h) v k e =
    let q : update s h ≡ t = ground arith in rw q at (update-IsValid s h v (k h refl))

hist_push-IsValid : (w : Which) (s : Histories) → IsValid s → IsValid (hist_push w s)
unfolding hist_push
hist_push-IsValid w s v = (hist_insert-IsValid w [] s v).0

call-IsValid : (c : Call) (s t : Histories) → IsValid s → call c s ≡ some t → IsValid t
unfolding call
call-IsValid (push w) s t v e =
    let q : hist_push w s ≡ t = ground arith in rw q at (hist_push-IsValid w s v)
call-IsValid (insert w line) s t v e =
    let q : hist_insert w line s ≡ t = ground arith in rw q at (hist_insert-IsValid w line s v).0
call-IsValid (option n) s t v e =
    let q : record s { limit = n } ≡ t = ground arith in
    let w : IsValid (record s { limit = n }) = record { cmd_ok = v.cmd_ok; reg_ok = v.reg_ok } in
    rw q at w
call-IsValid (save line n) s t v e =
    put_back-IsValid s t (hist_save line n (current s)) v
      (λ h. hist_save-IsHist s.next_id line n (current s) h (current-IsHist s v)) e
call-IsValid prev s t v e =
    put_back-IsValid s t (forget (hist_prev (current s))) v
      (λ h q.
        let (r, p) = forget-some (hist_prev (current s)) h q in
        hist_prev-IsHist s.next_id (current s) h r (current-IsHist s v) p)
      e
call-IsValid next s t v e =
    put_back-IsValid s t (forget (hist_next (current s))) v
      (λ h q.
        let (r, p) = forget-some (hist_next (current s)) h q in
        hist_next-IsHist s.next_id (current s) h r (current-IsHist s v) p)
      e
call-IsValid first s t v e =
    put_back-IsValid s t (forget (hist_first (current s))) v
      (λ h q.
        let (r, p) = forget-some (hist_first (current s)) h q in
        hist_first-IsHist s.next_id (current s) h r (current-IsHist s v) p)
      e

calls_from-IsValid :
    (cs : List Call) (s t : Histories) → IsValid t → calls cs t ≡ some s → IsValid s
unfolding calls
calls_from-IsValid [] s t v e = let r : t ≡ s = ground arith in rw r at v
calls_from-IsValid (c ∷ cs) s t v e = go (call c t) refl (calls_from-IsValid cs s) e
  where
    go :
        (o : Option Histories)
        → call c t ≡ o
        → ((u : Histories) → IsValid u → calls cs u ≡ some s → IsValid s)
        → elim o [ none ↦ none | some u ↦ calls cs u ] ≡ some s
        → IsValid s
    go none k ih q = absurd (ground arith)
    go (some u) k ih q = ih u (call-IsValid c t u v k) q

-- Whatever calls the command line makes behind `hist_init`, with any changes of the option, in the
-- states that they reach the identities of each history rise below the next free one, and its `count` is the number of its
-- items.
pub calls-IsValid :
    (limit : ℕ) (cs : List Call) (s : Histories) → calls cs (hist_init limit) ≡ some s → IsValid s
unfolding hist_init hist_new
calls-IsValid limit cs s e =
    calls_from-IsValid cs s (hist_init limit)
      (record {
        cmd_ok = record { rising = omega arith; counted = refl };
        reg_ok = record { rising = omega arith; counted = refl };
      })
      e
