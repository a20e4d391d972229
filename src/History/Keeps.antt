-- ===== src/History/Keeps.antt =====
-- tui/history.c: the invariant of a history, and its bound.
use fnav.Prelude.{
  ℕ, suc, ◌<◌, ◌≡◌, refl, Option, none, some, List, [], ◌∷◌, arith, ltb, length, length-append,
  Bool-cases, inl, inr, ◌||◌,
}
use fnav.History.{
  Item, Hist, Which, cmds, regs, Histories, hist_init, hist_new, hist_set_state, hst_chk_limits,
  hist_pop, insert_line, hist_insert, hist_save, hist_prev, hist_next, hist_first, step_to,
  find_prev, find_next, same_line, before_last,
}
use fnav.History.Order.{
  Span, Span-raise, Span-snoc, Span-drop_first, Span-drop_last, Span-set_last, length-drop_last,
  length-set_last, length-drop_first,
}

-- The identities rise below the next free one, and `count` is the length of the list.
pub record IsHist (next : ℕ) (h : Hist) : Type 0 where
  pub rising : Span 0 next h.p
  pub counted : h.count ≡ length h.p

pub record IsValid (s : Histories) : Type 0 where
  pub cmd_ok : IsHist s.next_id s.cmd_hist
  pub reg_ok : IsHist s.next_id s.reg_hist

hst_chk_limits-IsHist :
    (limit next : ℕ) (h : Hist)
    → 0 < length h.p
    → IsHist next h
    → IsHist next (hst_chk_limits limit h)
unfolding hst_chk_limits
hst_chk_limits-IsHist limit next h pos v =
    ground (arith, Span-drop_first 0 next h.p v.rising, length-drop_first h.p)

insert_line-IsHist :
    (limit next : ℕ) (line : List ℕ) (h : Hist)
    → IsHist next h
    → IsHist (suc next) (insert_line limit next line h)
unfolding insert_line
insert_line-IsHist limit next line h v =
    let x : Item = record { id = next; line = line } in
    hst_chk_limits-IsHist limit (suc next) _ (omega (arith, length-append h.p (x ∷ []))) (record {
      rising = Span-snoc 0 next h.p x refl v.rising;
      counted = omega (arith, v.counted, length-append h.p (x ∷ []));
    })

IsHist-raise : (next : ℕ) (h : Hist) → IsHist next h → IsHist (suc next) h
IsHist-raise next h v = record { rising = Span-raise 0 next h.p v.rising; counted = v.counted }

pub hist_set_state-IsValid : (w : Which) (s : Histories) → IsValid s → IsValid (hist_set_state w s)
unfolding hist_set_state
hist_set_state-IsValid cmds s v = record {
  cmd_ok = record { rising = v.cmd_ok.rising; counted = v.cmd_ok.counted };
  reg_ok = v.reg_ok;
}
hist_set_state-IsValid regs s v = record {
  cmd_ok = v.cmd_ok;
  reg_ok = record { rising = v.reg_ok.rising; counted = v.reg_ok.counted };
}

-- Both histories start empty, and every insertion (hist_push, hist_insert) keeps them: the
-- identities rise, and `count` is the number of the items.
pub hist_insert-IsValid :
    (w : Which) (line : List ℕ) (s : Histories)
    → IsValid s
    → IsValid (hist_insert w line s) × IsValid (hist_init s.limit)
unfolding hist_insert hist_set_state hist_init hist_new
hist_insert-IsValid cmds line s v = (
  record {
    cmd_ok = insert_line-IsHist s.limit s.next_id line _ (hist_set_state-IsValid cmds s v).cmd_ok;
    reg_ok = IsHist-raise s.next_id s.reg_hist v.reg_ok;
  },
  omega arith,
)
hist_insert-IsValid regs line s v = (
  record {
    cmd_ok = IsHist-raise s.next_id s.cmd_hist v.cmd_ok;
    reg_ok = insert_line-IsHist s.limit s.next_id line _ (hist_set_state-IsValid regs s v).reg_ok;
  },
  omega arith,
)

hist_pop-IsHist : (next : ℕ) (h h' : Hist) → IsHist next h → hist_pop h ≡ some h' → IsHist next h'
unfolding hist_pop
hist_pop-IsHist next h h' v e = go h.p refl
  where
    go : (p : List Item) → h.p ≡ p → IsHist next h'
    go [] q = absurd (ground arith)
    go (x ∷ xs) q = ground (arith, Span-drop_last 0 next h.p v.rising, length-drop_last x xs)

pub hist_save-IsHist :
    (next : ℕ) (line : List ℕ) (n : ℕ) (h h' : Hist)
    → IsHist next h
    → hist_save line n h ≡ some h'
    → IsHist next h'
unfolding hist_save
hist_save-IsHist next line n h h' v e = go h.p refl
  where
    go : (p : List Item) → h.p ≡ p → IsHist next h'
    go [] q = absurd (ground arith)
    go (x ∷ xs) q = elim (Bool-cases (same_line (before_last (x ∷ xs)) line || ltb n 1)) [
      | inl t ↦ hist_pop-IsHist next h h' v (ground arith)
      | inr t ↦
          ground (arith, Span-set_last 0 next h.p line v.rising, length-set_last (x ∷ xs) line)
    ]

step_to-p :
    (h : Hist) (o : Option (Option Item)) (r : Option (List ℕ)) (h' : Hist)
    → step_to h o ≡ some (r, h')
    → (h'.p ≡ h.p) × (h'.count ≡ h.count)
step_to-p h none r h' e = absurd (ground arith)
step_to-p h (some none) r h' e = ground arith
step_to-p h (some (some x)) r h' e = ground arith

pub hist_prev-IsHist :
    (next : ℕ) (h h' : Hist) (r : Option (List ℕ))
    → IsHist next h
    → hist_prev h ≡ some (r, h')
    → IsHist next h'
unfolding hist_prev
hist_prev-IsHist next h h' r v e = go h.cur e
  where
    go :
        (c : Option ℕ)
        → elim c [ none ↦ none | some id ↦ step_to h (find_prev id none h.p) ] ≡ some (r, h')
        → IsHist next h'
    go none q = absurd (ground arith)
    go (some id) q = let p = step_to-p h (find_prev id none h.p) r h' q in ground (arith, p)

pub hist_next-IsHist :
    (next : ℕ) (h h' : Hist) (r : Option (List ℕ))
    → IsHist next h
    → hist_next h ≡ some (r, h')
    → IsHist next h'
unfolding hist_next
hist_next-IsHist next h h' r v e = go h.cur e
  where
    go :
        (c : Option ℕ)
        → elim c [ none ↦ none | some id ↦ step_to h (find_next id h.p) ] ≡ some (r, h')
        → IsHist next h'
    go none q = absurd (ground arith)
    go (some id) q = let p = step_to-p h (find_next id h.p) r h' q in ground (arith, p)

pub hist_first-IsHist :
    (next : ℕ) (h h' : Hist) (l : List ℕ)
    → IsHist next h
    → hist_first h ≡ some (l, h')
    → IsHist next h'
unfolding hist_first
hist_first-IsHist next h h' l v e = go h.p refl
  where
    go : (p : List Item) → h.p ≡ p → IsHist next h'
    go [] q = absurd (ground arith)
    go (x ∷ xs) q = ground (arith, v.rising, v.counted)

-- While the option keeps a value of 1 or more and the history was made under it, an insertion never
-- fills the history: less than `limit` items stay.
pub count-insert_line :
    (limit next : ℕ) (line : List ℕ) (h : Hist)
    → h.max ≡ limit
    → h.count < limit
    → ((insert_line limit next line h).count < limit)
      × ((insert_line limit next line h).max ≡ limit)
unfolding insert_line hst_chk_limits
count-insert_line limit next line h m c = ground arith
