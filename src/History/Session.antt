-- ===== src/History/Session.antt =====
-- tui/history.c: one session of the command line, from hist_push to hist_save, and the reads that
-- meet no item.
use fnav.Prelude.{
  ℕ, ◌+◌, ◌-◌, ◌≤◌, ◌≡◌, refl, ◌||◌, none, some, List, [], ◌∷◌, ◌++◌, arith, ltb, if◌then◌else◌,
  length,
}
use fnav.History.{
  Item, Hist, Which, cmds, regs, Histories, hist_of, current, hist_set_state, hst_chk_limits,
  hist_pop, insert_line, hist_insert, hist_push, hist_save, last, drop_first, drop_last, same_line,
  set_last, before_last, lines_of,
}
use fnav.History.Order.{drop_last-snoc, before_last-snoc, set_last-snoc, lines_of-snoc}
use fnav.History.Keeps.{IsHist, IsValid, hist_set_state-IsValid}

-- What an insertion leaves of the items that were there.
abbrev pub kept : ℕ → List Item → List Item
kept limit p = if ltb (length p + 1) limit then p else drop_first p

drop_first-snoc : (x y : Item) (p : List Item) → drop_first ((x ∷ p) ++ (y ∷ [])) ≡ p ++ (y ∷ [])
drop_first-snoc x y p = refl

insert_line-p :
    (limit next : ℕ) (line : List ℕ) (h : Hist)
    → 2 ≤ limit
    → h.max ≡ limit
    → IsHist next h
    → (insert_line limit next line h).p ≡ kept limit h.p ++ (record { id = next; line = line } ∷ [])
unfolding insert_line hst_chk_limits
insert_line-p limit next line h two m v = go h.p refl
  where
    go :
        (p : List Item)
        → h.p ≡ p
        → (insert_line limit next line h).p
          ≡ kept limit h.p ++ (record { id = next; line = line } ∷ [])
    go [] q = ground (arith, v.counted)
    go (x ∷ p) q = ground (arith, v.counted)

-- What `hist_save` makes of a history that holds an item.
abbrev saved : List ℕ → ℕ → Hist → Hist
saved line n h =
    if same_line (before_last h.p) line || ltb n 1
    then record h { p = drop_last h.p; count = h.count - 1 }
    else record h { p = set_last h.p line }

hist_save-saved :
    (line : List ℕ) (n : ℕ) (h : Hist) (x : Item) (q : List Item)
    → h.p ≡ q ++ (x ∷ [])
    → hist_save line n h ≡ some (saved line n h)
unfolding hist_save hist_pop
hist_save-saved line n h x [] e = ground arith
hist_save-saved line n h x (y ∷ q) e = ground arith

lines_of-saved :
    (line : List ℕ) (n : ℕ) (h : Hist) (x : Item) (q : List Item)
    → h.p ≡ q ++ (x ∷ [])
    → lines_of (saved line n h).p
      ≡ (if same_line (last q) line || ltb n 1 then lines_of q else lines_of q ++ (line ∷ []))
lines_of-saved line n h x q e = ground (
  arith,
  before_last-snoc x q,
  drop_last-snoc x q,
  set_last-snoc x q line,
  lines_of-snoc (record x { line = line }) q,
)

-- `h'` is what a session that saves `line` leaves of a history with the items `p`.
abbrev Saves : List ℕ → ℕ → List Item → Hist → Type 0
Saves line n p h' =
    lines_of h'.p
    ≡ (if same_line (last p) line || ltb n 1 then lines_of p else lines_of p ++ (line ∷ []))

save-insert_line :
    (limit next : ℕ) (line : List ℕ) (n : ℕ) (h : Hist)
    → 2 ≤ limit
    → h.max ≡ limit
    → IsHist next h
    → (h' : Hist) × (hist_save line n (insert_line limit next [] h) ≡ some h')
      × Saves line n (kept limit h.p) h'
save-insert_line limit next line n h two m v =
    let t = insert_line limit next [] h in
    let x : Item = record { id = next; line = [] } in
    let e = insert_line-p limit next [] h two m v in
    (
      saved line n t,
      hist_save-saved line n t x (kept limit h.p) e,
      lines_of-saved line n t x (kept limit h.p) e,
    )

-- A session of the command line, opened by `hist_push` and left by `hist_save`, in a history of a
-- limit of 2 or more that was made under that limit: it returns, and the history then has the lines
-- that it had (without the oldest, if with the new line they would reach the limit), and the saved
-- line behind them, unless that is the line before it once more or has no token.
pub session :
    (w : Which) (line : List ℕ) (n : ℕ) (s : Histories)
    → 2 ≤ s.limit
    → (hist_of w s).max ≡ s.limit
    → IsValid s
    → (h' : Hist) × (hist_save line n (current (hist_push w s)) ≡ some h')
      × (lines_of h'.p ≡ (
          if same_line (last (kept s.limit (hist_of w s).p)) line || ltb n 1
          then lines_of (kept s.limit (hist_of w s).p)
          else lines_of (kept s.limit (hist_of w s).p) ++ (line ∷ [])))
unfolding hist_push hist_insert hist_set_state
session cmds line n s two m v =
    save-insert_line s.limit s.next_id line n _ two m (hist_set_state-IsValid cmds s v).cmd_ok
session regs line n s two m v =
    save-insert_line s.limit s.next_id line n _ two m (hist_set_state-IsValid regs s v).reg_ok

-- Under a limit of 0 or 1 the item that `hist_push` inserts into an empty history is removed again,
-- whatever the line, so that `hist_save` reads an item that is not there.
session_faults :
    (w : Which) (line : List ℕ) (n : ℕ) (s : Histories)
    → s.limit ≤ 1
    → (hist_of w s).max ≡ s.limit
    → (hist_of w s).p ≡ []
    → (hist_of w s).count ≡ 0
    → hist_save line n (current (hist_push w s)) ≡ none
unfolding hist_save hist_push hist_insert hist_set_state insert_line hst_chk_limits
session_faults cmds line n s small m e c = ground arith
session_faults regs line n s small m e c = ground arith
