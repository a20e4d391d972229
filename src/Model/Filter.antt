-- ===== src/Model/Filter.antt =====
-- filter.c: which lines a filter leaves.
use fnav.Prelude.{
  ℕ, zero, suc, ◌+◌, ◌≡◌, refl, sym, ap, ◌∙◌, true, false, Option, some, List, [], ◌∷◌, ◌++◌,
  if◌then◌else◌, length, get_elem?, get_elem?-middle, append-nil, reverse, arith, Bool-cases, inl,
  inr, ℤ, snoc_append, snoc_length, Last, nothing, last, last_of,
}
use mathlib.Core.List.{reverse_aux, reverse_aux-eq}
use fnav.Model.{
  Model, erase_at, generate_lines, model_clear_filter, model_filter_line, model_str_line,
  regex_match, filter_loop, filter_build, full_lines,
}

module _ {R : Type 0} (fname : R → Option (List ℕ)) (exec : List ℕ → ℤ) where
  -- The records whose line matches, and the number of the others.
  unfoldable pub matching : List R → List R
  matching [] = []
  matching (r ∷ rs) = if regex_match exec (fname r) then r ∷ matching rs else matching rs

  unfoldable pub left_out : List R → ℕ
  left_out [] = 0
  left_out (r ∷ rs) = if regex_match exec (fname r) then left_out rs else suc (left_out rs)

  erase_middle :
      (pre : List R) (r : R) (post : List R) → erase_at (pre ++ r ∷ post) (length pre) ≡ pre ++ post
  unfolding erase_at
  erase_middle [] r post = refl
  erase_middle (p ∷ pre) r post = ap (p ∷◌) (erase_middle pre r post)

  matching-snoc :
      (pre : List R) (r : R)
      → matching (pre ++ (r ∷ []))
        ≡ (if regex_match exec (fname r) then matching pre ++ (r ∷ []) else matching pre)
  unfolding matching
  matching-snoc [] r = ground arith
  matching-snoc (p ∷ pre) r = ground (arith, matching-snoc pre r)

  left_out-snoc :
      (pre : List R) (r : R)
      → left_out (pre ++ (r ∷ []))
        ≡ (if regex_match exec (fname r) then left_out pre else suc (left_out pre))
  unfolding left_out
  left_out-snoc [] r = ground arith
  left_out-snoc (p ∷ pre) r = ground (arith, left_out-snoc pre r)

  -- One round of the loop.
  round_keeps :
      (i : ℕ) (m : Model R) (count : ℕ)
      → regex_match exec (model_str_line fname m i) ≡ true
      → filter_loop fname exec (suc i) (m, count) ≡ filter_loop fname exec i (m, count)
  unfolding filter_loop
  round_keeps i m count e = rw e refl

  round_drops :
      (i : ℕ) (m : Model R) (count : ℕ)
      → regex_match exec (model_str_line fname m i) ≡ false
      → filter_loop fname exec (suc i) (m, count)
        ≡ filter_loop fname exec i (model_filter_line i m, count + 1)
  unfolding filter_loop
  round_drops i m count e = rw e refl

  line_at :
      (pre : List R) (r : R) (post : List R) (m : Model R) (i : ℕ)
      → m.lines ≡ pre ++ r ∷ post
      → length pre ≡ i
      → model_str_line fname m i ≡ fname r
  unfolding model_str_line
  line_at pre r post m i l e =
      let g : get_elem? m.lines i ≡ some r =
        ap (λ xs. get_elem? xs i) l ∙ rw (← e) (get_elem?-middle pre r post) in
      rw (model_str_line, g) refl

  same_pair :
      (m : Model R) (x x' : List R) (c c' : ℕ)
      → x ≡ x'
      → c ≡ c'
      → ◌≡◌ {A = Model R × ℕ} (record m { lines = x }, c) (record m { lines = x' }, c')
  same_pair m x x' c c' e f =
      ap (λ y. (record m { lines = y }, c)) e ∙ ap (λ y. (record m { lines = x' }, y)) f

  keeps_lines :
      (pre : List R) (r : R) (post : List R)
      → regex_match exec (fname r) ≡ true
      → (matching pre ++ r ∷ post ≡ matching (pre ++ (r ∷ [])) ++ post)
        × (left_out pre ≡ left_out (pre ++ (r ∷ [])))
  keeps_lines pre r post k = (
    rw (matching-snoc pre r, k) (sym (snoc_append (matching pre) r post)),
    rw (left_out-snoc pre r, k) refl,
  )

  drops_lines :
      (pre : List R) (r : R) (post : List R)
      → regex_match exec (fname r) ≡ false
      → (matching pre ++ post ≡ matching (pre ++ (r ∷ [])) ++ post)
        × (suc (left_out pre) ≡ left_out (pre ++ (r ∷ [])))
  drops_lines pre r post k = (rw (matching-snoc pre r, k) refl, rw (left_out-snoc pre r, k) refl)

  loop_filters :
      (i : ℕ) (pre post : List R) (m : Model R) (count : ℕ)
      → Last pre
      → length pre ≡ i
      → m.lines ≡ pre ++ post
      → filter_loop fname exec i (m, count)
        ≡ (record m { lines = matching pre ++ post }, count + left_out pre)
  unfolding filter_loop matching left_out model_filter_line
  loop_filters zero _ post m count nothing e l =
      let c : count ≡ count + 0 = omega arith in
      ap (λ x. (record m { lines = x }, count)) l ∙ ap (λ x. (record m { lines = post }, x)) c
  loop_filters zero _ post m count (last pre r) e l = absurd (omega (arith, snoc_length pre r))
  loop_filters (suc i) _ post m count nothing e l = absurd (omega arith)
  loop_filters (suc i) _ post m count (last pre r) e l =
      let n : length pre ≡ i = omega (arith, snoc_length pre r) in
      let l' = l ∙ snoc_append pre r post in
      elim (Bool-cases (regex_match exec (fname r))) [
        | inl k ↦
            round_keeps i m count (ap (regex_match exec) (line_at pre r post m i l' n) ∙ k)
            ∙ loop_filters i pre (r ∷ post) m count (last_of pre) n l'
            ∙ (let w = keeps_lines pre r post k in same_pair m _ _ _ _ w.0 (ap (count +◌) w.1))
        | inr k ↦
            round_drops i m count (ap (regex_match exec) (line_at pre r post m i l' n) ∙ k)
            ∙ loop_filters i pre post (model_filter_line i m) (count + 1) (last_of pre) n
                (ap (λ xs. erase_at xs i) l' ∙ rw (← n) (erase_middle pre r post))
            ∙ (let w = drops_lines pre r post k in same_pair m _ _ _ _ w.0 (omega (arith, w.1)))
      ]

  clear_filter :
      (m : Model R) (entries : List R)
      → m.head ≡ some entries
      → model_clear_filter m ≡ some (record m { lines = entries })
  unfolding model_clear_filter generate_lines
  clear_filter m entries h = ground arith

  -- A filter over a model with a head: filter_build leaves the records of the entries whose line
  -- matches, in their order, and reports the number of the others; nothing else of the model changes.
  pub filter_build-matching :
      (m : Model R) (entries : List R)
      → m.head ≡ some entries
      → filter_build fname exec m ≡ some (record m { lines = matching entries }, left_out entries)
  unfolding filter_build matching left_out
  filter_build-matching m entries h =
      rw (filter_build, clear_filter m entries h)
        (ap some (
          loop_filters (length entries) entries [] (record m { lines = entries }) 0
            (last_of entries) refl (sym (append-nil entries))
          ∙ same_pair m _ _ _ _ (append-nil (matching entries)) (omega arith)))

full_lines-aux : {R : Type 0} (recs lines : List R) → full_lines recs lines ≡ reverse_aux recs lines
unfolding full_lines
full_lines-aux [] lines = refl
full_lines-aux (r ∷ recs) lines = full_lines-aux recs (r ∷ lines)

-- model_full_entry shows the records of the table from its last to its first.
full_lines-reverse :
    {R : Type 0} (recs lines : List R) → full_lines recs lines ≡ reverse recs ++ lines
full_lines-reverse recs lines = full_lines-aux recs lines ∙ reverse_aux-eq recs lines
