-- ===== src/Syntax/Parse/Nested.antt =====
-- cmdline.c: how the parser takes the items of a list.
use fnav.Prelude.{
  ℕ, suc, ◌-◌, Bool, true, false, ◌||◌, Option, List, [], ◌∷◌, length, get_elem?, ◌≡◌, ◌<◌, refl,
  ap, ◌∙◌, ℤ, pos, ◌+ℤ◌, arith,
}
use fnav.Syntax.{Token}
use fnav.Syntax.Parse.{
  Part, Parts, Cmdstr, Cmds, Cmdline, append_parts, part_of, no_parts, part, is_list,
}
use fnav.Syntax.Parse.Loop.{at_word, new_list, first_is, parse_loop}
use fnav.Syntax.Parse.Plain.{is_plain, plain_symb, loop_goes}
use fnav.Syntax.Parse.Lists.{
  At, At-head, At-next, At-peek, Items, no_items, item, comma, list_item, tokens_then, list_part,
  parts_of, is_symbol, well_formed, in_list, pop_item, pop_argument, round_word, round_comma,
  round_open, round_close, close_list_lem, fuel_then, enough, with_arys, Taken, Taken-step,
  append_parts-no_parts, append_one, items_no_colon,
}

well_formed-item :
    (t : Token) (next : Items)
    → well_formed (item t next) ≡ true
    → (is_plain t ≡ true) × (well_formed next ≡ true)
unfolding well_formed
well_formed-item t next h = ground arith

well_formed-comma :
    (t : Token) (next : Items)
    → well_formed (comma t next) ≡ true
    → ((is_symbol b',' t || is_symbol b'.' t) ≡ true) × (well_formed next ≡ true)
unfolding well_formed
well_formed-comma t next h = ground arith

well_formed-list :
    (left right : Token) (inner next : Items)
    → well_formed (list_item left right inner next) ≡ true
    → (is_symbol b'[' left ≡ true)
      × (is_symbol b']' right ≡ true)
      × (well_formed inner ≡ true)
      × (well_formed next ≡ true)
unfolding well_formed
well_formed-list left right inner next h = ground arith

no_colon_in :
    (right : Token) (k : List Token)
    → is_symbol b']' right ≡ true
    → first_is b':' (get_elem? (right ∷ k) 0) ≡ false
unfolding is_symbol
no_colon_in right k h = ground arith

-- The parser takes the items of a list, however deep, with the fuel for their tokens.
items-Taken :
    (q : Bool) (its : Items) (k : List Token) (cl : Cmdline) (c : Cmdstr) (p : Part) (held : Parts)
    (s : List (Part × Parts)) (ws : Parts) (n : ℤ) (f i : ℕ)
    → well_formed its ≡ true
    → At cl i (tokens_then its k)
    → first_is b':' (get_elem? k 0) ≡ false
    → is_list p.kind ≡ true
    → Taken q cl c p
        (append_parts held (parts_of its))
        s
        ws
        k
        f
        (parse_loop (fuel_then its f) q i (cl, in_list c ((p, held) ∷ s) ws n))
unfolding tokens_then parts_of fuel_then part_of Taken At append_parts new_list
items-Taken q no_items k cl c p held s ws n f i h at z l =
    Taken-step q cl c p held _ s ws k f _ _ refl (append_parts-no_parts held)
      (cl.arys, i, p.end, n, refl, at)
items-Taken q (item t next) k cl c p held s ws n f i h at z l =
    let w = well_formed-item t next h in
    let at' = At-next cl i t (tokens_then next k) at in
    let colon : first_is b':' (get_elem? cl.tokens (suc i)) ≡ false =
      rw (At-peek cl (suc i) (tokens_then next k) at') (items_no_colon next k w.1 z) in
    let r =
      round_word i t cl (in_list c ((p, held) ∷ s) ws n) w.0 colon
      ∙ ap (at_word i) (pop_item cl c p held s ws n (part_of t) no_parts l (plain_symb t w.0)) in
    Taken-step q cl c p _ _ s ws k f _ _
      (loop_goes q (fuel_then next f) i i cl (in_list c ((p, held) ∷ s) ws n) t _
        (At-head cl i t (tokens_then next k) at) r)
      (append_one held (part_of t) no_parts (parts_of next))
      (items-Taken q next k cl c (record p { end = t.end })
        (append_parts held (part (part_of t) no_parts no_parts)) s ws (n +ℤ pos 1) f (suc i) w.1 at'
        z l)
items-Taken q (comma t next) k cl c p held s ws n f i h at z l =
    let w = well_formed-comma t next h in
    let at' = At-next cl i t (tokens_then next k) at in
    Taken-step q cl c p _ _ s ws k f _ _
      (loop_goes q (fuel_then next f) i i cl (in_list c ((p, held) ∷ s) ws n) t _
        (At-head cl i t (tokens_then next k) at)
        (round_comma i t (cl, in_list c ((p, held) ∷ s) ws n) w.0))
      refl (items-Taken q next k cl c p held s ws n f (suc i) w.1 at' z l)
items-Taken q (list_item left right inner next) k cl c p held s ws n f i h at z l =
    let w = well_formed-list left right inner next h in
    let behind = right ∷ tokens_then next k in
    let deep =
      items-Taken q inner behind cl c (new_list left) no_parts ((p, held) ∷ s) ws n
        (suc (fuel_then next f)) (suc i) w.2 (At-next cl i left (tokens_then inner behind) at)
        (no_colon_in right (tokens_then next k) w.1) refl in
    let cl' = with_arys cl deep.0 in
    let j = deep.1 in
    let top = record (new_list left) { end = deep.2 } in
    let ps = in_list c ((top, parts_of inner) ∷ (p, held) ∷ s) ws deep.3 in
    let closed = close_list_lem j right cl' c top (parts_of inner) ((p, held) ∷ s) ws deep.3 refl in
    let r =
      round_close j right (cl', ps) w.1
      ∙ ap (at_word j) (
          closed.1
          ∙ pop_item (with_arys cl closed.0) c p held s ws deep.3 (list_part left right)
              (parts_of inner) l refl) in
    Taken-step q cl c p _ _ s ws k f _ _
      (loop_goes q (fuel_then inner (suc (fuel_then next f))) i i cl
          (in_list c ((p, held) ∷ s) ws n) left _ (At-head cl i left (tokens_then inner behind) at)
          (round_open i left cl c ((p, held) ∷ s) ws n w.0)
        ∙ deep.4
        ∙ loop_goes q (fuel_then next f) j j cl' ps right _
            (At-head cl' j right (tokens_then next k) deep.5) r)
      (append_one held (list_part left right) (parts_of inner) (parts_of next))
      (items-Taken q next k (with_arys cl closed.0) c (record p { end = right.end })
        (append_parts held (part (list_part left right) (parts_of inner) no_parts)) s ws
        (deep.3 +ℤ pos 1) f (suc j) w.3 (At-next cl' j right (tokens_then next k) deep.5) z l)

-- The parser is behind a list, in front of `k`, with the arguments `ws`.
unfoldable pub Passed :
    Bool → Cmdline → Cmdstr → Parts → List Token → Option (Cmds × (Cmdline × Option ℕ)) → Type 0
Passed q cl c ws k r =
    (a : List ℕ) × (j : ℕ) × (n : ℤ) × (f : ℕ) × (r
      ≡ parse_loop f q j (with_arys cl a, in_list c [] ws n))
    × At cl j k
    × (length k < f)

pub array-Passed :
    (q : Bool) (left right : Token) (its : Items) (k : List Token) (cl : Cmdline) (c : Cmdstr)
    (ws : Parts) (n : ℤ) (f i : ℕ)
    → is_symbol b'[' left ≡ true
    → is_symbol b']' right ≡ true
    → well_formed its ≡ true
    → At cl i (left ∷ tokens_then its (right ∷ k))
    → length (tokens_then its (right ∷ k)) < f
    → Passed q cl c
        (append_parts ws (part (list_part left right) (parts_of its) no_parts))
        k
        (parse_loop (suc f) q i (cl, in_list c [] ws n))
unfolding Passed Taken At append_parts new_list
array-Passed q left right its k cl c ws n f i hl hr h at lt =
    let w = enough its (right ∷ k) f lt in
    let f' = w.0 - 1 in
    let one : w.0 ≡ suc f' = omega (arith, w.2) in
    let deep =
      items-Taken q its (right ∷ k) cl c (new_list left) no_parts [] ws n (suc f') (suc i) h
        (At-next cl i left (tokens_then its (right ∷ k)) at) (no_colon_in right k hr) refl in
    let cl' = with_arys cl deep.0 in
    let j = deep.1 in
    let top = record (new_list left) { end = deep.2 } in
    let ps = in_list c ((top, parts_of its) ∷ []) ws deep.3 in
    let closed = close_list_lem j right cl' c top (parts_of its) [] ws deep.3 refl in
    let r =
      round_close j right (cl', ps) hr
      ∙ ap (at_word j) (
          closed.1
          ∙ pop_argument (with_arys cl closed.0) c ws deep.3 (list_part left right) (parts_of its)
              refl) in
    (
      closed.0,
      suc j,
      deep.3 +ℤ pos 1,
      f',
      loop_goes q f i i cl (in_list c [] ws n) left _
            (At-head cl i left (tokens_then its (right ∷ k)) at) (round_open i left cl c [] ws n hl)
          ∙ ap (λ x. parse_loop x q (suc i) (cl, in_list c ((new_list left, no_parts) ∷ []) ws n))
              (w.1 ∙ ap (fuel_then its) one)
          ∙ deep.4
          ∙ loop_goes q f' j j cl' ps right _ (At-head cl' j right k deep.5) r,
      At-next cl' j right k deep.5,
      omega (arith, w.2),
    )
