-- ===== src/Syntax/Parse/Lists.antt =====
-- cmdline.c: the parser inside a list, whose items are words, quoted strings and lists.
use fnav.Prelude.{
  ℕ, zero, suc, ◌-◌, Bool, true, false, ◌&&◌, ◌||◌, not, Option, some, List, [], ◌∷◌, ◌++◌, ◌==◌,
  length, get_elem?, get_elem?-middle, get_elem?-end, append-nil, ◌≡◌, ◌<◌, refl, sym, ap, ◌∙◌, ℤ,
  pos, ◌+ℤ◌, arith, Bool-cases, inl, inr, snoc_length, snoc_append, Option-cases, if◌then◌else◌,
}
use fnav.Text.{byte_at}
use fnav.Syntax.{Token}
use fnav.Syntax.Parse.{
  Part, Parts, Cmdstr, Cmds, Cmdline, Parser, append_parts, part_of, pop, no_parts, part, no_cmds,
  is_list, n_parts,
}
use fnav.Syntax.Parse.Loop.{
  goes_on, round, switch, at_word, new_list, close_list, first_is, parse_loop,
}
use fnav.Syntax.Parse.Plain.{
  first, is_plain, take_plain, round_quoted, round_unquoted, plain_special, switch_word,
}

-- The place `i` of the line has `ts` behind it.
unfoldable pub At : Cmdline → ℕ → List Token → Type 0
At cl i ts = (pre : List Token) × (cl.tokens ≡ pre ++ ts) × (i ≡ length pre)

pub At-head :
    (cl : Cmdline) (i : ℕ) (t : Token) (ts : List Token)
    → At cl i (t ∷ ts)
    → get_elem? cl.tokens i ≡ some t
unfolding At
At-head cl i t ts (pre, e, p) = rw (e, p) (get_elem?-middle pre t ts)

pub At-next :
    (cl : Cmdline) (i : ℕ) (t : Token) (ts : List Token) → At cl i (t ∷ ts) → At cl (suc i) ts
unfolding At
At-next cl i t ts (pre, e, p) =
    (pre ++ (t ∷ []), e ∙ sym (snoc_append pre t ts), ap suc p ∙ sym (snoc_length pre t))

-- What stands between the brackets of a list, in the order of the tokens.
pub data Items : Type 0 where
  no_items : Items
  item : (t : Token) (next : Items) → Items
  comma : (t : Token) (next : Items) → Items
  list_item : (left right : Token) (inner next : Items) → Items

-- The tokens of the items, with `k` behind them.
unfoldable pub tokens_then : Items → List Token → List Token
tokens_then no_items k = k
tokens_then (item t next) k = t ∷ tokens_then next k
tokens_then (comma t next) k = t ∷ tokens_then next k
tokens_then (list_item left right inner next) k =
    left ∷ tokens_then inner (right ∷ tokens_then next k)

abbrev pub list_part : Token → Token → Part
list_part left right = record (new_list left) { end = right.end }

-- The items as the parser has them.
unfoldable pub parts_of : Items → Parts
parts_of no_items = no_parts
parts_of (item t next) = part (part_of t) no_parts (parts_of next)
parts_of (comma t next) = parts_of next
parts_of (list_item left right inner next) =
    part (list_part left right) (parts_of inner) (parts_of next)

unfoldable pub is_symbol : ℕ → Token → Bool
is_symbol c t = not t.quoted && (first t == c)

-- Words and strings stand for items, and the symbols at their places.
unfoldable pub well_formed : Items → Bool
well_formed no_items = true
well_formed (item t next) = is_plain t && well_formed next
well_formed (comma t next) = (is_symbol b',' t || is_symbol b'.' t) && well_formed next
well_formed (list_item left right inner next) =
    is_symbol b'[' left && is_symbol b']' right && well_formed inner && well_formed next

abbrev pub in_list : Cmdstr → List (Part × Parts) → Parts → ℤ → Parser
in_list c s ws n = record { cmd = c; chlds = no_cmds; stack = s; bottom = ws; idx = n }

pub pop_item :
    (cl : Cmdline) (c : Cmdstr) (p : Part) (held : Parts) (s : List (Part × Parts)) (ws : Parts)
    (n : ℤ) (t : Part) (th : Parts)
    → is_list p.kind ≡ true
    → t.symb ≡ 0
    → pop t th (cl, in_list c ((p, held) ∷ s) ws n)
      ≡ some (
        cl,
        in_list c
            ((record p { end = t.end }, append_parts held (part t th no_parts)) ∷ s)
            ws
            (n +ℤ pos 1),
      )
unfolding pop
pop_item cl c p held s ws n t th k z = rw (k, z) refl

pub pop_argument :
    (cl : Cmdline) (c : Cmdstr) (ws : Parts) (n : ℤ) (t : Part) (th : Parts)
    → t.symb ≡ 0
    → pop t th (cl, in_list c [] ws n)
      ≡ some (cl, in_list c [] (append_parts ws (part t th no_parts)) (n +ℤ pos 1))
unfolding pop
pop_argument cl c ws n t th z = rw z refl

pub round_word :
    (i : ℕ) (t : Token) (cl : Cmdline) (ps : Parser)
    → is_plain t ≡ true
    → first_is b':' (get_elem? cl.tokens (suc i)) ≡ false
    → round i t (cl, ps) ≡ at_word i (pop (part_of t) no_parts (cl, ps))
round_word i t cl ps h nx = elim (Bool-cases t.quoted) [
  | inl e ↦ round_quoted i t (cl, ps) e
  | inr e ↦
      round_unquoted i t (cl, ps) e
      ∙ switch_word i t (cl, ps) (plain_special t h e)
      ∙ ap (at_word i) (take_plain i t cl ps nx)
]

pub round_comma :
    (i : ℕ) (t : Token) (s : Cmdline × Parser)
    → (is_symbol b',' t || is_symbol b'.' t) ≡ true
    → round i t s ≡ some (goes_on i s)
unfolding round switch is_symbol
round_comma i t s h = ground arith

pub round_open :
    (i : ℕ) (t : Token) (cl : Cmdline) (c : Cmdstr) (s : List (Part × Parts)) (ws : Parts) (n : ℤ)
    → is_symbol b'[' t ≡ true
    → round i t (cl, in_list c s ws n)
      ≡ some (goes_on i (cl, in_list c ((new_list t, no_parts) ∷ s) ws n))
unfolding round switch is_symbol
round_open i t cl c s ws n h = ground arith

pub round_close :
    (i : ℕ) (t : Token) (s : Cmdline × Parser)
    → is_symbol b']' t ≡ true
    → round i t s ≡ at_word i (close_list i t s)
unfolding round switch is_symbol
round_close i t (cl, ps) h = ground arith

-- A list is closed, and all that the line may get is an index.
pub close_list_lem :
    (i : ℕ) (t : Token) (cl : Cmdline) (c : Cmdstr) (p : Part) (held : Parts)
    (s : List (Part × Parts)) (ws : Parts) (n : ℤ)
    → is_list p.kind ≡ true
    → (a : List ℕ) × (close_list i t (cl, in_list c ((p, held) ∷ s) ws n)
        ≡ pop (record p { end = t.end }) held (record cl { arys = a }, in_list c s ws n))
unfolding close_list
close_list_lem i t cl c p held s ws n k = elim (Option-cases (get_elem? cl.tokens (suc i))) [
  | inl e ↦ (cl.arys, rw (k, e) refl)
  | inr (x, e) ↦ (
    (if (x.start == t.end) && (byte_at x.v_string 0 == b'[')
        then cl.arys ++ (n_parts ws ∷ [])
        else cl.arys),
    rw (k, e) refl,
  )
]

-- The fuel that is there behind the items.
unfoldable pub fuel_then : Items → ℕ → ℕ
fuel_then no_items f = f
fuel_then (item t next) f = suc (fuel_then next f)
fuel_then (comma t next) f = suc (fuel_then next f)
fuel_then (list_item left right inner next) f = suc (fuel_then inner (suc (fuel_then next f)))

-- A fuel above the number of the tokens is enough for the items and what is behind them.
pub enough :
    (its : Items) (k : List Token) (f : ℕ)
    → length (tokens_then its k) < f
    → (f' : ℕ) × (f ≡ fuel_then its f') × (length k < f')
unfolding tokens_then fuel_then
enough no_items k f h = (f, refl, h)
enough (item t next) k zero h = elim h [ ]
enough (item t next) k (suc f) h = let w = enough next k f (omega arith) in (w.0, ap suc w.1, w.2)
enough (comma t next) k zero h = elim h [ ]
enough (comma t next) k (suc f) h = let w = enough next k f (omega arith) in (w.0, ap suc w.1, w.2)
enough (list_item left right inner next) k zero h = elim h [ ]
enough (list_item left right inner next) k (suc f) h =
    let w = enough inner (right ∷ tokens_then next k) f (omega arith) in
    let v = enough next k (w.0 - 1) (omega (arith, w.2)) in
    let one : w.0 ≡ suc (w.0 - 1) = omega (arith, w.2) in
    (v.0, ap suc (w.1 ∙ ap (fuel_then inner) (one ∙ ap suc v.1)), v.2)

-- A line with other indices of lists.
abbrev pub with_arys : Cmdline → List ℕ → Cmdline
with_arys cl a = record cl { arys = a }

-- The parser has taken the items of the list on top of its stack, and is in front of `k`.
unfoldable pub Taken :
    Bool
    → Cmdline
    → Cmdstr
    → Part
    → Parts
    → List (Part × Parts)
    → Parts
    → List Token
    → ℕ
    → Option (Cmds × (Cmdline × Option ℕ))
    → Type 0
Taken q cl c p held s ws k f r =
    (a : List ℕ) × (j : ℕ) × (e : ℕ) × (n : ℤ) × (r
      ≡ parse_loop f q j (with_arys cl a, in_list c ((record p { end = e }, held) ∷ s) ws n))
    × At cl j k

pub Taken-step :
    (q : Bool) (cl : Cmdline) (c : Cmdstr) (p : Part) (held held' : Parts) (s : List (Part × Parts))
    (ws : Parts) (k : List Token) (f : ℕ) (r r' : Option (Cmds × (Cmdline × Option ℕ)))
    → r ≡ r'
    → held ≡ held'
    → Taken q cl c p held s ws k f r'
    → Taken q cl c p held' s ws k f r
unfolding Taken
Taken-step q cl c p held held' s ws k f r r' x y (a, j, e, n, u, at) = (
  a,
  j,
  e,
  n,
  x
      ∙ u
      ∙ ap (λ h. parse_loop f q j (with_arys cl a, in_list c ((record p { end = e }, h) ∷ s) ws n))
          y,
  at,
)

pub append_parts-no_parts : (h : Parts) → h ≡ append_parts h no_parts
unfolding append_parts
append_parts-no_parts no_parts = refl
append_parts-no_parts (part p g next) = ap (part p g) (append_parts-no_parts next)

append_parts_assoc :
    (h r s : Parts) → append_parts (append_parts h r) s ≡ append_parts h (append_parts r s)
unfolding append_parts
append_parts_assoc no_parts r s = refl
append_parts_assoc (part p g next) r s = ap (part p g) (append_parts_assoc next r s)

pub append_one :
    (h : Parts) (p : Part) (g s : Parts)
    → append_parts (append_parts h (part p g no_parts)) s ≡ append_parts h (part p g s)
unfolding append_parts
append_one h p g s = append_parts_assoc h (part p g no_parts) s

pub At-peek :
    (cl : Cmdline) (i : ℕ) (ts : List Token) → At cl i ts → get_elem? cl.tokens i ≡ get_elem? ts 0
unfolding At
At-peek cl i [] (pre, e, p) = rw (e, p, append-nil pre) (get_elem?-end pre)
At-peek cl i (t ∷ ts) (pre, e, p) = rw (e, p) (get_elem?-middle pre t ts)

-- The first token of the items is no colon.
pub items_no_colon :
    (its : Items) (k : List Token)
    → well_formed its ≡ true
    → first_is b':' (get_elem? k 0) ≡ false
    → first_is b':' (get_elem? (tokens_then its k) 0) ≡ false
unfolding well_formed is_symbol is_plain tokens_then
items_no_colon no_items k h z = z
items_no_colon (item t next) k h z = ground arith
items_no_colon (comma t next) k h z = ground arith
items_no_colon (list_item left right inner next) k h z = ground arith
