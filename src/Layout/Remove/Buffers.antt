-- ===== src/Layout/Remove/Buffers.antt =====
-- tui/layout.c: layout_remove_buffer on a whole layout.
use fnav.Prelude.{
  ◌>>=◌, bind-some, guard-some, ℕ, ◌+◌, ◌≡◌, ap, ◌∙◌, Bool, true, ◌&&◌, not, Option, none, some,
  ◌==◌, if◌then◌else◌, arith,
}
use fnav.Layout.{Container, Containers, Layout, holder_of, shows, layout_update}
use fnav.Layout.Tiles.{bit}
use fnav.Layout.Ids.{total, leaf_le_total, shown, Same}
use fnav.Layout.Valid.{IsValid, Same-layout_update}
use fnav.Layout.Remove.{
  next_or_prev, remove_items, find_container, close_container, merges, is_some, close_root,
  close_focus, layout_remove_buffer,
}
use fnav.Layout.Remove.Parent.{Forked}
use fnav.Layout.Remove.Shown.{shown-remove_items}
use fnav.Layout.Remove.Found.{Backed, find_container-IsFound, holder_of-NextIn}

-- The steps of layout_remove_buffer.
pub record Removed (l : Layout) (b : ℕ) (l' : Layout) : Type 0 where
  pub c : Container
  pub hc : Container
  pub hp : Containers
  pub found : find_container b l.items ≡ some c
  pub parent : holder_of c.id l.root l.items ≡ some (hc, hp)
  pub root_eq : l'.root ≡ close_root l c
  pub focus_eq : l'.focus ≡ close_focus l c hc hp
  pub same : Same (remove_items c.id (next_or_prev c.id none hp) l.items) l'.items

pub layout_remove_buffer-Removed :
    (l : Layout) (b : ℕ) (l' : Layout) → layout_remove_buffer l b ≡ some l' → Removed l b l'
unfolding layout_remove_buffer close_container
layout_remove_buffer-Removed l b l' e =
    let (c, ec, e₁) =
      bind-some (find_container b l.items)
        (λ c. holder_of c.id l.root l.items >>= λ h. close_container l c h.0 h.1) l' e in
    let (h, eh, e₂) =
      bind-some (holder_of c.id l.root l.items) (λ h. close_container l c h.0 h.1) l' e₁ in
    let next = next_or_prev c.id none h.1 in
    let items = layout_update (close_root l c) (remove_items c.id next l.items) in
    let bad = merges l h.0 && not (is_some next) in
    let (q, eq, e₃) =
      bind-some (if bad then none else items)
        (λ q. some (record { root = close_root l c; items = q; focus = close_focus l c h.0 h.1 }))
        l' e₂ in
    let k : l' ≡ record { root = close_root l c; items = q; focus = close_focus l c h.0 h.1 } =
      ground arith in
    record {
      c = c;
      hc = h.0;
      hp = h.1;
      found = ec;
      parent = eh;
      root_eq = ap (λ (z : Layout). z.root) k;
      focus_eq = ap (λ (z : Layout). z.focus) k;
      same = rw (ap (λ (z : Layout). z.items) k) (
          Same-layout_update (close_root l c) (remove_items c.id next l.items) q
            (guard-some bad items q eq));
    }

shows_same : (b b' : ℕ) (o : Option ℕ) → shows b o ≡ true → shows b' o ≡ (b' == b)
shows_same b b' none h = absurd (ground arith)
shows_same b b' (some k) h = ground arith

removed_one : (n : ℕ) (m : Bool) → n + (if m then 1 else 0) ≡ n + bit m
removed_one n m = ground arith

-- layout_remove_buffer on a valid layout in which no container has exactly one item, and where a
-- container with items shows its own buffer below: whenever it returns, the buffer is shown in one
-- leaf less, and each other buffer in as many leaves as before.
pub layout_remove_buffer-shown :
    (l : Layout) (b : ℕ) (l' : Layout)
    → IsValid l
    → Forked l.items
    → Backed b l.items
    → layout_remove_buffer l b ≡ some l'
    → (b' : ℕ) → shown b' l.items ≡ shown b' l'.items + bit (b' == b)
layout_remove_buffer-shown l b l' v k w e b' =
    let r = layout_remove_buffer-Removed l b l' e in
    let f = find_container-IsFound b r.c l.items w (v.unique r.c.id) r.found in
    let n = holder_of-NextIn r.c.id l.root r.hc r.hp l.items (v.unique r.c.id) r.parent in
    let s =
      shown-remove_items r.c.id (next_or_prev r.c.id none r.hp) r.c.buf b' l.items (v.unique r.c.id)
        f.only v.shape k n in
    let u = v.unique r.c.id in
    let o = f.leaf in
    let t = leaf_le_total r.c.id l.items in
    let one : total r.c.id l.items ≡ 1 = omega (arith, t, o, u) in
    rw (r.same.shown_eq b') (
      s
      ∙ rw (one, shows_same b b' r.c.buf f.buf)
          (removed_one (shown b' (remove_items r.c.id (next_or_prev r.c.id none r.hp) l.items))
            (b' == b)))
