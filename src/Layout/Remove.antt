-- ===== src/Layout/Remove.antt =====
-- tui/layout.c: layout_remove_buffer.
pub mod Parent
pub mod Shown
pub mod Found
pub mod Buffers
use fnav.Prelude.{
  ◌>>=◌, ℕ, zero, suc, ◌+◌, ◌-◌, Bool, true, false, ◌&&◌, ◌||◌, not, Option, none, some, ◌==◌,
  if◌then◌else◌,
}
use fnav.Layout.{
  Pos, Container, Containers, empty, entry, Layout, shows, holds, holder_of, layout_update,
}

-- find_container: what a container holds is searched first.
unfoldable pub find_container : ℕ → Containers → Option Container
find_container b empty = none
find_container b (entry it p next) =
    let inner = find_container b p in
    let rest = find_container b next in
    elim inner [ some c ↦ some c | none ↦ if shows b it.buf then some it else rest ]

-- next_or_prev in one queue, where `prev` is in front of it.
unfoldable pub next_or_prev :
    ℕ → Option (Container × Containers) → Containers → Option (Container × Containers)
next_or_prev f prev empty = none
next_or_prev f prev (entry it p next) =
    let rest = next_or_prev f (some (it, p)) next in
    if it.id == f then elim next [ empty ↦ prev | entry n np _ ↦ some (n, np) ] else rest

-- layout_remove_buffer, `hc` behind TAILQ_REMOVE of one of its items, whose new queue is `p`: a single
-- item `next` is merged into it.
unfoldable pub merge_single :
    Option (Container × Containers) → Container → Containers → Container × Containers
merge_single next hc p =
    let hc' = record hc { count = hc.count - 1 } in
    if hc'.count == 1
    then elim next [
      | none ↦ (hc', p)
      | some (n, np) ↦ (record hc' { buf = n.buf; count = n.count }, np)
    ]
    else (hc', p)

unfoldable pub remove_items : ℕ → Option (Container × Containers) → Containers → Containers
remove_items f nx empty = empty
remove_items f nx (entry it p next) =
    let inner = remove_items f nx p in
    let rest = remove_items f nx next in
    let merged = merge_single nx it inner in
    if it.id == f
    then next
    else if holds f p
    then entry merged.0 merged.1 rest
    else entry it inner rest

-- The loop to the first leaf.
unfoldable pub first_leaf : Container → Containers → ℕ
first_leaf c empty = c.id
first_leaf c (entry n np _) = first_leaf n np

abbrev pub is_some {ℓ} : {A : Type ℓ} → Option A → Bool
is_some none = false
is_some (some a) = true

-- The new focus, where the old one was the removed container or the one that is `next` to it.
abbrev pub has_focus : ℕ → Option (Container × Containers) → Bool
has_focus f none = false
has_focus f (some (n, np)) = n.id == f

unfoldable pub next_focus : ℕ → Bool → Container → Option (Container × Containers) → ℕ
next_focus root merges hc none = root
next_focus root merges hc (some (n, np)) = first_leaf (if merges then hc else n) np

-- layout_remove_buffer, behind the search for `c`, which `hc` holds in the queue `hp`.
abbrev pub merges : Layout → Container → Bool
merges l hc = hc.count - 1 == 1 && not (hc.id == l.root.id)

unfoldable pub close_focus : Layout → Container → Container → Containers → ℕ
close_focus l c hc hp =
    let next = next_or_prev c.id none hp in
    if l.focus == c.id || has_focus l.focus next
    then next_focus l.root.id (merges l hc) hc next
    else l.focus

unfoldable pub close_root : Layout → Container → Container
close_root l c = record (l.root) {
  count = if holds c.id l.items then l.root.count - 1 else l.root.count;
}

unfoldable pub close_container : Layout → Container → Container → Containers → Option Layout
close_container l c hc hp = do
  let next = next_or_prev c.id none hp
  items ←
      if merges l hc && not (is_some next)
      then none
      else layout_update (close_root l c) (remove_items c.id next l.items)
  some (record { root = close_root l c; items = items; focus = close_focus l c hc hp })

-- layout_remove_buffer; `none` is a fault: no container has the buffer, or the container to merge is
-- NULL, or the update divides by zero.
unfoldable pub layout_remove_buffer : Layout → ℕ → Option Layout
layout_remove_buffer l b = do
  c ← find_container b l.items
  (hc, hp) ← holder_of c.id l.root l.items
  close_container l c hc hp
