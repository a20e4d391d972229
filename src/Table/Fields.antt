-- ===== src/Table/Fields.antt =====
-- table.c: a new field of a table without records.
use fnav.Prelude.{
  ◌≡◌, ◌⊎◌, refl, sym, ap, ◌∙◌, ℕ, Bool, true, false, none, some, List, [], str_eq, Bool-cases, inl,
  inr, if◌then◌else◌,
}
use fnav.Table.{Fld, Table, set_field, tbl_mk_fld}
use fnav.Table.Rings.{
  IsValid, val_at, stat_of, ids, val_of, val_at-set_field, stat_of-set_field, Typed,
}

no_ring :
    (t : Table)
    → IsValid t
    → t.recs ≡ []
    → (f k : List ℕ) → stat_of t f ≡ some false
    → val_at t f k ≡ none
unfolding ids val_of
no_ring t v e f k s = v.rings f k s ∙ ap (λ rs. val_of (ids f k rs)) e

pub tbl_mk_fld-IsValid :
    (f : List ℕ) (stat : Bool) (t : Table) → IsValid t → t.recs ≡ [] → IsValid (tbl_mk_fld f stat t)
unfolding tbl_mk_fld ids val_of stat_of val_at Typed
tbl_mk_fld-IsValid f stat t v e = record {
  rings =
      λ g k s. new_ring g k (Bool-cases (str_eq f g)) s ∙ ap (λ rs. val_of (ids g k rs)) (sym e);
  cells = rw e tt;
  falling = v.falling;
}
  where
    made : Fld
    made = record { stat = stat; vals = λ k. none; lis = λ k. none }

    new_ring :
        (g k : List ℕ)
        → (str_eq f g ≡ true) ⊎ (str_eq f g ≡ false)
        → stat_of (set_field t f made) g ≡ some false
        → val_at (set_field t f made) g k ≡ none
    new_ring g k (inl q) s = val_at-set_field t f made g k ∙ rw q refl
    new_ring g k (inr q) s =
        val_at-set_field t f made g k
        ∙ rw q (
            no_ring t v e g k (
              sym (ap (λ b. if b then some stat else stat_of t g) q)
              ∙ sym (stat_of-set_field t f made g)
              ∙ s))
