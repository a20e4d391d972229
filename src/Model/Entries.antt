-- ===== src/Model/Entries.antt =====
-- model.c: how a model gets its lines from the table, and how it is closed and opened again.
use fnav.Prelude.{ℕ, Bool, true, false, Option, none, some, List, [], if◌then◌else◌, ℤ, pos, ◌>>=◌}
use fnav.Cursor.{Buf}
use fnav.Model.{
  Model, Lis, generate_lines, full_lines, filter_apply, buf_full_invalidate, model_curs_value,
  model_set_prev, model_sort,
}

module _ {R : Type 0} where
  -- model_null_entry, for an attached buffer.
  unfoldable pub model_null_entry : (Model R × Lis R) × Buf → (Model R × Lis R) × Buf
  model_null_entry ((m, l), b) =
      let l' = record l { index = pos 0; lnum = pos 0 } in
      let s = buf_full_invalidate (pos 0, pos 0) (record m { head = none; cur = none }, b) in
      ((record (s.0) { blocking = false }, l'), s.1)

  module _ (fname : R → Option (List ℕ)) (kname : R → List ℕ) (filter : List ℕ)
      (exec : List ℕ → ℤ) where
    -- model_full_entry; `recs` are the record of the listener and those behind it.
    unfoldable pub model_full_entry : List R → Model R → Option (Model R)
    model_full_entry recs m =
        filter_apply fname filter exec (record m { lines = full_lines recs m.lines }) >>= λ m'.
        some (record m' { blocking = false })

    module _ (known : List ℕ → Bool) (found : List R → List ℕ → Option ℕ)
        (sorted : List R → List R) where
      -- The position that model_read_entry starts from.
      unfoldable pub restored : Lis R → Model R → Model R
      restored l m = elim m.pfval [
        | none ↦ record m { pfval = some l.fval; ptop = l.index; plnum = l.lnum }
        | some v ↦ m
      ]

      -- model_read_entry; `entries` are the records of the entries of the value, and `rec` the one that
      -- lis_get_val gives.
      unfoldable pub model_read_entry : List R → R → Lis R → Model R × Buf → Option (Model R × Buf)
      model_read_entry entries rec l (m, b) =
          generate_lines (record (restored l m) { head = some entries; cur = some rec }) >>= λ m1.
          filter_apply fname filter exec m1 >>= λ m2.
          model_sort kname known found sorted (m2, b) >>= λ s.
          some (record (s.0) { blocking = false }, s.1)

      -- model_recv, with what fnd_lis gives: whether the key is empty, the records of the table and the
      -- entries of the value.
      unfoldable pub model_recv :
          Bool → List R → List R → (Model R × Lis R) × Buf → Option ((Model R × Lis R) × Buf)
      model_recv empty_key recs entries ((m, l), b) =
          let full = model_full_entry recs m >>= λ m'. some ((m', l), b) in
          let read = λ (r : R). model_read_entry entries r l (m, b) >>= λ s. some ((s.0, l), s.1) in
          if m.blocking
          then elim l.rec [
            | none ↦ some (model_null_entry ((m, l), b))
            | some r ↦ if empty_key then full else read r
          ]
          else some ((m, l), b)

  module _ (kname : R → List ℕ) where
    -- model_save
    unfoldable pub model_save : Buf → Model R × Lis R → Model R × Lis R
    model_save b (m, l) = elim (model_curs_value kname m) [
      | none ↦ (m, l)
      | some v ↦ (record m { pfval = none }, record l { index = b.top; lnum = b.lnum; fval = v })
    ]

    unfoldable pub model_close : Buf → Model R × Lis R → Model R × Lis R
    model_close b s = let (m, l) = model_save b s in (record m { blocking = true; lines = [] }, l)

    unfoldable pub model_flush : Bool → Buf → Model R → Model R
    model_flush reopen b m =
        let m' = record m { pfval = none } in
        if reopen then record (model_set_prev kname b m') { lines = []; blocking = true } else m'

module _ {R : Type 0} (fname : R → Option (List ℕ)) (kname : R → List ℕ) (exec : List ℕ → ℤ) where
  module _ (known : List ℕ → Bool) (found : List R → List ℕ → Option ℕ)
      (sorted : List R → List R) where
    -- The end of model_read_entry.
    ends : Option (Model R × Buf) → Option (Model R × Buf)
    ends o = o >>= λ s. some (record (s.0) { blocking = false }, s.1)
