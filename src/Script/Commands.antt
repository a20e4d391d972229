-- ===== src/Script/Commands.antt =====
-- cmd.c: the table of commands, by their names and short names. The hash table is the list of its
-- entries, the latest first; a command is a number, and `name` and `alt` are what Cmd_T says of it.
use fnav.Prelude.{
  ℕ, ◌≡◌, refl, Bool, true, false, ◌||◌, Option, none, some, List, [], ◌∷◌, arith, if◌then◌else◌,
  str_eq, str_eq→eq, Bool-cases, inl, inr,
}

-- Cmd_ptr
pub record CmdPtr : Type 0 where
  pub name : List ℕ
  pub cmd : ℕ

-- The fields of Cmd_T that the table uses; `alt` can be NULL.
pub record CmdT : Type 0 where
  pub id : ℕ
  pub name : List ℕ
  pub alt : Option (List ℕ)

-- cmd_clearall
pub cmd_clearall : List CmdPtr → List CmdPtr
cmd_clearall tbl = []

-- cmd_add: the short name is added if there is one and it differs.
pub cmd_add : CmdT → List CmdPtr → List CmdPtr
cmd_add src tbl =
    let tbl' : List CmdPtr = record { name = src.name; cmd = src.id } ∷ tbl in
    elim src.alt [
      | none ↦ tbl'
      | some alt ↦ if str_eq alt src.name then tbl' else record { name = alt; cmd = src.id } ∷ tbl'
    ]

-- cmd_find of a name that is not NULL.
pub cmd_find : List ℕ → List CmdPtr → Option ℕ
cmd_find name [] = none
cmd_find name (p ∷ tbl) = elim (str_eq p.name name) [
  | true ↦ some p.cmd
  | false ↦ cmd_find name tbl
]

-- One of the names of a command.
abbrev pub is_named : CmdT → List ℕ → Bool
is_named src name =
    str_eq src.name name || elim src.alt [ none ↦ false | some alt ↦ str_eq alt name ]

-- An added command is found by its name and by its short name, every other name finds what it found
-- before, and nothing is found in a cleared table.
pub cmd_find-cmd_add :
    (name : List ℕ) (src : CmdT) (tbl : List CmdPtr)
    → (cmd_find name (cmd_add src tbl)
        ≡ (if is_named src name then some src.id else cmd_find name tbl))
      × (cmd_find name (cmd_clearall tbl) ≡ none)
unfolding cmd_find cmd_add cmd_clearall
cmd_find-cmd_add name src tbl = (go src.alt refl, refl)
  where
    go :
        (o : Option (List ℕ))
        → src.alt ≡ o
        → cmd_find name (cmd_add src tbl)
          ≡ (if is_named src name then some src.id else cmd_find name tbl)
    go none e = elim (Bool-cases (str_eq src.name name)) [
      | inl f ↦ ground arith
      | inr f ↦ ground arith
    ]
    go (some alt) e = elim (Bool-cases (str_eq alt src.name)) [
      | inl s ↦ let p = str_eq→eq alt src.name s in ground arith
      | inr s ↦ ground arith
    ]
