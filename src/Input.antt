-- ===== src/Input.antt =====
-- event/input.c: special keys by name, the tables of commands, operators and their counts.
-- A key is an integer, negative for a special key. The functions of commands and operators are parameters, as is
-- what qsort_r makes of the index. Of an Oparg, `key` and `is_unused` are modelled, which are all that is used.
pub mod Search
pub mod Linear
pub mod Keys
mod Tests
use fnav.Text.Search.{tolower_asc}
use fnav.Prelude.{
  codes, ◌>>=◌, ℕ, zero, suc, ◌+◌, ◌-◌, ◌*◌, ◌/◌, Bool, true, false, ◌&&◌, ◌||◌, not, Option, none,
  some, List, [], ◌∷◌, ◌++◌, ltb, leb, ◌==◌, if◌then◌else◌, length, get_elem?, ℤ, pos, negsuc,
  eqb_ℤ, ltb_ℤ,
}

-- The magnitude of a key: `if (c < 0) c = -c`.
abbrev pub magnitude : ℤ → ℕ
magnitude (pos n) = n
magnitude (negsuc n) = suc n

-- TERMCAP2KEY
pub termcap2key : ℕ → ℕ → ℤ
termcap2key a b = negsuc (a + b * 256 - 1)

pub record KeyNameEntry : Type 0 where
  pub key : ℤ
  pub name : List ℕ

-- The comparison loop: the name of the table is used up without a difference.
pub name_matches : List ℕ → List ℕ → Bool
name_matches [] name = true
name_matches (c ∷ table_name) [] = false
name_matches (c ∷ table_name) (d ∷ name) =
    (tolower_asc c == tolower_asc d) && name_matches table_name name

-- get_special_key_code, over key_names_table; 0 for no name.
pub special_key_code : List KeyNameEntry → List ℕ → ℤ
special_key_code [] name = pos 0
special_key_code (e ∷ table) name = elim (name_matches e.name name) [
  | true ↦ e.key
  | false ↦ special_key_code table name
]

abbrev name_entry : ℤ → List ℕ → KeyNameEntry
name_entry key name = record { key = key; name = name }

-- key_names_table
pub key_names_table : List KeyNameEntry
unfolding termcap2key
key_names_table =
    name_entry (pos b' ') (codes "Space")
    ∷ name_entry (pos 9) (codes "Tab")
    ∷ name_entry (pos 10) (codes "NL")
    ∷ name_entry (pos 10) (codes "NewLine")
    ∷ name_entry (pos 10) (codes "LineFeed")
    ∷ name_entry (pos 10) (codes "LF")
    ∷ name_entry (pos 13) (codes "CR")
    ∷ name_entry (pos 13) (codes "Return")
    ∷ name_entry (pos 13) (codes "Enter")
    ∷ name_entry (pos 27) (codes "Esc")
    ∷ name_entry (pos 27) (codes "Escape")
    ∷ name_entry (pos 155) (codes "CSI")
    ∷ name_entry (pos b'|') (codes "Bar")
    ∷ name_entry (pos 92) (codes "Bslash")
    ∷ name_entry (pos 8) (codes "Backspace")
    ∷ name_entry (pos 8) (codes "Del")
    ∷ name_entry (pos 127) (codes "Delete")
    ∷ name_entry (termcap2key b'k' b'u') (codes "Up")
    ∷ name_entry (termcap2key b'k' b'd') (codes "Down")
    ∷ name_entry (termcap2key b'k' b'l') (codes "Left")
    ∷ name_entry (termcap2key b'k' b'r') (codes "Right")
    ∷ name_entry (termcap2key b'k' b'I') (codes "Insert")
    ∷ name_entry (termcap2key b'k' b'I') (codes "Ins")
    ∷ name_entry (termcap2key b'k' b'h') (codes "Home")
    ∷ name_entry (termcap2key b'@' b'7') (codes "End")
    ∷ name_entry (termcap2key b'k' b'P') (codes "PageUp")
    ∷ name_entry (termcap2key b'k' b'N') (codes "PageDown")
    ∷ []

pub get_special_key_code : List ℕ → ℤ
get_special_key_code name = special_key_code key_names_table name

-- nv_key and nv_keytbl. `linear` is maxlinear + 1, and maxsize the length of the index. A table has a name,
-- which stands for its address.
pub record NvKey : Type 0 where
  pub cmd_char : ℤ
  pub cmd_flags : ℕ
  pub cmd_arg : ℕ

pub record NvKeytbl : Type 0 where
  pub address : ℕ
  pub tbl : List NvKey
  pub cmd_idx : List ℕ
  pub linear : ℕ

-- The magnitude of the command character at a place of the index; `none` is outside the tables.
pub char_at : List NvKey → List ℕ → ℕ → Option ℕ
char_at tbl cmd_idx i = do j ← get_elem? cmd_idx i; k ← get_elem? tbl j; some (magnitude k.cmd_char)

-- input_setup_tbl: the loop that finds the first entry that is not at the place of its character.
pub linear_from : List NvKey → List ℕ → ℕ → ℕ → ℕ
linear_from tbl cmd_idx zero i = i
linear_from tbl cmd_idx (suc n) i =
    let rest = linear_from tbl cmd_idx n (suc i) in
    elim (get_elem? cmd_idx i >>= λ j. get_elem? tbl j) [
      | none ↦ i
      | some k ↦ if eqb_ℤ (pos i) k.cmd_char then rest else i
    ]

-- input_setup_tbl, where `sorted` is what qsort_r makes of the index 0, 1, ...
pub input_setup_tbl : ℕ → List NvKey → List ℕ → NvKeytbl
input_setup_tbl address tbl sorted = record {
  address = address;
  tbl = tbl;
  cmd_idx = sorted;
  linear = linear_from tbl sorted (length sorted) 0;
}

-- find_command, the binary search on fuel from `bot` up to below `top`, which is the source's top + 1.
-- The outer Option is the end of the fuel or an access outside a table, and the inner `none` is -1.
pub search : ℕ → NvKeytbl → ℕ → ℕ → ℕ → Option (Option ℕ)
search zero kt c bot top = none
search (suc fuel) kt c bot top =
    let i = (top - 1 + bot) / 2 in
    let upper = search fuel kt c (suc i) top in
    let lower = search fuel kt c bot i in
    if ltb bot top
    then elim (char_at kt.tbl kt.cmd_idx i) [
      | none ↦ none
      | some d ↦
          if c == d
          then (get_elem? kt.cmd_idx i >>= λ j. some (some j))
          else if ltb d c
          then upper
          else lower
    ]
    else some none

pub find_command : NvKeytbl → ℤ → Option (Option ℕ)
find_command kt cmdchar =
    if not (ltb_ℤ cmdchar (pos 256))
    then some none
    else if ltb (magnitude cmdchar) kt.linear
    then (get_elem? kt.cmd_idx (magnitude cmdchar) >>= λ j. some (some j))
    else search (suc (length kt.cmd_idx)) kt (magnitude cmdchar) kt.linear (length kt.cmd_idx)

-- Oparg and Keyarg.
pub record Oparg : Type 0 where
  pub key : ℕ
  pub is_unused : Bool

pub record Keyarg : Type 0 where
  pub optbl : Option ℕ
  pub oap : Oparg
  pub opcount : ℕ
  pub type : ℕ
  pub key : ℤ
  pub nkey : ℤ
  pub mkey : ℤ
  pub arg : ℕ

-- NCH, NCH_S, NCH_A and OP_G.
abbrev pub nch : ℕ
nch = 1

abbrev pub nch_s : ℕ
nch_s = 3

abbrev pub nch_a : ℕ
nch_a = 5

abbrev pub op_g : ℕ
op_g = 4

abbrev pub no_oparg : Oparg
no_oparg = record { key = 0; is_unused = false }

pub clearop : Keyarg → Keyarg
clearop ca = record ca { oap = no_oparg; nkey = pos 0; mkey = pos 0; opcount = 0 }

pub op_pending : Keyarg → Bool
op_pending ca = not (ca.oap.key == 0)

-- oper, the command that sets an operator.
pub oper : Keyarg → Keyarg
oper ca =
    let t = clearop ca in
    record t {
      oap = record (t.oap) { key = if ca.type == nch_s then op_g else ca.arg };
      nkey = ca.key;
    }

-- ISDIGIT
pub is_digit_key : ℤ → Bool
is_digit_key (pos c) = leb b'0' c && leb c b'9'
is_digit_key (negsuc c) = false

-- The operators and commands on a state `S`. An operator is a number below the length of
-- key_operators, each with the NUL for its second character.
module _ {ℓ} {S : Type ℓ} (op_func : ℕ → Keyarg → S → Keyarg × S)
    (cmd_func : ℕ → Keyarg → S → Keyarg × S) (reg_clear_dcur : S → S) where
  -- do_op; the flag is what it returns. The first of key_operators has no function.
  pub do_op : Keyarg → S → Option (Bool × (Keyarg × S))
  do_op ca s =
      if ca.oap.key == 0
      then none
      else (let r = op_func ca.oap.key ca s in
          some (if r.0.oap.is_unused then (false, r) else (true, (clearop r.0, r.1))))

  -- find_do_op; key_operators[...].nchar is NUL for all operators.
  pub find_do_op : Keyarg → S → Option (Bool × (Keyarg × S))
  find_do_op ca s =
      if ca.type == nch_a || eqb_ℤ ca.key ca.nkey
      then do_op ca s
      else if ca.type == nch_s
      then if eqb_ℤ ca.nkey (pos 0) then do_op ca s else some (false, (clearop ca, s))
      else if ca.type == nch
      then if not (eqb_ℤ ca.nkey (pos 0)) then do_op ca s else some (false, (clearop ca, s))
      else some (false, (clearop ca, s))

  -- The rest of find_do_key, behind a pending operator.
  pub do_key : NvKeytbl → Keyarg → S → Option (Bool × (Keyarg × S))
  do_key kt ca s =
      if is_digit_key ca.key
      then some (true, (record ca { opcount = ca.opcount * 10 + (magnitude ca.key - b'0') }, s))
      else find_command kt ca.key >>= λ o. elim o [
        | none ↦ some (false, (ca, s))
        | some idx ↦ get_elem? kt.tbl idx >>= λ k.
            let t = record ca { arg = k.cmd_arg; type = k.cmd_flags; optbl = some kt.address } in
            let r = cmd_func idx t s in some (true, (record (r.0) { opcount = 0 }, r.1))
      ]

  -- An operator that takes the key, or the key on its own.
  pub after_op : NvKeytbl → Bool × (Keyarg × S) → Option (Bool × (Keyarg × S))
  after_op kt r = if r.0 then some r else do_key kt r.1.0 r.1.1

  pub is_own : Option ℕ → ℕ → Bool
  is_own none a = false
  is_own (some b) a = b == a

  pub find_do_key : NvKeytbl → Keyarg → S → Option (Bool × (Keyarg × S))
  find_do_key kt ca s =
      if op_pending ca
      then if eqb_ℤ ca.key (pos 27)
        then some (false, (clearop ca, reg_clear_dcur s))
        else if is_own ca.optbl kt.address
        then (find_do_op ca s >>= after_op kt)
        else do_key kt ca s
      else do_key kt ca s
