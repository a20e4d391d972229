-- ===== src/Text/Shell.antt =====
-- util.c, what a shell reads of the quoted and escaped text, and the sizes of the buffers.
use fnav.Prelude.{
  ℕ, zero, suc, ◌+◌, ◌≡◌, ◌≢◌, inl, inr, refl, ap, ◌∙◌, true, false, Option, none, some, List, [],
  ◌∷◌, ◌++◌, ◌≤◌, arith, ◌==◌, length, All, append_assoc, append-nil, Bool-cases,
}
use fnav.Text.{
  escs, escs_hits, escape_byte, escape_shell, quoted_bytes, strncat_shell, arg_len, argv_rest,
  lines2argv,
}

-- How `sh` splits a command line into words, for the quoting that util.c produces: blanks, single
-- quotes and backslashes (POSIX.1-2017, XCU 2.2.1 and 2.2.2). The other characters stand for
-- themselves. An open quote or a backslash at the end is no complete word.
data Mode : Type 0 where
  gap word quoted escaped : Mode

-- The rest of the word that is being read is the head of the list.
pub onto : ℕ → Option (List (List ℕ)) → Option (List (List ℕ))
onto c none = none
onto c (some []) = none
onto c (some (w ∷ ws)) = some ((c ∷ w) ∷ ws)

pub new_word : Option (List (List ℕ)) → Option (List (List ℕ))
new_word none = none
new_word (some ws) = some ([] ∷ ws)

-- In `gap` no word has begun; the other three modes are inside a word.
split : Mode → List ℕ → Option (List (List ℕ))
split gap [] = some []
split word [] = some ([] ∷ [])
split quoted [] = none
split escaped [] = none
split gap (c ∷ s) = elim (c == 32) [
  | true ↦ split gap s
  | false ↦ elim (c == 39) [
    | true ↦ split quoted s
    | false ↦ elim (c == 92) [ true ↦ split escaped s | false ↦ onto c (split word s) ]
  ]
]
split word (c ∷ s) = elim (c == 32) [
  | true ↦ new_word (split gap s)
  | false ↦ elim (c == 39) [
    | true ↦ split quoted s
    | false ↦ elim (c == 92) [ true ↦ split escaped s | false ↦ onto c (split word s) ]
  ]
]
split quoted (c ∷ s) = elim (c == 39) [ true ↦ split word s | false ↦ onto c (split quoted s) ]
split escaped (c ∷ s) = onto c (split word s)

pub sh_words : List ℕ → Option (List (List ℕ))
unfolding split onto new_word
sh_words s = split gap s

-- `onto` for each byte of `a`.
onto_all : List ℕ → Option (List (List ℕ)) → Option (List (List ℕ))
onto_all [] r = r
onto_all (c ∷ a) r = onto c (onto_all a r)

onto_all-some :
    (a w : List ℕ) (ws : List (List ℕ)) → onto_all a (some (w ∷ ws)) ≡ some ((a ++ w) ∷ ws)
unfolding onto_all onto
onto_all-some [] w ws = refl
onto_all-some (c ∷ a) w ws = ap (onto c) (onto_all-some a w ws)

-- Inside quotes the bytes of the argument come back, and the closing quote ends them.
split-quoted_bytes :
    (a rest : List ℕ) → split quoted (quoted_bytes a ++ (39 ∷ rest)) ≡ onto_all a (split word rest)
unfolding split quoted_bytes onto_all
split-quoted_bytes [] rest = refl
split-quoted_bytes (c ∷ a) rest = elim (Bool-cases (c == 39)) [
  | inl e ↦ ground (arith, split-quoted_bytes a rest)
  | inr e ↦ ground (arith, split-quoted_bytes a rest)
]

-- One argument, from a gap, before a rest that begins in the gap after a space or is empty.
split-strncat_shell :
    (a rest : List ℕ) → split gap (strncat_shell a ++ rest) ≡ onto_all a (split word rest)
unfolding split strncat_shell
split-strncat_shell a rest =
    rw (append_assoc (quoted_bytes a) (39 ∷ []) rest) (split-quoted_bytes a rest)

-- One quoted argument, then a rest whose words are known.
split-argument :
    (a rest : List ℕ) (argv : List (List ℕ))
    → split word rest ≡ some ([] ∷ argv)
    → split gap (strncat_shell a ++ rest) ≡ some (a ∷ argv)
split-argument a rest argv h =
    rw (split-strncat_shell a rest, h, onto_all-some a [] argv, append-nil)

split-argv_rest : (argv : List (List ℕ)) → split word (argv_rest argv) ≡ some ([] ∷ argv)
unfolding split new_word argv_rest
split-argv_rest [] = refl
split-argv_rest (a ∷ argv) = rw (split-argument a (argv_rest argv) argv (split-argv_rest argv))

-- A shell reads from the line that `lines2argv` builds exactly the arguments that it was given,
-- whatever bytes they hold: quotes, blanks, backslashes, and empty arguments too.
pub sh_words-lines2argv : (argv : List (List ℕ)) → sh_words (lines2argv argv) ≡ some argv
unfolding sh_words lines2argv
sh_words-lines2argv [] = refl
sh_words-lines2argv (a ∷ argv) = split-argument a (argv_rest argv) argv (split-argv_rest argv)

length-quoted_bytes : (a : List ℕ) → length (quoted_bytes a) ≡ arg_len a
unfolding quoted_bytes arg_len
length-quoted_bytes [] = refl
length-quoted_bytes (c ∷ a) = ground (arith, length-quoted_bytes a)

length-escape_byte : (n c : ℕ) → length (escape_byte n c) ≡ n + 1
unfolding escape_byte
length-escape_byte zero c = omega arith
length-escape_byte (suc n) c = omega (arith, length-escape_byte n c)

-- At most one entry of `escs` is a given byte, and none is a byte that the shell quotes with.
escs_hits-le-one : (c : ℕ) → escs_hits c escs ≤ 1
unfolding escs_hits
escs_hits-le-one c = ground arith

escs_hits-quote : (escs_hits 39 escs ≡ 0) × (escs_hits 92 escs ≡ 0) × (escs_hits 34 escs ≡ 0)
unfolding escs_hits
escs_hits-quote = (refl, refl, refl)

escs_hits-blank : escs_hits 32 escs ≡ 1
unfolding escs_hits
escs_hits-blank = refl

-- A byte that is neither a single quote nor a backslash.
abbrev pub IsPlain : ℕ → Type 0
IsPlain c = (c ≢ 39) × (c ≢ 92)

split-escape_byte :
    (n c : ℕ) (rest : List ℕ)
    → n ≡ escs_hits c escs
    → IsPlain c
    → (split word (escape_byte n c ++ rest) ≡ onto c (split word rest))
      × (split gap (escape_byte n c ++ rest) ≡ onto c (split word rest))
unfolding split escape_byte
split-escape_byte zero c rest h p = ground (arith, escs_hits-blank)
split-escape_byte (suc zero) c rest h p = (refl, refl)
split-escape_byte (suc (suc n)) c rest h p = absurd (omega (arith, escs_hits-le-one c))

split-escape_shell : (s : List ℕ) → All IsPlain s → split word (escape_shell s) ≡ some (s ∷ [])
unfolding split escape_shell onto
split-escape_shell [] h = refl
split-escape_shell (c ∷ s) h =
    (split-escape_byte (escs_hits c escs) c (escape_shell s) refl h.0).0
    ∙ ap (onto c) {y = some (s ∷ [])} (split-escape_shell s h.1)

-- A shell reads from `escape_shell s` the one word `s`, if `s` is not empty and holds no single
-- quote and no backslash, which `escape_shell` leaves as they are.
pub sh_words-escape_shell :
    (c : ℕ) (s : List ℕ)
    → All IsPlain (c ∷ s)
    → sh_words (escape_shell (c ∷ s)) ≡ some ((c ∷ s) ∷ [])
unfolding sh_words escape_shell onto
sh_words-escape_shell c s h =
    (split-escape_byte (escs_hits c escs) c (escape_shell s) refl h.0).1
    ∙ ap (onto c) {y = some (s ∷ [])} (split-escape_shell s h.1)
