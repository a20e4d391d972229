-- ===== src/Syntax/Tokens.antt =====
-- cmdline.c: the tokens of a line lie in it one behind the other.
use fnav.Prelude.{
  ℕ, zero, suc, ◌+◌, ◌-◌, ◌≤◌, ◌<◌, ◌≡◌, ◌⊎◌, refl, sym, ◌∙◌, ap, Bool, true, false, ◌&&◌, ◌||◌,
  not, some, List, [], ◌∷◌, ◌++◌, arith, ltb, ◌==◌, length, take, drop, Bool-cases, inl, inr,
}
use fnav.Text.{byte_at}
use fnav.Syntax.{
  Token, is_one_of, tokenchars, chr_len, create_token, Lexer, start_lexer, lex_quote, lex_symbol,
  lex_char, lex_from, cmdline_tokenize,
}

-- A quoted token stands between two quotes of one kind.
abbrev pub IsQuoted : List ℕ → Token → Type 0
IsQuoted str t =
    (1 ≤ t.start)
    × (byte_at str (t.start - 1) ≡ byte_at str t.end)
    × ((byte_at str t.end ≡ 34) ⊎ (byte_at str t.end ≡ 39))

abbrev pub QuotedIf : Bool → List ℕ → Token → Type 0
QuotedIf true str t = IsQuoted str t
QuotedIf false str t = Unit

-- A token holds its bytes of the line, at least one.
pub record IsToken (str : List ℕ) (t : Token) : Type 0 where
  pub some_bytes : t.start < t.end
  pub bytes : t.v_string ≡ take (t.end - t.start) (drop t.start str)
  pub quotes : QuotedIf t.quoted str t

-- The tokens stand between `lo` and `hi`, each behind the end of the one before.
abbrev pub Chain : List ℕ → ℕ → ℕ → List Token → Type 0
Chain str lo hi [] = lo ≤ hi
Chain str lo hi (t ∷ ts) = (lo ≤ t.start) × IsToken str t × Chain str t.end hi ts

module _ (str : List ℕ) where
  Chain-snoc :
      (lo hi hi' : ℕ) (ts : List Token) (t : Token)
      → Chain str lo hi ts
      → hi ≤ t.start
      → t.end ≤ hi'
      → IsToken str t
      → Chain str lo hi' (ts ++ (t ∷ []))
  Chain-snoc lo hi hi' [] t c h k w = (omega arith, w, k)
  Chain-snoc lo hi hi' (u ∷ ts) t c h k w = (c.0, c.1, Chain-snoc u.end hi hi' ts t c.2 h k w)

  Chain-raise :
      (lo hi hi' : ℕ) (ts : List Token) → hi ≤ hi' → Chain str lo hi ts → Chain str lo hi' ts
  Chain-raise lo hi hi' [] h c = omega arith
  Chain-raise lo hi hi' (u ∷ ts) h c = (c.0, c.1, Chain-raise u.end hi hi' ts h c.2)

  create_token-Chain :
      (hi hi' st ed : ℕ) (q : Bool) (ts : List Token)
      → Chain str 0 hi ts
      → hi ≤ st
      → hi ≤ hi'
      → ed ≤ hi'
      → QuotedIf q str (record {
        quoted = q;
        symb = 0;
        start = st;
        end = ed;
        v_string = take (ed - st) (drop st str);
      })
      → Chain str 0 hi' (create_token ts str st ed q)
  unfolding create_token
  create_token-Chain hi hi' st ed q ts c h k l w = elim (Bool-cases (ltb ed (st + 1))) [
    | inl e ↦ rw e (Chain-raise 0 hi hi' ts k c)
    | inr e ↦ rw e (
        Chain-snoc 0 hi hi' ts _ c h l
          (record { some_bytes = ground arith; bytes = refl; quotes = w }))
  ]

byte_at-inside : (s : List ℕ) (i : ℕ) → (byte_at s i == 0) ≡ false → i < length s
unfolding byte_at
byte_at-inside [] i h = absurd (ground arith)
byte_at-inside (c ∷ s) zero h = omega arith
byte_at-inside (c ∷ s) (suc i) h = omega (arith, byte_at-inside s i h)

-- Where the search for a byte stops: inside the string, or at its end.
chr_len-at :
    (s : List ℕ) (i c : ℕ)
    → i ≤ length s
    → (i + chr_len (drop i s) c ≤ length s)
      × ((byte_at s (i + chr_len (drop i s) c) == 0) ≡ false
          → byte_at s (i + chr_len (drop i s) c) ≡ c)
unfolding chr_len byte_at
chr_len-at [] zero c h = (omega arith, λ e. absurd (ground arith))
chr_len-at [] (suc i) c h = absurd (omega arith)
chr_len-at (d ∷ s) zero c h = elim (Bool-cases (d == c)) [
  | inl e ↦ ground arith
  | inr e ↦ let r = chr_len-at s zero c (omega arith) in ground (arith, r)
]
chr_len-at (d ∷ s) (suc i) c h = let r = chr_len-at s i c (omega arith) in ground (arith, r)

-- The tokens so far end in front of the token that is being read, and that one in front of `pos`.
record IsLexed (str : List ℕ) (s : Lexer) : Type 0 where
  chain : Chain str 0 s.st s.tokens
  behind : s.st ≤ s.pos
  read : s.ed ≤ s.pos
  inside : s.pos ≤ length str

module _ (str : List ℕ) where
  lex_quote-IsLexed :
      (ch : ℕ) (s : Lexer)
      → IsLexed str s
      → 1 ≤ s.pos
      → s.st < s.pos
      → byte_at str (s.pos - 1) ≡ ch
      → (ch == 34 || ch == 39) ≡ true
      → IsLexed str (lex_quote str ch s) × (s.pos ≤ (lex_quote str ch s).pos)
  unfolding lex_quote
  lex_quote-IsLexed ch s v one st at_ch is_quote =
      let close = s.pos + chr_len (drop s.pos str) ch in
      let (within, found) = chr_len-at str s.pos ch v.inside in
      elim (Bool-cases (byte_at str (close - 1) == 92)) [
        | inl e ↦ rw e (v, omega arith)
        | inr e ↦ elim (Bool-cases (byte_at str close == 0)) [
          | inl f ↦
              rw (e, f)
                (
                  record {
                    chain =
                        create_token-Chain str s.st close (s.pos - 1) close false s.tokens v.chain
                          (omega arith) (omega arith) (omega arith) tt;
                    behind = omega arith;
                    read = omega (arith, v.read);
                    inside = within;
                  },
                  omega arith,
                )
          | inr f ↦
              rw (e, f)
                (
                  record {
                    chain =
                        create_token-Chain str s.st (close + 1) s.pos close true s.tokens v.chain
                          (omega arith) (omega arith) (omega arith)
                          (omega arith, at_ch ∙ sym (found f), ground (arith, found f, is_quote));
                    behind = omega arith;
                    read = omega (arith, v.read);
                    inside = omega (arith, byte_at-inside str close f);
                  },
                  omega arith,
                )
        ]
      ]

  lex_symbol-IsLexed :
      (ch : ℕ) (s : Lexer)
      → IsLexed str s
      → 1 ≤ s.pos
      → s.st < s.pos
      → s.ed < s.pos
      → IsLexed str (lex_symbol str ch s) × ((lex_symbol str ch s).pos ≡ s.pos)
  unfolding lex_symbol
  lex_symbol-IsLexed ch s v one st ed =
      let first =
        create_token-Chain str s.st (s.pos - 1) s.st s.ed false s.tokens v.chain (omega arith)
          (omega arith) (omega arith) tt in
      elim (Bool-cases (ch == 32)) [
        | inl e ↦ rw e (
          record {
            chain = Chain-raise str 0 (s.pos - 1) s.pos _ (omega arith) first;
            behind = omega arith;
            read = v.read;
            inside = v.inside;
          },
          refl,
        )
        | inr e ↦ rw e (
          record {
            chain =
                create_token-Chain str (s.pos - 1) s.pos (s.pos - 1) s.pos false _ first
                  (omega arith) (omega arith) (omega arith) tt;
            behind = omega arith;
            read = omega arith;
            inside = v.inside;
          },
          refl,
        )
      ]

  -- A round keeps the invariant and moves on.
  lex_char-IsLexed :
      (s : Lexer)
      → IsLexed str s
      → s.pos < length str
      → IsLexed str (lex_char str (byte_at str s.pos) s)
        × (s.pos < (lex_char str (byte_at str s.pos) s).pos)
  unfolding lex_char
  lex_char-IsLexed s v h =
      let ch = byte_at str s.pos in
      let t = record s { pos = s.pos + 1 } in
      let w : IsLexed str t = record {
        chain = v.chain;
        behind = omega (arith, v.behind);
        read = omega (arith, v.read);
        inside = omega arith;
      } in
      elim (Bool-cases (ch == 92 && not s.esc)) [
        | inl a ↦ rw a (
          record { chain = w.chain; behind = w.behind; read = w.read; inside = w.inside },
          omega arith,
        )
        | inr a ↦ elim (Bool-cases ((ch == 34 || ch == 39) && not s.esc)) [
          | inl b ↦
              let (x, y) =
                lex_quote-IsLexed ch t w (omega arith) (omega (arith, v.behind))
                  (ap (byte_at str) (omega arith)) (ground arith) in
              rw (a, b)
                (
                  record { chain = x.chain; behind = x.behind; read = x.read; inside = x.inside },
                  omega arith,
                )
          | inr b ↦ elim (Bool-cases (is_one_of tokenchars ch && not s.esc)) [
            | inl c ↦
                let (x, y) =
                  lex_symbol-IsLexed ch t w (omega arith) (omega (arith, v.behind))
                    (omega (arith, v.read)) in
                rw (a, b, c)
                  (
                    record { chain = x.chain; behind = x.behind; read = x.read; inside = x.inside },
                    omega arith,
                  )
            | inr c ↦
                rw (a, b, c)
                  (
                    record {
                      chain = w.chain;
                      behind = w.behind;
                      read = omega arith;
                      inside = w.inside;
                    },
                    omega arith,
                  )
          ]
        ]
      ]

  lex_from-Chain :
      (fuel : ℕ) (s : Lexer)
      → IsLexed str s
      → length str < s.pos + fuel
      → (ts : List Token) × (cont : Bool) × (lex_from fuel str s ≡ some (ts, cont))
        × Chain str 0 (length str) ts
  unfolding lex_from
  lex_from-Chain zero s v h = absurd (omega (arith, v.inside))
  lex_from-Chain (suc fuel) s v h = go (byte_at str s.pos == 0) refl (lex_from-Chain fuel)
    where
      go :
          (b : Bool)
          → (byte_at str s.pos == 0) ≡ b
          → ((t : Lexer)
              → IsLexed str t
              → length str < t.pos + fuel
              → (ts : List Token) × (cont : Bool) × (lex_from fuel str t ≡ some (ts, cont))
                × Chain str 0 (length str) ts)
          → (ts : List Token) × (cont : Bool) × (lex_from (suc fuel) str s ≡ some (ts, cont))
            × Chain str 0 (length str) ts
      go true e ih = (
        create_token s.tokens str s.st s.ed false,
        s.esc,
        rw (e, lex_from),
        create_token-Chain str s.st (length str) s.st s.ed false s.tokens v.chain (omega arith)
            (omega (arith, v.behind, v.inside)) (omega (arith, v.read, v.inside)) tt,
      )
      go false e ih =
          let (w, k) = lex_char-IsLexed s v (byte_at-inside str s.pos e) in
          let (ts, cont, f, c) = ih (lex_char str (byte_at str s.pos) s) w (omega arith) in
          (ts, cont, rw (e, lex_from) f, c)

  -- The tokenizer ends for every line, and its tokens are parts of the line, none of them empty, one
  -- behind the other without an overlap, from the start to the end; a quoted one stands between two
  -- quotes of one kind.
  pub cmdline_tokenize-Chain :
      (ts : List Token) × (cont : Bool) × (cmdline_tokenize str ≡ some (ts, cont))
      × Chain str 0 (length str) ts
  unfolding cmdline_tokenize start_lexer
  cmdline_tokenize-Chain =
      lex_from-Chain (length str + 1) _
        (record {
          chain = omega arith;
          behind = omega arith;
          read = omega arith;
          inside = omega arith;
        })
        (omega arith)
