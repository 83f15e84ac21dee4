-- ===== src/Shell/Tokens.antt =====
-- Tokens of sh.c: each one consumes text, and a word has no white space and no symbol.
use xv6_fork.Prelude.{
  ℕ, ◌≤◌, ◌<◌, ◌≡◌, ◌≢◌, refl, inl, inr, Bool-cases, arith, Bool, true, false, ◌||◌, List, [], ◌∷◌,
  if◌then◌else◌, ◌==◌, length,
}
use mathlib.Core.Path.{subst}
use xv6_fork.Shell.{
  contains, whitespace, symbols, skip, word, greater, single, token, gettoken, peek,
}

abbrev pub is_plain : ℕ → Bool
is_plain c = if contains whitespace c || contains symbols c then false else true

abbrev pub EachPlain : List ℕ → Type 0
EachPlain [] = Unit {0}
EachPlain (c ∷ s) = (is_plain c ≡ true) × EachPlain s

-- A word: some characters, none of them white space or a symbol.
abbrev pub IsWord : List ℕ → Type 0
IsWord w = (w ≢ []) × EachPlain w

pub length-skip : (s : List ℕ) → length (skip s) ≤ length s
unfolding skip
length-skip [] = omega arith
length-skip (c ∷ s) = elim (Bool-cases (contains whitespace c)) [
  | inl white ↦ rw white (omega (arith, length-skip s))
  | inr other ↦ rw other (omega arith)
]

-- What skip stops at is no white space.
abbrev IsStop : List ℕ → Type 0
IsStop [] = Unit {0}
IsStop (c ∷ s) = contains whitespace c ≡ false

skip-IsStop : (s : List ℕ) → IsStop (skip s)
unfolding skip
skip-IsStop [] = tt
skip-IsStop (c ∷ s) = elim (Bool-cases (contains whitespace c)) [
  | inl white ↦ rw white (skip-IsStop s)
  | inr other ↦ rw other other
]

pub skip-stop : (s : List ℕ) → IsStop s → skip s ≡ s
unfolding skip
skip-stop [] h = refl
skip-stop (c ∷ s) h = rw h refl

length-word : (s : List ℕ) → length (word s).1 ≤ length s
unfolding word
length-word [] = omega arith
length-word (c ∷ s) = elim (Bool-cases (contains whitespace c || contains symbols c)) [
  | inl ends ↦ rw ends (omega arith)
  | inr goes_on ↦ rw goes_on (omega (arith, length-word s))
]

word-EachPlain : (s : List ℕ) → EachPlain (word s).0
unfolding word
word-EachPlain [] = tt
word-EachPlain (c ∷ s) = elim (Bool-cases (contains whitespace c || contains symbols c)) [
  | inl ends ↦ rw ends tt
  | inr goes_on ↦ rw goes_on (rw goes_on refl, word-EachPlain s)
]

-- What a token of `s` is good for.
pub record IsToken (s : List ℕ) (t : ℕ × List ℕ × List ℕ) : Type 0 where
  pub shrinks : length t.2 ≤ length s
  pub consumes : t.0 ≢ 0 → length t.2 < length s
  pub is_word : t.0 ≡ b'a' → IsWord t.1

symbol-IsToken : (c : ℕ) (s : List ℕ) → contains single c ≡ true → IsToken (c ∷ s) (c, c ∷ [], s)
symbol-IsToken c s h = record {
  shrinks = omega arith;
  consumes = λ ne. omega arith;
  is_word = λ e. absurd (ground arith);
}

greater-IsToken : (s : List ℕ) → IsToken (b'>' ∷ s) (greater s)
greater-IsToken [] = record {
  shrinks = omega arith;
  consumes = λ ne. omega arith;
  is_word = λ e. absurd (omega arith);
}
greater-IsToken (d ∷ s) = elim (Bool-cases (d == b'>')) [
  | inl twice ↦ rw twice (record {
    shrinks = omega arith;
    consumes = λ ne. omega arith;
    is_word = λ e. absurd (omega arith);
  })
  | inr once ↦ rw once (record {
    shrinks = omega arith;
    consumes = λ ne. omega arith;
    is_word = λ e. absurd (omega arith);
  })
]

word-IsToken :
    (c : ℕ) (s : List ℕ)
    → (contains whitespace c || contains symbols c) ≡ false
    → IsToken (c ∷ s) (b'a', (word (c ∷ s)).0, (word (c ∷ s)).1)
unfolding word
word-IsToken c s plain = rw plain (record {
  shrinks = omega (arith, length-word s);
  consumes = λ ne. omega (arith, length-word s);
  is_word = λ e. ((λ nil. cc), (rw plain refl, word-EachPlain s));
})

not_symbol :
    (c : ℕ)
    → contains whitespace c ≡ false
    → contains single c ≡ false
    → (c == b'>') ≡ false
    → (contains whitespace c || contains symbols c) ≡ false
not_symbol c w a b = ground arith

pub token-IsToken : (s : List ℕ) → IsStop s → IsToken s (token s)
unfolding token
token-IsToken [] h = record {
  shrinks = omega arith;
  consumes = λ ne. absurd (ne refl);
  is_word = λ e. absurd (omega arith);
}
token-IsToken (c ∷ s) h = elim (Bool-cases (contains single c)) [
  | inl one ↦ rw one (symbol-IsToken c s one)
  | inr other ↦ elim (Bool-cases (c == b'>')) [
    | inl gt ↦
        let is_gt : b'>' ≡ c = ground arith in
        rw (other, gt) (subst (λ k. IsToken (k ∷ s) (greater s)) is_gt (greater-IsToken s))
    | inr plain ↦ rw (other, plain) (word-IsToken c s (not_symbol c h other plain))
  ]
]

pub gettoken-IsToken : (s : List ℕ) → IsToken s (gettoken s)
unfolding gettoken
gettoken-IsToken s =
    let t = token-IsToken (skip s) (skip-IsStop s) in
    record {
      shrinks = omega (arith, length-skip s, length-skip (token (skip s)).2, t.shrinks);
      consumes = λ ne. omega (arith, length-skip s, length-skip (token (skip s)).2, t.consumes ne);
      is_word = t.is_word;
    }

token-some : (c : ℕ) (s : List ℕ) → (token (c ∷ s)).0 ≢ 0
unfolding token
token-some c s = elim (Bool-cases (contains single c)) [
  | inl one ↦ rw one (λ e. ground arith)
  | inr other ↦ elim (Bool-cases (c == b'>')) [
    | inl gt ↦ rw (other, gt) (greater-some s)
    | inr plain ↦ rw (other, plain) (λ e. omega arith)
  ]
]
  where
    greater-some : (s : List ℕ) → (greater s).0 ≢ 0
    greater-some [] = λ e. omega arith
    greater-some (d ∷ s) = elim (Bool-cases (d == b'>')) [
      | inl twice ↦ rw twice (λ e. omega arith)
      | inr once ↦ rw once (λ e. omega arith)
    ]

pub length-peek : (toks s : List ℕ) → length (peek toks s).1 ≤ length s
unfolding peek
length-peek toks s = length-skip s

-- A character that peek has seen is a token.
pub gettoken-peek : (toks s : List ℕ) → (peek toks s).0 ≡ true → (gettoken (peek toks s).1).0 ≢ 0
unfolding peek gettoken
gettoken-peek toks s e = rw (skip-stop (skip s) (skip-IsStop s)) (seen (skip s) e)
  where
    seen :
        (t : List ℕ)
        → (elim t as (λ x. Bool) [ [] ↦ false | c ∷ u ↦ contains toks c ]) ≡ true
        → (token t).0 ≢ 0
    seen [] e = absurd (cc)
    seen (c ∷ t) e = token-some c t

-- A seen character is consumed.
pub length-seen :
    (toks s : List ℕ) → (peek toks s).0 ≡ true → length (gettoken (peek toks s).1).2 < length s
length-seen toks s e = omega (
  arith,
  (gettoken-IsToken (peek toks s).1).consumes (gettoken-peek toks s e),
  length-peek toks s,
)
