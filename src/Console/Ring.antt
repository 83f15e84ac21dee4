-- ===== src/Console/Ring.antt =====
-- The ring of console.c as two queues: the characters that can be read, from `r` to `w`, and the line
-- that is typed, from `w` to `e`.
use xv6_fork.Prelude.{
  ℕ, zero, suc, ◌+◌, ◌-◌, ◌%◌, ◌≤◌, ◌<◌, ◌≡◌, ◌≢◌, refl, sym, ap, ◌∙◌, inl, inr, arith, List, [],
  ◌∷◌, ◌++◌, length, length-append, length-take, take, get_or, get_or-append_left,
  get_or-append_right, ◌==◌, Bool-cases, ltb, ltb→lt, u32_mod, add32, sub32, ◌⊎◌,
}
use xv6_fork.Console.{Input, input_buf, put}

-- `ready` can be read and `line` is typed.
pub record Shows (s : Input) (ready line : List ℕ) : Type 0 where
  pub r_word : s.r < u32_mod
  pub w_here : s.w ≡ add32 s.r (length ready)
  pub e_here : s.e ≡ add32 s.w (length line)
  pub fits : length ready + length line ≤ input_buf
  pub ready_at : (k : ℕ) → k < length ready → s.buf ((s.r + k) % input_buf) ≡ get_or ready k 0
  pub line_at : (k : ℕ) → k < length line → s.buf ((s.w + k) % input_buf) ≡ get_or line k 0

pub get_or-last : (xs : List ℕ) (c : ℕ) → get_or (xs ++ c ∷ []) (length xs) 0 ≡ c
get_or-last [] c = refl
get_or-last (x ∷ xs) c = get_or-last xs c

pub get_or-take : (n : ℕ) (xs : List ℕ) (k : ℕ) → k < n → get_or (take n xs) k 0 ≡ get_or xs k 0
get_or-take zero xs k h = absurd (omega arith)
get_or-take (suc n) [] k h = refl
get_or-take (suc n) (x ∷ xs) zero h = refl
get_or-take (suc n) (x ∷ xs) (suc k) h = get_or-take n xs k (omega arith)

put-other : (c : ℕ) (s : Input) (i : ℕ) → i ≢ s.e % input_buf → (put c s).buf i ≡ s.buf i
put-other c s i h = ground arith

put-here : (c : ℕ) (s : Input) (i : ℕ) → i ≡ s.e % input_buf → c < 256 → (put c s).buf i ≡ c
put-here c s i h byte = ground arith

pub at_or_before : (k n : ℕ) → k < suc n → (k < n) ⊎ (k ≡ n)
at_or_before k n h = omega arith

in_part : (k n : ℕ) → (k < n) ⊎ ((j : ℕ) × (k ≡ n + j))
in_part k n = elim (Bool-cases (ltb k n)) [
  | inl lt ↦ inl (ltb→lt k n lt)
  | inr ge ↦ inr (k - n, ground arith)
]

-- Nothing is typed or read.
pub initial-Shows : (b : ℕ → ℕ) → Shows (record { buf = b; r = 0; w = 0; e = 0 }) [] []
initial-Shows b = record {
  r_word = omega arith;
  w_here = refl;
  e_here = refl;
  fits = omega arith;
  ready_at = λ k h. absurd (omega arith);
  line_at = λ k h. absurd (omega arith);
}

module _ {s : Input} {ready line : List ℕ} (v : Shows s ready line) where
  pub no_line : (s.e == s.w) ≡ (length line == 0)
  no_line = ground (arith, v.r_word, v.w_here, v.e_here, v.fits)

  pub nothing_ready : (s.r == s.w) ≡ (length ready == 0)
  nothing_ready = ground (arith, v.r_word, v.w_here, v.fits)

  pub used : sub32 s.e s.r ≡ length ready + length line
  used = omega (arith, v.r_word, v.w_here, v.e_here, v.fits)

  pub filled : (s.e == add32 s.r input_buf) ≡ (length ready + length line == input_buf)
  filled = ground (arith, v.r_word, v.w_here, v.e_here, v.fits)

  -- The last character goes.
  pub shorter-Shows :
      (m : ℕ) → length line ≡ suc m → Shows (record s { e = sub32 s.e 1 }) ready (take m line)
  shorter-Shows m h =
      let short : length (take m line) ≡ m = omega (arith, length-take m line) in
      record {
        r_word = v.r_word;
        w_here = v.w_here;
        e_here = omega (arith, v.r_word, v.w_here, v.e_here, v.fits);
        fits = omega (arith, v.fits);
        ready_at = v.ready_at;
        line_at = λ k lt. v.line_at k (omega arith) ∙ sym (get_or-take m line k (omega arith));
      }

  pub last_char : (m : ℕ) → length line ≡ suc m → s.buf (sub32 s.e 1 % input_buf) ≡ get_or line m 0
  last_char m h =
      ap s.buf (omega (arith, v.r_word, v.w_here, v.e_here, v.fits)) ∙ v.line_at m (omega arith)

  -- A character is typed.
  pub put-Shows :
      (c : ℕ)
      → c < 256
      → length ready + length line < input_buf
      → Shows (put c s) ready (line ++ c ∷ [])
  put-Shows c byte room =
      let long : length (line ++ c ∷ []) ≡ suc (length line) =
        omega (arith, length-append line (c ∷ [])) in
      record {
        r_word = v.r_word;
        w_here = v.w_here;
        e_here = omega (arith, v.r_word, v.w_here, v.e_here, v.fits, long);
        fits = omega (arith, v.fits, long);
        ready_at = λ k lt.
            put-other c s _ (λ same. omega (arith, v.r_word, v.w_here, v.e_here)) ∙ v.ready_at k lt;
        line_at = λ k lt. elim (at_or_before k (length line) (omega arith)) [
          | inl before ↦
              put-other c s _ (λ same. omega (arith, v.r_word, v.w_here, v.e_here))
              ∙ v.line_at k before
              ∙ sym (get_or-append_left line (c ∷ []) k 0 before)
          | inr e ↦
              put-here c s _ (omega (arith, v.r_word, v.w_here, v.e_here)) byte
              ∙ sym (get_or-last line c)
              ∙ ap (λ i. get_or (line ++ c ∷ []) i 0) (sym e)
        ];
      }

  -- The line that is typed can be read.
  pub commit-Shows : Shows (record s { w = s.e }) (ready ++ line) []
  commit-Shows = record {
    r_word = v.r_word;
    w_here = omega (arith, v.r_word, v.w_here, v.e_here, v.fits, length-append ready line);
    e_here = omega (arith, v.e_here, v.w_here, v.fits);
    fits = omega (arith, v.fits, length-append ready line);
    ready_at = λ k lt. elim (in_part k (length ready)) [
      | inl before ↦ v.ready_at k before ∙ sym (get_or-append_left ready line k 0 before)
      | inr (j, e) ↦
          ap s.buf (omega (arith, v.r_word, v.w_here))
          ∙ v.line_at j (omega (arith, length-append ready line))
          ∙ sym (get_or-append_right ready line j 0)
          ∙ ap (λ i. get_or (ready ++ line) i 0) (sym e)
    ];
    line_at = λ k lt. absurd (omega arith);
  }

-- The first character that can be read is taken.
pub advance-Shows :
    (s : Input) (c : ℕ) (ready line : List ℕ)
    → Shows s (c ∷ ready) line
    → Shows (record s { r = add32 s.r 1 }) ready line
advance-Shows s c ready line v = record {
  r_word = omega arith;
  w_here = omega (arith, v.r_word, v.w_here);
  e_here = v.e_here;
  fits = omega (arith, v.fits);
  ready_at = λ k lt. ap s.buf (omega (arith, v.r_word)) ∙ v.ready_at (suc k) (omega arith);
  line_at = v.line_at;
}

pub first_char :
    (s : Input) (c : ℕ) (ready line : List ℕ)
    → Shows s (c ∷ ready) line
    → s.buf (s.r % input_buf) ≡ c
first_char s c ready line v = ap s.buf (omega arith) ∙ v.ready_at 0 (omega arith)

-- `input.r--` behind `input.r++`.
pub taken_back : (s : Input) → s.r < u32_mod → sub32 (add32 s.r 1) 1 ≡ s.r
taken_back s h = omega arith
