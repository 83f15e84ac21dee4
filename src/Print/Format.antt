-- ===== src/Print/Format.antt =====
-- printf and cprintf against the pieces of a format.
use xv6_fork.Prelude.{
  ℕ, ◌+◌, ◌≡◌, refl, ap, ◌∙◌, ◌≢◌, arith, true, false, List, [], ◌∷◌, ◌++◌, ◌==◌,
}
use xv6_fork.Print.{
  upper_digits, lower_digits, printint, text_of, directive, printf_from, printf, console_directive,
  cprintf_from, cprintf,
}

-- The pieces of a format: a character, `%d`, `%x`, `%s` and `%%`.
pub data Piece : Type 0 where
  plain : ℕ → Piece
  int hex text percent : Piece

abbrev pub show : Piece → List ℕ
show (plain c) = c ∷ []
show int = b'%' ∷ b'd' ∷ []
show hex = b'%' ∷ b'x' ∷ []
show text = b'%' ∷ b's' ∷ []
show percent = b'%' ∷ b'%' ∷ []

abbrev pub show_all : List Piece → List ℕ
show_all [] = []
show_all (p ∷ ps) = show p ++ show_all ps

abbrev pub IsPlain : Piece → Type 0
IsPlain (plain c) = c ≢ b'%'
IsPlain other = Unit {0}

abbrev pub AllPlain : List Piece → Type 0
AllPlain [] = Unit {0}
AllPlain (p ∷ ps) = IsPlain p × AllPlain ps

-- What the pieces print with a table of digits, and the arguments from `ap` on.
abbrev pub render : List ℕ → (ℕ → List ℕ) → (ℕ → ℕ) → ℕ → List Piece → List ℕ
render digits text_at args ap [] = []
render digits text_at args ap (plain c ∷ ps) = c ∷ render digits text_at args ap ps
render digits text_at args ap (int ∷ ps) =
    printint digits (args ap) 10 true ++ render digits text_at args (ap + 1) ps
render digits text_at args ap (hex ∷ ps) =
    printint digits (args ap) 16 false ++ render digits text_at args (ap + 1) ps
render digits text_at args ap (text ∷ ps) =
    text_of text_at (args ap) ++ render digits text_at args (ap + 1) ps
render digits text_at args ap (percent ∷ ps) = b'%' ∷ render digits text_at args ap ps

module _ (text_at : ℕ → List ℕ) (args : ℕ → ℕ) where
  same_ap : (k : ℕ) (fmt : List ℕ) (f : ℕ → List ℕ → List ℕ) → f (k + 0) fmt ≡ f k fmt
  same_ap k fmt f = ap (λ n. f n fmt) (omega arith)

  printf_from-render :
      (k : ℕ) (ps : List Piece)
      → AllPlain ps
      → printf_from text_at args false k (show_all ps) ≡ render upper_digits text_at args k ps
  unfolding printf_from directive
  printf_from-render k [] h = refl
  printf_from-render k (plain c ∷ ps) h =
      let other : (c == b'%') ≡ false = ground (arith, h.0) in
      rw other (ap (λ l. c ∷ l) (printf_from-render k ps h.1))
  printf_from-render k (int ∷ ps) h =
      ap (λ l. printint upper_digits (args k) 10 true ++ l) (printf_from-render (k + 1) ps h.1)
  printf_from-render k (hex ∷ ps) h =
      ap (λ l. printint upper_digits (args k) 16 false ++ l) (printf_from-render (k + 1) ps h.1)
  printf_from-render k (text ∷ ps) h =
      ap (λ l. text_of text_at (args k) ++ l) (printf_from-render (k + 1) ps h.1)
  printf_from-render k (percent ∷ ps) h =
      ap (λ l. b'%' ∷ l)
        (same_ap k (show_all ps) (printf_from text_at args false) ∙ printf_from-render k ps h.1)

  cprintf_from-plain :
      (k c : ℕ) (fmt : List ℕ)
      → c ≢ b'%'
      → cprintf_from text_at args k (c ∷ fmt) ≡ c ∷ cprintf_from text_at args k fmt
  unfolding cprintf_from
  cprintf_from-plain k c [] ne = let other : (c == b'%') ≡ false = ground arith in rw other refl
  cprintf_from-plain k c (d ∷ fmt) ne =
      let other : (c == b'%') ≡ false = ground arith in rw other refl

  cprintf_from-render :
      (k : ℕ) (ps : List Piece)
      → AllPlain ps
      → cprintf_from text_at args k (show_all ps) ≡ render lower_digits text_at args k ps
  unfolding cprintf_from console_directive
  cprintf_from-render k [] h = refl
  cprintf_from-render k (plain c ∷ ps) h =
      cprintf_from-plain k c (show_all ps) h.0 ∙ ap (λ l. c ∷ l) (cprintf_from-render k ps h.1)
  cprintf_from-render k (int ∷ ps) h =
      ap (λ l. printint lower_digits (args k) 10 true ++ l) (cprintf_from-render (k + 1) ps h.1)
  cprintf_from-render k (hex ∷ ps) h =
      ap (λ l. printint lower_digits (args k) 16 false ++ l) (cprintf_from-render (k + 1) ps h.1)
  cprintf_from-render k (text ∷ ps) h =
      ap (λ l. text_of text_at (args k) ++ l) (cprintf_from-render (k + 1) ps h.1)
  cprintf_from-render k (percent ∷ ps) h =
      ap (λ l. b'%' ∷ l)
        (same_ap k (show_all ps) (cprintf_from text_at args) ∙ cprintf_from-render k ps h.1)

-- On a format made of characters other than `%`, `%d`, `%x`, `%s` and `%%`, printf and cprintf print
-- the pieces in order, each directive taking the next argument; they differ in the case of hexadecimal
-- digits only.
pub printf-render :
    (text_at : ℕ → List ℕ) (args : ℕ → ℕ) (ps : List Piece)
    → AllPlain ps
    → (printf text_at args (show_all ps) ≡ render upper_digits text_at args 0 ps)
      × (cprintf text_at args (show_all ps) ≡ render lower_digits text_at args 0 ps)
unfolding printf cprintf
printf-render text_at args ps h =
    (printf_from-render text_at args 0 ps h, cprintf_from-render text_at args 0 ps h)
