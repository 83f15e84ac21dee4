-- ===== src/Print/RoundTrip.antt =====
-- atoi reads back what printint prints.
use xv6_fork.Prelude.{
  ℕ, zero, suc, ◌+◌, ◌*◌, ◌/◌, ◌%◌, ◌<◌, ◌≡◌, refl, sym, ap, ◌∙◌, inl, inr, Bool-cases, arith, Bool,
  true, false, ◌&&◌, List, [], ◌∷◌, ◌++◌, append_assoc, ◌==◌, leb, get_or,
}
use mathlib.Core.List.{reverse, reverse_aux-eq}
use xv6_fork.Print.{store_digits, is_negative, fill_buf, printint, atoi_from, atoi}
use xv6_fork.Print.Digits.{divided, word_divided, IsDecimal}

reverse_cons : (d : ℕ) (ds rest : List ℕ) → reverse (d ∷ ds) ++ rest ≡ reverse ds ++ (d ∷ rest)
reverse_cons d ds rest =
    ap (λ l. l ++ rest) (reverse_aux-eq ds (d ∷ [])) ∙ append_assoc (reverse ds) (d ∷ []) rest

atoi_from-digit :
    (n v c : ℕ) (rest : List ℕ)
    → v < 10
    → c ≡ b'0' + v
    → atoi_from n (c ∷ rest) ≡ atoi_from (n * 10 + v) rest
unfolding atoi_from
atoi_from-digit n v c rest h e =
    let inside : (leb b'0' c && leb c b'9') ≡ true = ground arith in
    rw inside (ap (λ m. atoi_from m rest) (omega arith))

-- Reading the stored digits backwards gives the number, and reading goes on behind them.
atoi_from-store_digits :
    (f x : ℕ) (digits rest : List ℕ)
    → IsDecimal digits
    → divided f x 10 ≡ 0
    → atoi_from 0 (reverse (store_digits f digits x 10) ++ rest) ≡ atoi_from x rest
unfolding store_digits
atoi_from-store_digits zero x digits rest ten e = ap (λ n. atoi_from n rest) (sym e)
atoi_from-store_digits (suc f) x digits rest ten e = elim (Bool-cases (x / 10 == 0)) [
  | inl last ↦ rw last (
      atoi_from-digit 0 (x % 10) _ rest (omega arith) (ten (x % 10) (omega arith))
      ∙ ap (λ n. atoi_from n rest) (ground arith))
  | inr more ↦ rw more (
      ap (atoi_from 0)
        (reverse_cons (get_or digits (x % 10) 0) (store_digits f digits (x / 10) 10) rest)
      ∙ atoi_from-store_digits f (x / 10) digits (get_or digits (x % 10) 0 ∷ rest) ten e
      ∙ atoi_from-digit (x / 10) (x % 10) _ rest (omega arith) (ten (x % 10) (omega arith))
      ∙ ap (λ n. atoi_from n rest) (omega arith))
]

-- The text does not start with a digit.
abbrev pub NoDigit : List ℕ → Type 0
NoDigit [] = Unit {0}
NoDigit (c ∷ s) = (leb b'0' c && leb c b'9') ≡ false

atoi_from-stop : (n : ℕ) (s : List ℕ) → NoDigit s → atoi_from n s ≡ n
unfolding atoi_from
atoi_from-stop n [] h = refl
atoi_from-stop n (c ∷ s) h = rw h refl

-- atoi reads back a number below the sign bit that printint prints in base 10, signed or not, with any
-- text behind it that does not start with a digit.
pub atoi-printint :
    (digits : List ℕ) (xx : ℕ) (sgn : Bool) (rest : List ℕ)
    → IsDecimal digits
    → xx < 0x80000000
    → NoDigit rest
    → atoi (printint digits xx 10 sgn ++ rest) ≡ xx
unfolding atoi printint fill_buf
atoi-printint digits xx sgn rest ten h stop =
    let plain : (sgn && is_negative xx) ≡ false = ground arith in
    let ends : divided 32 xx 10 ≡ 0 = ap (λ y. divided 22 y 10) (word_divided xx (omega arith)) in
    rw plain (atoi_from-store_digits 32 xx digits rest ten ends ∙ atoi_from-stop xx rest stop)
