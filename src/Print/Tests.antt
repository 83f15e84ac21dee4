-- ===== src/Print/Tests.antt =====
-- Printing and reading of 2026.
use xv6_fork.Prelude.{ℕ, ◌+◌, ◌≡◌, refl, arith, true, List, [], ◌∷◌, ◌++◌}
use xv6_fork.Print.{
  upper_digits, lower_digits, store_digits, fill_buf, printint, atoi, printf, cprintf,
}
use xv6_fork.Print.Digits.{upper_digits-IsDecimal}
use xv6_fork.Print.RoundTrip.{atoi-printint}
use xv6_fork.Print.Format.{Piece, plain, int, text, show_all, render, printf-render}

abbrev behind : List ℕ
behind = b' ' ∷ b'7' ∷ []

atoi-printint_example : atoi (printint upper_digits 2026 10 true ++ behind) ≡ 2026
atoi-printint_example =
    atoi-printint upper_digits 2026 true behind upper_digits-IsDecimal (omega arith) refl

minus_one : printint upper_digits 0xffffffff 10 true ≡ b'-' ∷ b'1' ∷ []
unfolding printint fill_buf store_digits
minus_one = refl

abbrev pieces : List Piece
pieces = plain b'p' ∷ int ∷ text ∷ []

abbrev args : ℕ → ℕ
args i = i + 12

abbrev words : ℕ → List ℕ
words p = b'o' ∷ b'k' ∷ []

printf-render_example :
    (printf words args (show_all pieces) ≡ render upper_digits words args 0 pieces)
    × (cprintf words args (show_all pieces) ≡ render lower_digits words args 0 pieces)
printf-render_example = printf-render words args pieces ((λ e. omega arith), (tt, (tt, tt)))
