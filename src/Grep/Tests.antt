-- ===== src/Grep/Tests.antt =====
-- grep.c on `a.*d$`.
use xv6_fork.Prelude.{ℕ, ◌≡◌, ◌↔◌, refl, true, false, List, [], ◌∷◌}
use xv6_fork.Grep.{matchstar, matchhere, match_from, match}
use xv6_fork.Grep.Matcher.{Meets, match-Meets}

abbrev pattern_text : List ℕ
pattern_text = b'a' ∷ b'.' ∷ b'*' ∷ b'd' ∷ b'$' ∷ []

abbrev line : List ℕ
line = b'x' ∷ b'a' ∷ b'b' ∷ b'd' ∷ []

match-Meets_example : (match pattern_text line ≡ true) ↔ Meets pattern_text line
match-Meets_example = match-Meets pattern_text line

line_found : match pattern_text line ≡ true
unfolding match match_from matchhere matchstar
line_found = refl

anchored : match (b'^' ∷ pattern_text) line ≡ false
unfolding match match_from matchhere matchstar
anchored = refl
