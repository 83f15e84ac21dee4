-- ===== src/Grep.antt =====
-- grep.c: the matcher for `^`, `.`, `*` and `$`. Patterns and texts are lists of bytes without the NUL
-- that ends them.
pub mod Matcher
mod Tests
use xv6_fork.Prelude.{ℕ, Bool, true, false, ◌&&◌, ◌||◌, List, [], ◌∷◌, if◌then◌else◌, ◌==◌}

-- matchstar, where `here` is matchhere on the pattern behind the star.
pub matchstar : ℕ → (List ℕ → Bool) → List ℕ → Bool
matchstar c here [] = here []
matchstar c here (t ∷ text) =
    let rest = matchstar c here text in
    if here (t ∷ text) then true else (if (t == c) || (c == b'.') then rest else false)

abbrev pub is_end : List ℕ → Bool
is_end [] = true
is_end (t ∷ text) = false

-- The last case of matchhere: one character, and `rest` for what stands behind it.
abbrev pub match_one : ℕ → (List ℕ → Bool) → List ℕ → Bool
match_one c rest [] = false
match_one c rest (t ∷ text) = if (c == b'.') || (c == t) then rest text else false

pub matchhere : List ℕ → List ℕ → Bool
matchhere [] text = true
matchhere (c ∷ []) text = if c == b'$' then is_end text else match_one c (matchhere []) text
matchhere (c ∷ d ∷ re) text =
    let star = matchstar c (matchhere re) text in
    let one = match_one c (matchhere (d ∷ re)) text in if d == b'*' then star else one

-- The loop of match, from each place of the text to its end.
pub match_from : List ℕ → List ℕ → Bool
match_from re [] = matchhere re []
match_from re (t ∷ text) =
    let rest = match_from re text in if matchhere re (t ∷ text) then true else rest

pub match : List ℕ → List ℕ → Bool
match [] text = match_from [] text
match (c ∷ re) text = if c == b'^' then matchhere re text else match_from (c ∷ re) text
