-- ===== src/Console/Reads.antt =====
-- consoleread of console.c, against a queue of characters.
use xv6_fork.Prelude.{
  ℕ, zero, suc, ◌-◌, ◌≡◌, refl, sym, ap, ◌∙◌, inl, inr, arith, Bool, false, List, [], ◌∷◌,
  if◌then◌else◌, ◌==◌, Bool-cases, ltb, add32, sub32,
}
use mathlib.Core.Path.{subst}
use xv6_fork.Console.{Input, newline, end_of_file, ReadOutcome, returned, failed, asleep, read_from}
use xv6_fork.Console.Ring.{Shows, nothing_ready, advance-Shows, first_char, taken_back}

-- What a read of the characters `ready` leaves, hands over and comes to. It stops behind a newline,
-- and at an end of file, which it leaves where it has handed something over.
unfoldable pub spec_read : ℕ → Bool → ℕ → List ℕ → List ℕ × List ℕ × ReadOutcome
spec_read target killed zero ready = (ready, [], returned target)
spec_read target killed (suc n) [] = ([], [], if killed then failed else asleep (suc n))
spec_read target killed (suc n) (c ∷ ready) =
    let rest = spec_read target killed n ready in
    if c == end_of_file
    then (if ltb (suc n) target then c ∷ ready else ready, [], returned (target - suc n))
    else (if c == newline
        then (ready, c ∷ [], returned (target - n))
        else (rest.0, c ∷ rest.1, rest.2))

pub record ReadsAs (line : List ℕ) (out : Input × List ℕ × ReadOutcome)
    (want : List ℕ × List ℕ × ReadOutcome) : Type 0 where
  pub shows : Shows out.0 want.0 line
  pub bytes : out.1 ≡ want.1
  pub ended : out.2 ≡ want.2

-- The character stays where it was.
kept-Shows :
    {s : Input} {ready line : List ℕ}
    → Shows s ready line
    → Shows (record s { r = sub32 (add32 s.r 1) 1 }) ready line
kept-Shows {s = s} {ready = ready} {line = line} v =
    subst (λ r. Shows (record s { r = r }) ready line) (sym (taken_back s v.r_word)) v

pub read_from-ReadsAs :
    (n target : ℕ) (killed : Bool) (s : Input) (ready line : List ℕ)
    → Shows s ready line
    → ReadsAs line (read_from target killed n s) (spec_read target killed n ready)
unfolding read_from spec_read
read_from-ReadsAs zero target killed s ready line v = record {
  shows = v;
  bytes = refl;
  ended = refl;
}
read_from-ReadsAs (suc n) target killed s [] line v =
    rw (nothing_ready v) record { shows = v; bytes = refl; ended = refl }
read_from-ReadsAs (suc n) target killed s (c ∷ ready) line v =
    let a = advance-Shows s c ready line v in
    let some_left : (s.r == s.w) ≡ false = nothing_ready v ∙ ground arith in
    let rest = read_from-ReadsAs n target killed (record s { r = add32 s.r 1 }) ready line a in
    rw (some_left, first_char s c ready line v)
      (elim (Bool-cases (c == end_of_file)) [
        | inl stop ↦ rw stop (elim (Bool-cases (ltb (suc n) target)) [
          | inl some_read ↦ rw some_read record { shows = kept-Shows v; bytes = refl; ended = refl }
          | inr none_read ↦ rw none_read record { shows = a; bytes = refl; ended = refl }
        ])
        | inr goes ↦ rw goes (elim (Bool-cases (c == newline)) [
          | inl line_end ↦ rw line_end record { shows = a; bytes = refl; ended = refl }
          | inr inside ↦
              rw inside record {
                shows = rest.shows;
                bytes = ap (λ t. c ∷ t) rest.bytes;
                ended = rest.ended;
              }
        ])
      ])
