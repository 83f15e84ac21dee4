-- ===== src/Console/Editor.antt =====
-- The editor of lines that specifies consoleintr of console.c, and its keys that erase.
use xv6_fork.Prelude.{
  ℕ, zero, suc, ◌+◌, ◌-◌, ◌%◌, ◌≤◌, ◌<◌, ◌≡◌, ◌≢◌, refl, sym, ap, ◌∙◌, inl, inr, arith, true, false,
  not, ◌&&◌, ◌||◌, List, [], ◌∷◌, ◌++◌, length, take, replicate, get_or, if◌then◌else◌, ◌==◌, sub32,
  length-take, take-nil, Bool-cases, ltb,
}
use mathlib.Core.Path.{subst}
use xv6_fork.Console.{
  Input, Event, shown, woken, input_buf, backspace, newline, end_of_file, list_processes, kill_line,
  erase_line, erase, newline_for,
}
use xv6_fork.Console.Ring.{Shows, no_line, shorter-Shows, last_char, get_or-take}

-- The specification: what can be read, and the line that is typed.
pub record Editor : Type 0 where
  pub ready : List ℕ
  pub line : List ℕ

-- A character that is not 0 is added if there is room. The line can be read once it ends or the room
-- is used up.
unfoldable pub spec_type : ℕ → Editor → Editor × List Event
spec_type c d =
    let x = newline_for c in
    let longer = d.line ++ x ∷ [] in
    if not (c == 0) && ltb (length d.ready + length d.line) input_buf
    then (if (x == newline) || (x == end_of_file) || (length d.ready + length longer == input_buf)
        then (record { ready = d.ready ++ longer; line = [] }, shown x ∷ woken ∷ [])
        else (record d { line = longer }, shown x ∷ []))
    else (d, [])

-- C('U') erases the line, C('H') and '\x7f' its last character.
unfoldable pub spec_key : ℕ → Editor → Editor × List Event
spec_key c d =
    if c == list_processes
    then (d, [])
    else (if c == kill_line
        then (record d { line = [] }, replicate (length d.line) (shown backspace))
        else (if (c == 8) || (c == 127)
            then (
              record d { line = take (length d.line - 1) d.line },
              replicate (length (take 1 d.line)) (shown backspace),
            )
            else spec_type c d))

-- The ring holds what the editor does, and the line that is typed has no newline.
pub record Holds (s : Input) (d : Editor) : Type 0 where
  pub shows : Shows s d.ready d.line
  pub plain : (k : ℕ) → k < length d.line → get_or d.line k 0 ≢ newline

-- What a step has done to both.
pub record Agrees (out : Input × List Event) (want : Editor × List Event) : Type 0 where
  pub holds : Holds out.0 want.0
  pub events : out.1 ≡ want.1

pub empty-plain : (k : ℕ) → k < length {A = ℕ} [] → get_or [] k 0 ≢ newline
empty-plain k h = absurd (omega arith)

shorter-Holds :
    {s : Input} {d : Editor} (m : ℕ)
    → Holds s d
    → length d.line ≡ suc m
    → Holds (record s { e = sub32 s.e 1 }) (record d { line = take m d.line })
shorter-Holds {d = d} m h e = record {
  shows = shorter-Shows h.shows m e;
  plain = λ k lt same.
      h.plain k (omega (arith, length-take m d.line))
        (sym (get_or-take m d.line k (omega (arith, length-take m d.line))) ∙ same);
}

one_more : (n : ℕ) → (n == 0) ≡ false → n ≡ suc (n - 1)
one_more n h = ground arith

none_left : (n : ℕ) → (n == 0) ≡ true → n ≡ 0
none_left n h = ground arith

nil_line : (xs : List ℕ) → length xs ≡ 0 → xs ≡ []
nil_line [] h = refl
nil_line (x ∷ xs) h = absurd (omega arith)

-- The line of an editor whose line is empty.
emptied : (d : Editor) → length d.line ≡ 0 → d ≡ record d { line = [] }
emptied d h = λ i. record { ready = d.ready; line = nil_line d.line h i }

erasures : (m n : ℕ) → m ≡ n → replicate m (shown backspace) ≡ replicate n (shown backspace)
erasures m n e = ap (λ k. replicate k (shown backspace)) e

-- As many rounds as the line is long erase it.
pub erase_line-Agrees :
    (n : ℕ) (s : Input) (d : Editor)
    → Holds s d
    → length d.line ≤ n
    → Agrees (erase_line n s) (record d { line = [] }, replicate (length d.line) (shown backspace))
unfolding erase_line
erase_line-Agrees zero s d h le = record {
  holds = subst (Holds s) (emptied d (omega arith)) h;
  events = erasures 0 (length d.line) (omega arith);
}
erase_line-Agrees (suc n) s d h le = elim (Bool-cases (length d.line == 0)) [
  | inl z ↦
      let e = none_left _ z in
      rw (no_line h.shows, z)
        record { holds = subst (Holds s) (emptied d e) h; events = erasures _ _ (sym e) }
  | inr more ↦
      let e = one_more (length d.line) more in
      let m = length d.line - 1 in
      let short : length (take m d.line) ≡ m = omega (arith, length-take m d.line) in
      let shorter = erase_line-Agrees n _ _ (shorter-Holds m h e) (omega (arith, short)) in
      let other : (s.buf (sub32 s.e 1 % input_buf) == newline) ≡ false =
        rw (last_char h.shows m e) (ground (arith, h.plain m (omega arith))) in
      rw (no_line h.shows, more, other)
        record {
          holds = shorter.holds;
          events =
              ap (λ es. shown backspace ∷ es) (shorter.events ∙ erasures _ _ short)
              ∙ erasures _ _ (sym e);
        }
]

take-none : (xs : List ℕ) (n : ℕ) → length xs ≡ 0 → xs ≡ take n xs
take-none [] n e = sym (take-nil n)
take-none (x ∷ xs) n e = absurd (omega arith)

pub erase-Agrees :
    (s : Input) (d : Editor)
    → Holds s d
    → Agrees (erase s) (
      record d { line = take (length d.line - 1) d.line },
      replicate (length (take 1 d.line)) (shown backspace),
    )
unfolding erase
erase-Agrees s d h = elim (Bool-cases (length d.line == 0)) [
  | inl z ↦
      let e = none_left _ z in
      rw (no_line h.shows, z)
        record {
          holds =
              subst (Holds s)
                (λ i. record { ready = d.ready; line = take-none d.line (length d.line - 1) e i })
                h;
          events = erasures 0 (length (take 1 d.line)) (omega (arith, e, length-take 1 d.line));
        }
  | inr more ↦
      rw (no_line h.shows, more)
        record {
          holds = shorter-Holds (length d.line - 1) h (one_more _ more);
          events =
              erasures 1 (length (take 1 d.line))
                (omega (arith, one_more _ more, length-take 1 d.line));
        }
]
