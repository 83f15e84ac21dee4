-- ===== src/Console/Keys.antt =====
-- consoleintr of console.c, against a queue of characters and a line that is typed.
use xv6_fork.Prelude.{
  get_or-append_left, ℕ, ◌+◌, ◌≤◌, ◌<◌, ◌≢◌, refl, sym, ap, ◌∙◌, inl, inr, arith, Bool, not, ◌&&◌,
  ◌||◌, List, [], ◌∷◌, ◌++◌, length, length-append, get_or, if◌then◌else◌, ◌==◌, add32, Bool-cases,
  ltb,
}
use mathlib.Core.Path.{ap₂}
use xv6_fork.Console.{
  Input, Event, shown, woken, dumped, input_buf, newline, end_of_file, list_processes, kill_line,
  newline_for, put, type_char, key, intr_from,
}
use xv6_fork.Console.Ring.{used, filled, put-Shows, commit-Shows, get_or-last, at_or_before}
use xv6_fork.Console.Editor.{
  Editor, spec_type, spec_key, Holds, Agrees, empty-plain, erase_line-Agrees, erase-Agrees,
}

snoc-plain :
    (xs : List ℕ) (c : ℕ)
    → ((k : ℕ) → k < length xs → get_or xs k 0 ≢ newline)
    → c ≢ newline
    → (k : ℕ) → k < length (xs ++ c ∷ [])
    → get_or (xs ++ c ∷ []) k 0 ≢ newline
snoc-plain xs c h other k lt same =
    elim (at_or_before k (length xs) (omega (arith, length-append xs (c ∷ [])))) [
      | inl before ↦ h k before (sym (get_or-append_left xs (c ∷ []) k 0 before) ∙ same)
      | inr e ↦ other (sym (get_or-last xs c) ∙ ap (λ i. get_or (xs ++ c ∷ []) i 0) (sym e) ∙ same)
    ]

-- The line ends at a newline, at an end of file and where the room is used up.
abbrev ends : ℕ → Editor → Bool
ends x d =
    (x == newline)
    || (x == end_of_file)
    || (length d.ready + length (d.line ++ x ∷ []) == input_buf)

typed-Agrees :
    (x : ℕ) (s : Input) (d : Editor)
    → x < 256
    → Holds s d
    → length d.ready + length d.line < input_buf
    → Agrees
        (if (x == newline) || (x == end_of_file) || ((put x s).e == add32 (put x s).r input_buf)
          then (record (put x s) { w = (put x s).e }, shown x ∷ woken ∷ [])
          else (put x s, shown x ∷ []))
        (if ends x d
          then (record { ready = d.ready ++ (d.line ++ x ∷ []); line = [] }, shown x ∷ woken ∷ [])
          else (record d { line = d.line ++ x ∷ [] }, shown x ∷ []))
typed-Agrees x s d byte h room =
    let v = put-Shows h.shows x byte room in
    rw (filled v) (elim (Bool-cases (ends x d)) [
      | inl stop ↦
          rw stop
            record { holds = record { shows = commit-Shows v; plain = empty-plain }; events = refl }
      | inr goes ↦ rw goes record {
        holds = record { shows = v; plain = snoc-plain d.line x h.plain (ground arith) };
        events = refl;
      }
    ])

type_char-Agrees :
    (c : ℕ) (s : Input) (d : Editor) → c < 256 → Holds s d → Agrees (type_char c s) (spec_type c d)
unfolding type_char spec_type
type_char-Agrees c s d byte h =
    elim (Bool-cases (not (c == 0) && ltb (length d.ready + length d.line) input_buf)) [
      | inl goes ↦
          rw (used h.shows, goes) (typed-Agrees (newline_for c) s d (ground arith) h (ground arith))
      | inr full ↦ rw (used h.shows, full) record { holds = h; events = refl }
    ]

key-Agrees :
    (c : ℕ) (s : Input) (d : Editor) → c < 256 → Holds s d → Agrees (key c s) (spec_key c d)
unfolding key spec_key
key-Agrees c s d byte h = elim (Bool-cases (c == list_processes)) [
  | inl lists ↦ rw lists record { holds = h; events = refl }
  | inr here ↦ rw here (elim (Bool-cases (c == kill_line)) [
    | inl kills ↦ rw kills (erase_line-Agrees input_buf s d h (omega (arith, h.shows.fits)))
    | inr there ↦ rw there (elim (Bool-cases ((c == 8) || (c == 127))) [
      | inl erases ↦ rw erases (erase-Agrees s d h)
      | inr types ↦ rw types (type_char-Agrees c s d byte h)
    ])
  ])
]

-- What consoleintr does to the editor: a key at a time, and the list of processes at the end.
pub spec_intr : Bool → List ℕ → Editor → Editor × List Event
spec_intr dump [] d = (d, if dump then dumped ∷ [] else [])
spec_intr dump (c ∷ cs) d =
    let k = spec_key c d in
    let rest = spec_intr (dump || (c == list_processes)) cs k.0 in (rest.0, k.1 ++ rest.1)

unfoldable pub AllBytes : List ℕ → Type 0
AllBytes [] = (0 ≤ 0)
AllBytes (c ∷ cs) = (c < 256) × AllBytes cs

pub intr_from-Agrees :
    (dump : Bool) (cs : List ℕ) (s : Input) (d : Editor)
    → AllBytes cs
    → Holds s d
    → Agrees (intr_from dump cs s) (spec_intr dump cs d)
unfolding intr_from spec_intr AllBytes
intr_from-Agrees dump [] s d bytes h = record { holds = h; events = refl }
intr_from-Agrees dump (c ∷ cs) s d (byte, bytes) h =
    let k = key-Agrees c s d byte h in
    let rest =
      intr_from-Agrees (dump || (c == list_processes)) cs (key c s).0 (spec_key c d).0 bytes
        k.holds in
    record { holds = rest.holds; events = ap₂ ◌++◌ k.events rest.events }
