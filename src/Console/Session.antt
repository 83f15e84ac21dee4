-- ===== src/Console/Session.antt =====
-- Keys and reads of console.c in any order, against the editor of lines.
use xv6_fork.Prelude.{ℕ, ◌≤◌, ◌≡◌, refl, ap, Bool, false, List, [], ◌∷◌}
use mathlib.Core.Path.{ap₂}
use xv6_fork.Console.{Input, Event, ReadOutcome, consoleintr, read_from}
use xv6_fork.Console.Ring.{initial-Shows}
use xv6_fork.Console.Editor.{Editor, Holds, empty-plain}
use xv6_fork.Console.Keys.{AllBytes, spec_intr, intr_from-Agrees}
use xv6_fork.Console.Reads.{spec_read, read_from-ReadsAs}

-- consoleintr with what getc returns, and a run of consoleread with `left` bytes left of `target`;
-- the two differ where it runs again behind a sleep.
pub data Op : Type 0 where
  keys : List ℕ → Op
  read : (target : ℕ) → (killed : Bool) → (left : ℕ) → Op

pub data Reply : Type 0 where
  of_keys : List Event → Reply
  of_read : List ℕ → ReadOutcome → Reply

pub step : Input → Op → Input × Reply
step s (keys cs) = let r = consoleintr cs s in (r.0, of_keys r.1)
step s (read target killed left) = let r = read_from target killed left s in (r.0, of_read r.1 r.2)

pub spec_step : Editor → Op → Editor × Reply
spec_step d (keys cs) = let r = spec_intr false cs d in (r.0, of_keys r.1)
spec_step d (read target killed left) =
    let r = spec_read target killed left d.ready in (record d { ready = r.0 }, of_read r.1 r.2)

pub run : Input → List Op → List Reply
run s [] = []
run s (o ∷ os) = let r = step s o in r.1 ∷ run r.0 os

pub spec_run : Editor → List Op → List Reply
spec_run d [] = []
spec_run d (o ∷ os) = let r = spec_step d o in r.1 ∷ spec_run r.0 os

-- What getc returns is a byte.
unfoldable pub ByteOps : List Op → Type 0
ByteOps [] = (0 ≤ 0)
ByteOps (keys cs ∷ os) = AllBytes cs × ByteOps os
ByteOps (read target killed left ∷ os) = ByteOps os

step-Holds :
    (s : Input) (d : Editor) (o : Op) (os : List Op)
    → Holds s d
    → ByteOps (o ∷ os)
    → Holds (step s o).0 (spec_step d o).0 × ((step s o).1 ≡ (spec_step d o).1) × ByteOps os
unfolding step spec_step ByteOps consoleintr
step-Holds s d (keys cs) os h (bytes, more) =
    let a = intr_from-Agrees false cs s d bytes h in (a.holds, ap of_keys a.events, more)
step-Holds s d (read target killed left) os h more =
    let a = read_from-ReadsAs left target killed s d.ready d.line h.shows in
    (record { shows = a.shows; plain = h.plain }, ap₂ of_read a.bytes a.ended, more)

run-Holds :
    (os : List Op) (s : Input) (d : Editor) → Holds s d → ByteOps os → run s os ≡ spec_run d os
unfolding run spec_run
run-Holds [] s d h bytes = refl
run-Holds (o ∷ os) s d h bytes =
    let r = step-Holds s d o os h bytes in
    ap₂ ◌∷◌ r.1 (run-Holds os (step s o).0 (spec_step d o).0 r.0 r.2)

-- From the empty ring, whatever bytes its storage has, and whatever bytes getc returns to consoleintr
-- and whatever runs of consoleread come in between, what both do and return is what an editor of
-- lines does, that keeps the characters that can be read in one queue and the line that is typed in
-- another: C('U') erases the whole line and nothing else, a backspace its last character, and a line
-- can be read once it ends at a newline or an end of file, or the 128 bytes are used up.
pub run-refines :
    (os : List Op) (b : ℕ → ℕ)
    → ByteOps os
    → run (record { buf = b; r = 0; w = 0; e = 0 }) os
      ≡ spec_run (record { ready = []; line = [] }) os
run-refines os b bytes =
    run-Holds os _ _ (record { shows = initial-Shows b; plain = empty-plain }) bytes
