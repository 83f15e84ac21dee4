-- ===== src/Console/Tests.antt =====
-- Runs of console.c on concrete keys and reads.
use xv6_fork.Prelude.{
  ℕ, zero, suc, ◌+◌, ◌%◌, get_or, ◌==◌, if◌then◌else◌, ◌≡◌, ◌<◌, refl, arith, false, List, [], ◌∷◌,
}
use xv6_fork.Console.{
  Input, Event, shown, woken, dumped, consoleintr, key, erase_line, erase, type_char, intr_from,
  read_from, consoleread, consolewrite,
}
use xv6_fork.Console.Ring.{Shows}
use xv6_fork.Console.Keys.{AllBytes}
use xv6_fork.Console.Lines.{ReadsLine, consoleread-ReadsLine}
use xv6_fork.Console.Session.{Op, keys, read, run, spec_run, ByteOps, run-refines}

abbrev storage : ℕ → ℕ
storage k = 7

-- "ab", backspace, "c", C('U'), "hi", C('P') and a carriage return.
abbrev typed : List ℕ
typed = 97 ∷ 98 ∷ 8 ∷ 99 ∷ 21 ∷ 104 ∷ 105 ∷ 16 ∷ 13 ∷ []

abbrev blank : Input
blank = record { buf = storage; r = 0; w = 0; e = 0 }

abbrev echoed : List Event
echoed =
    shown 97
    ∷ shown 98
    ∷ shown 256
    ∷ shown 99
    ∷ shown 256
    ∷ shown 256
    ∷ shown 104
    ∷ shown 105
    ∷ shown 10
    ∷ woken
    ∷ dumped
    ∷ []

typed_events : (consoleintr typed blank).1 ≡ echoed
unfolding consoleintr intr_from key erase_line erase type_char
typed_events = refl

typed_read : (consoleread false 5 (consoleintr typed blank).0).1 ≡ 104 ∷ 105 ∷ 10 ∷ []
unfolding consoleread read_from consoleintr intr_from key erase_line erase type_char
typed_read = refl

hello_written : consolewrite (104 ∷ 300 ∷ []) ≡ shown 104 ∷ shown 44 ∷ []
unfolding consolewrite
hello_written = refl

abbrev session : List Op
session = read 5 false 5 ∷ keys typed ∷ read 5 false 5 ∷ read 3 false 3 ∷ []

typed-bytes : AllBytes typed
unfolding AllBytes
typed-bytes = ground arith

session-ByteOps : ByteOps session
unfolding ByteOps
session-ByteOps = (typed-bytes, omega arith)

run-refines_example : run blank session ≡ spec_run (record { ready = []; line = [] }) session
run-refines_example = run-refines session storage session-ByteOps

-- A ring whose counters are about to wrap: "a\nb" can be read and "c" is typed.
abbrev wrapping : Input
wrapping = record {
  buf = λ k. if k == 126 then 97 else (if k == 127 then 10 else (if k == 0 then 98 else 99));
  r = 4294967294;
  w = 1;
  e = 2;
}

ready_char :
    (k : ℕ) → k < 3 → wrapping.buf ((wrapping.r + k) % 128) ≡ get_or (97 ∷ 10 ∷ 98 ∷ []) k 0
ready_char zero h = refl
ready_char (suc zero) h = refl
ready_char (suc (suc zero)) h = refl
ready_char (suc (suc (suc k))) h = absurd (omega arith)

line_char : (k : ℕ) → k < 1 → wrapping.buf ((wrapping.w + k) % 128) ≡ get_or (99 ∷ []) k 0
line_char zero h = refl
line_char (suc k) h = absurd (omega arith)

wrapping-Shows : Shows wrapping (97 ∷ 10 ∷ 98 ∷ []) (99 ∷ [])
wrapping-Shows = record {
  r_word = omega arith;
  w_here = refl;
  e_here = refl;
  fits = omega arith;
  ready_at = ready_char;
  line_at = line_char;
}

consoleread-ReadsLine_example :
    ReadsLine false 8 (97 ∷ 10 ∷ 98 ∷ []) (99 ∷ []) (consoleread false 8 wrapping)
consoleread-ReadsLine_example =
    consoleread-ReadsLine false 8 wrapping (97 ∷ 10 ∷ 98 ∷ []) (99 ∷ []) wrapping-Shows
