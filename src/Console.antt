-- ===== src/Console.antt =====
-- console.c: the line of input that the keyboard and the serial port fill and that processes read. A
-- character is the byte that getc returns; what is held of `cons.lock` is one step. A read that
-- sleeps is a value that says how much is left, and is run again when it is woken.
pub mod Ring
pub mod Editor
pub mod Keys
pub mod Reads
pub mod Lines
pub mod Session
mod Tests
use xv6_fork.Prelude.{
  ℕ, zero, suc, ◌-◌, ◌%◌, Bool, true, false, not, ◌&&◌, ◌||◌, List, [], ◌∷◌, ◌++◌, if◌then◌else◌,
  ◌==◌, ltb, add32, sub32,
}

abbrev pub input_buf : ℕ
input_buf = 128

-- BACKSPACE, which consputc takes in place of a character.
abbrev pub backspace : ℕ
backspace = 256

-- The characters '\n', C('D'), C('P') and C('U').
abbrev pub newline : ℕ
newline = 10

abbrev pub end_of_file : ℕ
end_of_file = 4

abbrev pub list_processes : ℕ
list_processes = 16

abbrev pub kill_line : ℕ
kill_line = 21

-- `input`.
pub record Input : Type 0 where
  pub buf : ℕ → ℕ
  pub r : ℕ
  pub w : ℕ
  pub e : ℕ

-- The calls of consoleintr: consputc(c), wakeup(&input.r) and procdump().
pub data Event : Type 0 where
  shown : ℕ → Event
  woken : Event
  dumped : Event

-- The loop of C('U'), at most `k` rounds.
pub erase_line : ℕ → Input → Input × List Event
erase_line zero s = (s, [])
erase_line (suc k) s =
    let rest = erase_line k (record s { e = sub32 s.e 1 }) in
    if not (s.e == s.w) && not (s.buf (sub32 s.e 1 % input_buf) == newline)
    then (rest.0, shown backspace ∷ rest.1)
    else (s, [])

-- C('H') and '\x7f'.
pub erase : Input → Input × List Event
erase s = if not (s.e == s.w) then (record s { e = sub32 s.e 1 }, shown backspace ∷ []) else (s, [])

-- `c = (c == '\r') ? '\n' : c`
abbrev pub newline_for : ℕ → ℕ
newline_for c = if c == 13 then newline else c

-- `input.buf[input.e++ % INPUT_BUF] = c`
abbrev pub put : ℕ → Input → Input
put c s = record s { buf = λ i. if i == s.e % input_buf then c % 256 else s.buf i; e = add32 s.e 1 }

-- The default case.
pub type_char : ℕ → Input → Input × List Event
type_char c s =
    if not (c == 0) && ltb (sub32 s.e s.r) input_buf
    then (let d = newline_for c in
        let t = put d s in
        if (d == newline) || (d == end_of_file) || (t.e == add32 t.r input_buf)
        then (record t { w = t.e }, shown d ∷ woken ∷ [])
        else (t, shown d ∷ []))
    else (s, [])

-- One round of the loop of consoleintr, but for doprocdump.
pub key : ℕ → Input → Input × List Event
key c s =
    if c == list_processes
    then (s, [])
    else (if c == kill_line
        then erase_line input_buf s
        else (if (c == 8) || (c == 127) then erase s else type_char c s))

-- The loop of consoleintr over what getc returns, with doprocdump, and what follows it.
pub intr_from : Bool → List ℕ → Input → Input × List Event
intr_from dump [] s = (s, if dump then dumped ∷ [] else [])
intr_from dump (c ∷ cs) s =
    let k = key c s in
    let rest = intr_from (dump || (c == list_processes)) cs k.0 in (rest.0, k.1 ++ rest.1)

pub consoleintr : List ℕ → Input → Input × List Event
consoleintr cs s = intr_from false cs s

-- How a run of consoleread ends: it returns a count, returns -1, or sleeps on `&input.r` with a
-- number of bytes left to read.
pub data ReadOutcome : Type 0 where
  returned : ℕ → ReadOutcome
  failed : ReadOutcome
  asleep : ℕ → ReadOutcome

-- The outer loop of consoleread with `n` bytes left of `target`, and the bytes put at `dst`.
-- `killed` is `myproc()->killed`.
pub read_from : ℕ → Bool → ℕ → Input → Input × List ℕ × ReadOutcome
read_from target killed zero s = (s, [], returned target)
read_from target killed (suc n) s =
    let c = s.buf (s.r % input_buf) in
    let t = record s { r = add32 s.r 1 } in
    let rest = read_from target killed n t in
    if s.r == s.w
    then (s, [], if killed then failed else asleep (suc n))
    else (if c == end_of_file
        then (
          if ltb (suc n) target then record t { r = sub32 t.r 1 } else t,
          [],
          returned (target - suc n),
        )
        else (if c == newline
            then (t, c ∷ [], returned (target - n))
            else (rest.0, c ∷ rest.1, rest.2)))

-- A run of consoleread that begins, where `n` is not negative.
pub consoleread : Bool → ℕ → Input → Input × List ℕ × ReadOutcome
consoleread killed n s = read_from n killed n s

-- The calls of consputc in consolewrite. It returns n.
pub consolewrite : List ℕ → List Event
consolewrite [] = []
consolewrite (c ∷ cs) = shown (c % 256) ∷ consolewrite cs
