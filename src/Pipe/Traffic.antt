-- ===== src/Pipe/Traffic.antt =====
-- Any order of runs of pipewrite, piperead and pipeclose (pipe.c), against a bounded channel of
-- bytes that knows nothing of the ring.
use xv6_fork.Prelude.{
  ℕ, suc, ◌-◌, ◌≡◌, refl, sym, ap, ◌∙◌, inl, inr, arith, Bool, true, false, not, ◌&&◌, List, [],
  ◌∷◌, ◌++◌, append_assoc, append-nil, length, take, drop, if◌then◌else◌, leb, Bool-cases,
  take-append-drop, ◌==◌, zero,
}
use xv6_fork.Pipe.{
  Pipe, Chan, on_nread, on_nwrite, WriteOutcome, wrote, write_failed, write_asleep, ReadOutcome,
  got, read_failed, read_asleep, pipe_size, is_empty, write_from, pipewrite, piperead, pipeclose,
}
use mathlib.Core.Path.{ap₂}
use xv6_fork.Pipe.Contents.{IsValid, count, contents, window, length-window}
use xv6_fork.Pipe.Write.{room, write_from-Writes, pipewrite-Writes}
use xv6_fork.Pipe.Read.{piperead-Reads, is_empty-count, not-is_empty-count}

-- The specification: a queue of at most 512 bytes with two ends that can be closed.
pub record Channel : Type 0 where
  pub queue : List ℕ
  pub readopen : Bool
  pub writeopen : Bool

abbrev pub view : Pipe → Channel
view p = record { queue = contents p; readopen = p.readopen; writeopen = p.writeopen }

-- A run: of pipewrite from its start or, with the n of the call and the bytes left, from its sleep on,
-- of piperead, which starts again when it is woken, or of pipeclose.
pub data Op : Type 0 where
  write : Bool → List ℕ → Op
  woken : Bool → ℕ → List ℕ → Op
  read : Bool → ℕ → Op
  close : Bool → Op

pub data Reply : Type 0 where
  of_write : WriteOutcome → Reply
  of_read : ReadOutcome → Reply
  of_close : Bool → Reply

abbrev free : List ℕ → ℕ
free q = pipe_size - length q

abbrev is_nil : List ℕ → Bool
is_nil [] = true
is_nil (_ ∷ _) = false

abbrev write_ending : Channel → Bool → ℕ → List ℕ → List Chan × WriteOutcome
write_ending c killed n bytes =
    if leb (length bytes) (free c.queue)
    then (on_nread ∷ [], wrote n)
    else (if c.readopen && not killed
        then (on_nread ∷ [], write_asleep n (drop (free c.queue) bytes))
        else ([], write_failed))

abbrev read_ending : Channel → Bool → ℕ → List Chan × ReadOutcome
read_ending c killed n =
    if is_nil c.queue && c.writeopen
    then ([], if killed then read_failed else read_asleep)
    else (on_nwrite ∷ [], got (length (take n c.queue)) (take n c.queue))

-- A write that does not fit fills the queue; a read of an empty open channel does nothing.
pub spec_step : Channel → Op → Channel × List Chan × Reply
spec_step c (write killed bytes) =
    let e = write_ending c killed (length bytes) bytes in
    (record c { queue = c.queue ++ take (free c.queue) bytes }, e.0, of_write e.1)
spec_step c (woken killed n bytes) =
    let e = write_ending c killed n bytes in
    (record c { queue = c.queue ++ take (free c.queue) bytes }, e.0, of_write e.1)
spec_step c (read killed n) =
    let e = read_ending c killed n in
    (
      record c { queue = if is_nil c.queue && c.writeopen then c.queue else drop n c.queue },
      e.0,
      of_read e.1,
    )
spec_step c (close true) =
    (record c { writeopen = false }, on_nread ∷ [], of_close (not c.readopen))
spec_step c (close false) =
    (record c { readopen = false }, on_nwrite ∷ [], of_close (not c.writeopen))

unfoldable pub step : Pipe → Op → Pipe × List Chan × Reply
step p (write killed bytes) = let r = pipewrite p killed bytes in (r.0, r.1, of_write r.2)
step p (woken killed n bytes) = let r = write_from p killed n bytes in (r.0, r.1, of_write r.2)
step p (read killed n) = let r = piperead p killed n in (r.0, r.1, of_read r.2)
step p (close writable) = let r = pipeclose p writable in (r.0, r.1, of_close r.2)

unfoldable pub run : Pipe → List Op → List (List Chan × Reply)
run p [] = []
run p (o ∷ os) = let r = step p o in (r.1, r.2) ∷ run r.0 os

pub spec_run : Channel → List Op → List (List Chan × Reply)
spec_run c [] = []
spec_run c (o ∷ os) = let r = spec_step c o in (r.1, r.2) ∷ spec_run r.0 os

step-IsValid : (p : Pipe) (o : Op) → IsValid p → IsValid (step p o).0
unfolding step pipeclose
step-IsValid p (write killed bytes) v = (pipewrite-Writes bytes p killed v).valid
step-IsValid p (woken killed n bytes) v = (write_from-Writes bytes p killed n v).valid
step-IsValid p (read killed n) v = (piperead-Reads p killed n v).valid
step-IsValid p (close true) v = ground arith
step-IsValid p (close false) v = ground arith

is_nil-window : (buf : List ℕ) (h n : ℕ) → is_nil (window buf h n) ≡ (n == 0)
is_nil-window buf h zero = refl
is_nil-window buf h (suc n) = ground arith

is_nil-contents : (p : Pipe) → IsValid p → is_nil (contents p) ≡ is_empty p
is_nil-contents p v = elim (Bool-cases (is_empty p)) [
  | inl e ↦ rw (is_nil-window p.buf p.nread (count p), is_empty-count p v e) (sym e)
  | inr e ↦ rw (is_nil-window p.buf p.nread (count p), not-is_empty-count p v e) (ground arith)
]

room-free : (p : Pipe) → room p ≡ free (contents p)
room-free p = rw (length-window p.buf p.nread (count p))

view_eq :
    {a b : Channel}
    → a.queue ≡ b.queue
    → a.readopen ≡ b.readopen
    → a.writeopen ≡ b.writeopen
    → a ≡ b
view_eq q r w = λ i. record { queue = q i; readopen = r i; writeopen = w i }

-- Any run of pipewrite, from its start or from a sleep on.
write_refines :
    (p : Pipe) (killed : Bool) (n : ℕ) (bytes : List ℕ)
    → IsValid p
    → let r = write_from p killed n bytes in
      (view r.0 ≡ (spec_step (view p) (woken killed n bytes)).0)
      × ((r.1, r.2) ≡ write_ending (view p) killed n bytes)
unfolding spec_step
write_refines p killed n bytes v =
    let w = write_from-Writes bytes p killed n v in
    let e = room-free p in
    (
      view_eq (w.stored ∙ ap (λ k. contents p ++ take k bytes) e) w.readopen w.writeopen,
      rw (← e) w.ended,
    )

read_refines :
    (p : Pipe) (killed : Bool) (n : ℕ)
    → IsValid p
    → let r = piperead p killed n in
      (view r.0 ≡ (spec_step (view p) (read killed n)).0)
      × ((r.1, r.2) ≡ read_ending (view p) killed n)
unfolding spec_step
read_refines p killed n v =
    let w = piperead-Reads p killed n v in
    let e = is_nil-contents p v in
    (
      view_eq
          (w.left ∙ ap (λ b. if b && p.writeopen then contents p else drop n (contents p)) (sym e))
          w.readopen w.writeopen,
      rw e w.ended,
    )

-- What a call does and says is what the channel does and says.
step_refines :
    (p : Pipe) (o : Op)
    → IsValid p
    → let r = step p o in (view r.0, r.1, r.2) ≡ spec_step (view p) o
unfolding step spec_step pipewrite pipeclose
step_refines p (write killed bytes) v =
    ground (arith, write_refines p killed (length bytes) bytes v)
step_refines p (woken killed n bytes) v = ground (arith, write_refines p killed n bytes v)
step_refines p (read killed n) v = ground (arith, read_refines p killed n v)
step_refines p (close true) v = ground arith
step_refines p (close false) v = ground arith

-- On a valid pipe every sequence of runs of pipewrite, piperead and pipeclose, whatever bytes they
-- carry and in whatever order they come, and also of runs in which a sleeping pipewrite goes on with
-- the bytes that it has left, returns, sleeps and wakes exactly as the bounded channel of the pipe's
-- contents does: a pipewrite that has stored all its bytes returns the n of its call, however often it
-- slept.
pub run_refines : (os : List Op) (p : Pipe) → IsValid p → run p os ≡ spec_run (view p) os
unfolding run spec_run
run_refines [] p v = refl
run_refines (o ∷ os) p v =
    let e = step_refines p o v in
    ap₂ ◌∷◌ (ap (λ (t : Channel × List Chan × Reply). (t.1, t.2)) e) (
      run_refines os (step p o).0 (step-IsValid p o v)
      ∙ ap (λ (t : Channel × List Chan × Reply). spec_run t.0 os) e)

-- The bytes that a run of piperead hands over.
abbrev pub delivered : List (List Chan × Reply) → List ℕ
delivered [] = []
delivered ((_, of_read (got _ bytes)) ∷ rs) = bytes ++ delivered rs
delivered (_ ∷ rs) = delivered rs

-- The bytes that the channel takes in.
pub accepted : Channel → List Op → List ℕ
accepted c [] = []
accepted c (write killed bytes ∷ os) =
    take (free c.queue) bytes ++ accepted (spec_step c (write killed bytes)).0 os
accepted c (woken killed n bytes ∷ os) =
    take (free c.queue) bytes ++ accepted (spec_step c (woken killed n bytes)).0 os
accepted c (read killed n ∷ os) = accepted (spec_step c (read killed n)).0 os
accepted c (close writable ∷ os) = accepted (spec_step c (close writable)).0 os

pub spec_after : Channel → List Op → Channel
spec_after c [] = c
spec_after c (o ∷ os) = spec_after (spec_step c o).0 os

unfoldable pub after : Pipe → List Op → Pipe
after p [] = p
after p (o ∷ os) = after (step p o).0 os

-- What a read hands over is what leaves the queue.
handover :
    (c : Channel) (killed : Bool) (n : ℕ)
    → let r = spec_step c (read killed n) in
      (h : List ℕ) × ((rs : List (List Chan × Reply))
        → delivered ((r.1, r.2) ∷ rs) ≡ h ++ delivered rs)
      × (h ++ r.0.queue ≡ c.queue)
unfolding spec_step
handover c killed n = elim (Bool-cases (is_nil c.queue && c.writeopen)) [
  | inl waits ↦ rw waits ([], (λ rs. ground arith), refl)
  | inr goes ↦ rw goes (take n c.queue, (λ rs. refl), take-append-drop n c.queue)
]

spec_fifo :
    (os : List Op) (c : Channel)
    → delivered (spec_run c os) ++ (spec_after c os).queue ≡ c.queue ++ accepted c os
unfolding spec_run spec_after accepted spec_step
spec_fifo [] c = sym (append-nil c.queue)
spec_fifo (write killed bytes ∷ os) c =
    spec_fifo os (spec_step c (write killed bytes)).0
    ∙ append_assoc c.queue (take (free c.queue) bytes) _
spec_fifo (woken killed n bytes ∷ os) c =
    spec_fifo os (spec_step c (woken killed n bytes)).0
    ∙ append_assoc c.queue (take (free c.queue) bytes) _
spec_fifo (read killed n ∷ os) c =
    let r = spec_step c (read killed n) in
    let (h, e, q) = handover c killed n in
    ap (λ t. t ++ (spec_after r.0 os).queue) (e (spec_run r.0 os))
    ∙ append_assoc h (delivered (spec_run r.0 os)) _
    ∙ ap (λ t. h ++ t) (spec_fifo os r.0)
    ∙ sym (append_assoc h r.0.queue _)
    ∙ ap (λ t. t ++ accepted r.0 os) q
spec_fifo (close true ∷ os) c = spec_fifo os (record c { writeopen = false })
spec_fifo (close false ∷ os) c = spec_fifo os (record c { readopen = false })

view-after : (os : List Op) (p : Pipe) → IsValid p → view (after p os) ≡ spec_after (view p) os
unfolding after spec_after
view-after [] p v = refl
view-after (o ∷ os) p v =
    view-after os (step p o).0 (step-IsValid p o v)
    ∙ ap (λ (t : Channel × List Chan × Reply). spec_after t.0 os) (step_refines p o v)

-- After any sequence of such runs on a valid pipe, what the reads handed over followed by what the pipe
-- still holds is what it held at first followed by the bytes that were accepted, in that order:
-- no byte is lost, repeated, invented or overtaken.
pub run-fifo :
    (os : List Op) (p : Pipe)
    → IsValid p
    → delivered (run p os) ++ contents (after p os) ≡ contents p ++ accepted (view p) os
run-fifo os p v =
    ap₂ (λ rs (c : Channel). delivered rs ++ c.queue) (run_refines os p v) (view-after os p v)
    ∙ spec_fifo os (view p)
