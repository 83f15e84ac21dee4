-- ===== src/Pipe/Read.antt =====
-- piperead of pipe.c: which bytes a run takes out, and how it ends.
use xv6_fork.Prelude.{
  ℕ, zero, suc, ◌%◌, ◌≡◌, refl, sym, ap, ◌∙◌, arith, Bool, true, false, ◌&&◌, inl, inr, List, [],
  ◌∷◌, length, take, drop, if◌then◌else◌, ==_iff, Bool-cases, add32, get_or,
}
use xv6_fork.Pipe.{
  Pipe, Chan, on_nwrite, ReadOutcome, got, read_failed, read_asleep, pipe_size, is_empty, copy_out,
  piperead,
}
use xv6_fork.Pipe.Contents.{IsValid, count, contents, window}

-- How a run must end: asleep or failed, with nothing done, if the pipe is empty and can still be
-- written; otherwise with the oldest bytes, at most n, and the writers woken.
abbrev pub ending : Pipe → Bool → ℕ → List Chan × ReadOutcome
ending p killed n =
    if is_empty p && p.writeopen
    then ([], if killed then read_failed else read_asleep)
    else (on_nwrite ∷ [], got (length (take n (contents p))) (take n (contents p)))

pub record Copies (p : Pipe) (n : ℕ) (out : Pipe × List ℕ) : Type 0 where
  pub valid : IsValid out.0
  pub taken : out.1 ≡ take n (contents p)
  pub left : contents out.0 ≡ drop n (contents p)
  pub buf : out.0.buf ≡ p.buf
  pub writer : out.0.nwrite ≡ p.nwrite
  pub readopen : out.0.readopen ≡ p.readopen
  pub writeopen : out.0.writeopen ≡ p.writeopen

abbrev advance : Pipe → Pipe
advance p = record p { nread = add32 p.nread 1 }

pub is_empty-count : (p : Pipe) → IsValid p → is_empty p ≡ true → count p ≡ 0
is_empty-count p v h = omega (arith, (==_iff _ _).0 h, v.nread_word, v.nwrite_word)

pub not-is_empty-count :
    (p : Pipe) → IsValid p → is_empty p ≡ false → count p ≡ suc (count (advance p))
not-is_empty-count p v h = ground (arith, v.nread_word, v.nwrite_word, v.fits)

advance-IsValid : (p : Pipe) → IsValid p → is_empty p ≡ false → IsValid (advance p)
advance-IsValid p v some_left = record {
  storage = v.storage;
  nread_word = omega arith;
  nwrite_word = v.nwrite_word;
  fits = omega (arith, not-is_empty-count p v some_left, v.fits);
}

step-Copies :
    (n : ℕ) (p : Pipe)
    → IsValid p
    → is_empty p ≡ false
    → Copies (advance p) n (copy_out (advance p) n)
    → Copies p (suc n) (copy_out p (suc n))
unfolding copy_out
step-Copies n p v some_left c =
    let e = not-is_empty-count p v some_left in
    rw some_left record {
      valid = c.valid;
      taken =
          ap (λ t. get_or p.buf (p.nread % pipe_size) 0 ∷ t) c.taken
          ∙ sym (ap (λ k. take (suc n) (window p.buf p.nread k)) e);
      left = c.left ∙ sym (ap (λ k. drop (suc n) (window p.buf p.nread k)) e);
      buf = c.buf;
      writer = c.writer;
      readopen = c.readopen;
      writeopen = c.writeopen;
    }

copy_out-Copies : (n : ℕ) (p : Pipe) → IsValid p → Copies p n (copy_out p n)
unfolding copy_out
copy_out-Copies zero p v = record {
  valid = v;
  taken = refl;
  left = refl;
  buf = refl;
  writer = refl;
  readopen = refl;
  writeopen = refl;
}
copy_out-Copies (suc n) p v = elim (Bool-cases (is_empty p)) [
  | inl none_left ↦ rw none_left record {
    valid = v;
    taken = sym (ap (λ k. take (suc n) (window p.buf p.nread k)) (is_empty-count p v none_left));
    left =
        ap (window p.buf p.nread) (is_empty-count p v none_left)
        ∙ sym (ap (λ k. drop (suc n) (window p.buf p.nread k)) (is_empty-count p v none_left));
    buf = refl;
    writer = refl;
    readopen = refl;
    writeopen = refl;
  }
  | inr some_left ↦
      step-Copies n p v some_left (copy_out-Copies n (advance p) (advance-IsValid p v some_left))
]

pub record Reads (p : Pipe) (killed : Bool) (n : ℕ) (out : Pipe × List Chan × ReadOutcome)
    : Type 0 where
  pub valid : IsValid out.0
  pub left :
      contents out.0 ≡ (if is_empty p && p.writeopen then contents p else drop n (contents p))
  pub writer : out.0.nwrite ≡ p.nwrite
  pub readopen : out.0.readopen ≡ p.readopen
  pub writeopen : out.0.writeopen ≡ p.writeopen
  pub ended : (out.1, out.2) ≡ ending p killed n

-- piperead of at most n bytes from a valid pipe: it sleeps or fails, with nothing done, on an empty
-- pipe that can still be written; otherwise it takes the oldest bytes out, at most n, in order.
-- The writer's counter and the open flags stay, and the pipe stays valid.
pub piperead-Reads :
    (p : Pipe) (killed : Bool) (n : ℕ) → IsValid p → Reads p killed n (piperead p killed n)
unfolding piperead
piperead-Reads p killed n v = elim (Bool-cases (is_empty p && p.writeopen)) [
  | inl waits ↦ rw waits record {
    valid = v;
    left = rw waits refl;
    writer = refl;
    readopen = refl;
    writeopen = refl;
    ended = rw waits refl;
  }
  | inr goes ↦
      let c = copy_out-Copies n p v in
      rw goes record {
        valid = c.valid;
        left = rw goes c.left;
        writer = c.writer;
        readopen = c.readopen;
        writeopen = c.writeopen;
        ended = rw (goes, c.taken) refl;
      }
]
