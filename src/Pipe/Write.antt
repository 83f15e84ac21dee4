-- ===== src/Pipe/Write.antt =====
-- pipewrite of pipe.c: which bytes a run stores, and how it ends.
use xv6_fork.Prelude.{
  ℕ, suc, ◌-◌, ◌<◌, ◌≡◌, refl, sym, ap, ◌∙◌, inl, inr, arith, Bool, true, false, not, ◌&&◌, List,
  [], ◌∷◌, ◌++◌, append_assoc, append-nil, length, take, drop, if◌then◌else◌, leb, ==_iff,
  Bool-cases, take-nil, leb-suc,
}
use xv6_fork.Pipe.{
  Pipe, Chan, on_nread, WriteOutcome, wrote, write_failed, write_asleep, pipe_size, is_full, store,
  write_from, pipewrite,
}
use xv6_fork.Pipe.Contents.{IsValid, count, contents, count-store, store-IsValid, contents-store}

abbrev pub room : Pipe → ℕ
room p = pipe_size - count p

-- How a run must end: done if the bytes fit; otherwise asleep on the rest, with the readers woken,
-- unless nobody can read any more or the process is killed.
abbrev pub ending : Pipe → Bool → ℕ → List ℕ → List Chan × WriteOutcome
ending p killed n bytes =
    if leb (length bytes) (room p)
    then (on_nread ∷ [], wrote n)
    else (if p.readopen && not killed
        then (on_nread ∷ [], write_asleep n (drop (room p) bytes))
        else ([], write_failed))

pub record Writes (p : Pipe) (killed : Bool) (n : ℕ) (bytes : List ℕ)
    (out : Pipe × List Chan × WriteOutcome) : Type 0 where
  pub valid : IsValid out.0
  pub stored : contents out.0 ≡ contents p ++ take (room p) bytes
  pub reader : out.0.nread ≡ p.nread
  pub readopen : out.0.readopen ≡ p.readopen
  pub writeopen : out.0.writeopen ≡ p.writeopen
  pub ended : (out.1, out.2) ≡ ending p killed n bytes

is_full-count : (p : Pipe) → IsValid p → is_full p ≡ true → count p ≡ pipe_size
is_full-count p v h = omega (arith, (==_iff _ _).0 h, v.nread_word, v.nwrite_word)

not-is_full-count : (p : Pipe) → IsValid p → is_full p ≡ false → count p < pipe_size
not-is_full-count p v h = ground (arith, v.nread_word, v.nwrite_word, v.fits)

full-Writes :
    (c : ℕ) (cs : List ℕ) (p : Pipe) (killed : Bool) (n : ℕ)
    → IsValid p
    → is_full p ≡ true
    → Writes p killed n (c ∷ cs) (write_from p killed n (c ∷ cs))
unfolding write_from
full-Writes c cs p killed n v full =
    let e : room p ≡ 0 = omega (arith, is_full-count p v full) in
    record {
      valid = rw full (ground arith);
      stored = rw (full, e) (ground (arith, append-nil (contents p)));
      reader = ground arith;
      readopen = ground arith;
      writeopen = ground arith;
      ended = rw (full, e) (ground arith);
    }

step-Writes :
    (c : ℕ) (cs : List ℕ) (p : Pipe) (killed : Bool) (n : ℕ)
    → IsValid p
    → is_full p ≡ false
    → Writes (store p c) killed n cs (write_from (store p c) killed n cs)
    → Writes p killed n (c ∷ cs) (write_from p killed n (c ∷ cs))
unfolding write_from
step-Writes c cs p killed n v free w =
    let less = not-is_full-count p v free in
    let e : room p ≡ suc (room (store p c)) = omega (arith, count-store v less c) in
    rw free record {
      valid = w.valid;
      stored =
          w.stored
          ∙ ap (λ t. t ++ take (room (store p c)) cs) (contents-store v less c)
          ∙ append_assoc (contents p) (c ∷ []) (take (room (store p c)) cs)
          ∙ sym (ap (λ k. contents p ++ take k (c ∷ cs)) e);
      reader = w.reader;
      readopen = w.readopen;
      writeopen = w.writeopen;
      ended = w.ended ∙ sym (rw (e, leb-suc) refl);
    }

-- The run of a call of n bytes that still has to write these.
pub write_from-Writes :
    (bytes : List ℕ) (p : Pipe) (killed : Bool) (n : ℕ)
    → IsValid p
    → Writes p killed n bytes (write_from p killed n bytes)
unfolding write_from
write_from-Writes [] p killed n v = record {
  valid = v;
  stored = sym (rw (take-nil, append-nil));
  reader = refl;
  readopen = refl;
  writeopen = refl;
  ended = ground arith;
}
write_from-Writes (c ∷ cs) p killed n v = elim (Bool-cases (is_full p)) [
  | inl full ↦ full-Writes c cs p killed n v full
  | inr free ↦
      step-Writes c cs p killed n v free
        (write_from-Writes cs (store p c) killed n (store-IsValid v (not-is_full-count p v free) c))
]

-- pipewrite of any bytes on a valid pipe: the bytes that fit are appended in order, and no others,
-- the reader's counter and both open flags stay, the pipe stays valid, and the call ends as
-- `ending` says.
pub pipewrite-Writes :
    (bytes : List ℕ) (p : Pipe) (killed : Bool)
    → IsValid p
    → Writes p killed (length bytes) bytes (pipewrite p killed bytes)
unfolding pipewrite
pipewrite-Writes bytes p killed v = write_from-Writes bytes p killed (length bytes) v
