-- ===== src/Console/Lines.antt =====
-- consoleread of console.c: a read takes at most one line.
use xv6_fork.Prelude.{
  ℕ, zero, suc, ◌+◌, ◌-◌, ◌≤◌, ◌<◌, ◌≡◌, ◌≢◌, ◌⊎◌, refl, sym, ap, inl, inr, arith, Bool, true,
  false, List, [], ◌∷◌, ◌++◌, length, get_or, ◌==◌, ==_iff, Bool-cases, ltb,
}
use xv6_fork.Console.{
  Input, newline, end_of_file, ReadOutcome, returned, failed, asleep, consoleread,
}
use xv6_fork.Console.Ring.{Shows}
use xv6_fork.Console.Reads.{spec_read, read_from-ReadsAs}

-- Why a read of `n` bytes returns: it has them, it has met a newline, or it has met an end of file.
pub StopsFor : ℕ → List ℕ → List ℕ → Type 0
StopsFor n ready bytes =
    (length bytes ≡ n)
    ⊎ (((begin : List ℕ) × (bytes ≡ begin ++ newline ∷ []))
        ⊎ ((rest : List ℕ) × (ready ≡ bytes ++ end_of_file ∷ rest)))

-- A read returns a count and has a reason; or everything that was ready is read.
pub Comes : ℕ → Bool → ℕ → List ℕ → List ℕ → List ℕ → ReadOutcome → Type 0
Comes target killed n ready left bytes (returned k) =
    (k + n ≡ target + length bytes) × StopsFor n ready bytes
Comes target killed n ready left bytes failed = (killed ≡ true) × (left ≡ [])
Comes target killed n ready left bytes (asleep m) =
    (killed ≡ false) × (left ≡ []) × (0 < m) × (m + length bytes ≡ n)

pub record TakesLine (target : ℕ) (killed : Bool) (n : ℕ) (ready left bytes : List ℕ)
    (o : ReadOutcome) : Type 0 where
  pub at_most : length bytes ≤ n
  pub one_line : (k : ℕ) → suc k < length bytes → get_or bytes k 0 ≢ newline
  pub no_end : (k : ℕ) → k < length bytes → get_or bytes k 0 ≢ end_of_file
  pub in_order :
      (bytes ++ left ≡ ready) ⊎ ((target ≤ n) × (bytes ≡ []) × (end_of_file ∷ left ≡ ready))
  pub comes : Comes target killed n ready left bytes o

empty-TakesLine :
    (target : ℕ) (killed : Bool) (n : ℕ) (ready left : List ℕ) (o : ReadOutcome)
    → (left ≡ ready) ⊎ ((target ≤ n) × (end_of_file ∷ left ≡ ready))
    → Comes target killed n ready left [] o
    → TakesLine target killed n ready left [] o
empty-TakesLine target killed n ready left o order comes = record {
  at_most = omega arith;
  one_line = λ k h. absurd (omega arith);
  no_end = λ k h. absurd (omega arith);
  in_order = elim order [ inl e ↦ inl e | inr (le, e) ↦ inr (le, refl, e) ];
  comes = comes;
}

more-StopsFor :
    (n c : ℕ) (ready bytes : List ℕ)
    → StopsFor n ready bytes
    → StopsFor (suc n) (c ∷ ready) (c ∷ bytes)
unfolding StopsFor
more-StopsFor n c ready bytes (inl e) = inl (omega (arith, e))
more-StopsFor n c ready bytes (inr (inl (begin, e))) = inr (inl (c ∷ begin, ap (λ t. c ∷ t) e))
more-StopsFor n c ready bytes (inr (inr (rest, e))) = inr (inr (rest, ap (λ t. c ∷ t) e))

more-Comes :
    (target : ℕ) (killed : Bool) (n c : ℕ) (ready left bytes : List ℕ) (o : ReadOutcome)
    → Comes target killed n ready left bytes o
    → Comes target killed (suc n) (c ∷ ready) left (c ∷ bytes) o
unfolding Comes
more-Comes target killed n c ready left bytes (returned k) (e, stops) =
    (omega (arith, e), more-StopsFor n c ready bytes stops)
more-Comes target killed n c ready left bytes failed h = h
more-Comes target killed n c ready left bytes (asleep m) (here, none_left, some_more, e) =
    (here, none_left, some_more, omega (arith, e))

avoids-cons :
    (x c : ℕ) (bytes : List ℕ) (m : ℕ)
    → c ≢ x
    → ((k : ℕ) → k < m → get_or bytes k 0 ≢ x)
    → (k : ℕ) → k < suc m
    → get_or (c ∷ bytes) k 0 ≢ x
avoids-cons x c bytes m other h zero lt = other
avoids-cons x c bytes m other h (suc k) lt = h k (omega arith)

more-TakesLine :
    (target : ℕ) (killed : Bool) (n c : ℕ) (ready left bytes : List ℕ) (o : ReadOutcome)
    → n < target
    → c ≢ newline
    → c ≢ end_of_file
    → TakesLine target killed n ready left bytes o
    → TakesLine target killed (suc n) (c ∷ ready) left (c ∷ bytes) o
more-TakesLine target killed n c ready left bytes o lt inside goes h = record {
  at_most = omega (arith, h.at_most);
  one_line = λ k lt'.
      avoids-cons newline c bytes (length bytes - 1) inside (λ j lt''. h.one_line j (omega arith)) k
        (omega arith);
  no_end = avoids-cons end_of_file c bytes (length bytes) goes h.no_end;
  in_order = elim h.in_order [
    | inl e ↦ inl (ap (λ t. c ∷ t) e)
    | inr (le, _, e) ↦ absurd (omega arith)
  ];
  comes = more-Comes target killed n c ready left bytes o h.comes;
}

spec_read-TakesLine :
    (n target : ℕ) (killed : Bool) (ready : List ℕ)
    → n ≤ target
    → let r = spec_read target killed n ready in TakesLine target killed n ready r.0 r.1 r.2
unfolding spec_read Comes StopsFor
spec_read-TakesLine zero target killed ready le =
    empty-TakesLine target killed 0 ready ready (returned target) (inl refl) (omega arith, inl refl)
spec_read-TakesLine (suc n) target true [] le =
    empty-TakesLine target true (suc n) [] [] failed (inl refl) (refl, refl)
spec_read-TakesLine (suc n) target false [] le =
    empty-TakesLine target false (suc n) [] [] (asleep (suc n)) (inl refl)
      (refl, refl, omega arith, omega arith)
spec_read-TakesLine (suc n) target killed (c ∷ ready) le =
    let stop_here : (target - suc n) + suc n ≡ target + 0 = omega arith in
    elim (Bool-cases (c == end_of_file)) [
      | inl stop ↦
          let e : c ≡ end_of_file = (==_iff _ _).0 stop in
          rw stop (elim (Bool-cases (ltb (suc n) target)) [
            | inl some_read ↦ rw some_read (
                empty-TakesLine target killed (suc n) (c ∷ ready) (c ∷ ready) _ (inl refl)
                  (stop_here, inr (inr (ready, ap (λ x. x ∷ ready) e))))
            | inr none_read ↦ rw none_read (
                empty-TakesLine target killed (suc n) (c ∷ ready) ready _
                  (inr (ground arith, ap (λ x. x ∷ ready) (sym e)))
                  (stop_here, inr (inr (ready, ap (λ x. x ∷ ready) e))))
          ])
      | inr goes ↦ rw goes (elim (Bool-cases (c == newline)) [
        | inl line_end ↦ rw line_end record {
          at_most = omega arith;
          one_line = λ k h. absurd (omega arith);
          no_end = avoids-cons end_of_file c [] 0 (ground arith) (λ k h. absurd (omega arith));
          in_order = inl refl;
          comes = (omega arith, inr (inl ([], ap (λ x. x ∷ []) ((==_iff _ _).0 line_end))));
        }
        | inr inside ↦ rw inside (
            more-TakesLine target killed n c ready _ _ _ (omega arith) (ground arith) (ground arith)
              (spec_read-TakesLine n target killed ready (omega arith)))
      ])
    ]

pub record ReadsLine (killed : Bool) (n : ℕ) (ready line : List ℕ)
    (out : Input × List ℕ × ReadOutcome) : Type 0 where
  pub left : List ℕ
  pub shows : Shows out.0 left line
  pub line_of : TakesLine n killed n ready left out.1 out.2

-- consoleread of `n` bytes, from a ring that holds the characters `ready` to be read and the typed
-- line `line`, leaves the typed line, and hands over the first characters that are ready, in order,
-- at most `n` of them. They hold no end of file, and a newline at most as the last. It returns their
-- number, and does so only if they are `n`, or end in a newline, or an end of file follows them; this
-- is taken out only if nothing is handed over. Else it has read everything that was ready, and returns
-- -1 if the process is killed and sleeps, with the rest of `n` left to read, if not.
pub consoleread-ReadsLine :
    (killed : Bool) (n : ℕ) (s : Input) (ready line : List ℕ)
    → Shows s ready line
    → ReadsLine killed n ready line (consoleread killed n s)
unfolding consoleread
consoleread-ReadsLine killed n s ready line v =
    let a = read_from-ReadsAs n n killed s ready line v in
    let t = spec_read-TakesLine n n killed ready (omega arith) in
    record {
      left = (spec_read n killed n ready).0;
      shows = a.shows;
      line_of = rw (a.bytes, a.ended) t;
    }
