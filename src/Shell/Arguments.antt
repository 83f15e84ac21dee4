-- ===== src/Shell/Arguments.antt =====
-- The arguments and redirections of a command, in the parser of sh.c.
use xv6_fork.Prelude.{
  ℕ, zero, suc, ◌+◌, ◌≤◌, ◌<◌, ◌≡◌, refl, ◌⊎◌, inl, inr, Bool-cases, arith, ◌||◌, List, [], ◌∷◌,
  ◌++◌, ◌==◌, leb, length,
}
use xv6_fork.Shell.{
  Cmd, exec, redir, pipe, line, back, Parsed, ok, panic, no_fuel, ◌>>=◌, gettoken, peek, o_rdonly,
  o_wronly_create, redirect, Redirect, wrap, parse_redirs, max_args, parse_args, parse_simple,
}
use xv6_fork.Shell.Tokens.{IsWord, gettoken-IsToken, length-peek, length-seen}

abbrev pub EachWord : List (List ℕ) → Type 0
EachWord [] = Unit {0}
EachWord (w ∷ ws) = IsWord w × EachWord ws

-- Arguments are words, and fewer than MAXARGS; a redirection has a word for its file, and opens it for
-- reading as 0 or for writing as 1.
abbrev pub IsCmd : Cmd → Type 0
IsCmd (exec args) = EachWord args × (length args < max_args)
IsCmd (redir c file mode fd) =
    IsCmd c × IsWord file × ((mode ≡ o_rdonly) × (fd ≡ 0) ⊎ (mode ≡ o_wronly_create) × (fd ≡ 1))
IsCmd (pipe l r) = IsCmd l × IsCmd r
IsCmd (line l r) = IsCmd l × IsCmd r
IsCmd (back c) = IsCmd c

-- The parser has not run out of fuel, and what it returns, with at most `n` characters left, meets `P`.
abbrev pub Within : {A : Type 0} → ℕ → (A → Type 0) → Parsed A → Type 0
Within n P (ok a t) = (length t ≤ n) × P a
Within n P (panic e) = Unit {0}
Within n P no_fuel = ⊥

pub bind-Within :
    {A B : Type 0} (n k : ℕ) (P : A → Type 0) (Q : B → Type 0) (m : Parsed A)
    (f : A → List ℕ → Parsed B)
    → Within n P m
    → ((a : A) (t : List ℕ) → length t ≤ n → P a → Within k Q (f a t))
    → Within k Q (m >>= f)
bind-Within n k P Q (ok a t) f w g = g a t w.0 w.1
bind-Within n k P Q (panic e) f w g = tt
bind-Within n k P Q no_fuel f w g = absurd w

abbrev IsRedirect : Redirect → Type 0
IsRedirect (tok, file) = IsWord file

abbrev pub EachRedirect : List Redirect → Type 0
EachRedirect [] = Unit {0}
EachRedirect (r ∷ rs) = IsRedirect r × EachRedirect rs

redirect-IsCmd :
    (tok : ℕ) (c : Cmd) (file : List ℕ) → IsCmd c → IsWord file → IsCmd (redirect tok c file)
redirect-IsCmd tok c file h w = elim (Bool-cases (tok == b'<')) [
  | inl reads ↦ rw reads (h, w, inl (refl, refl))
  | inr other ↦ elim (Bool-cases ((tok == b'>') || (tok == b'+'))) [
    | inl writes ↦ rw (other, writes) (h, w, inr (refl, refl))
    | inr none_of ↦ rw (other, none_of) h
  ]
]

pub wrap-IsCmd : (rs : List Redirect) (c : Cmd) → IsCmd c → EachRedirect rs → IsCmd (wrap c rs)
wrap-IsCmd [] c h e = h
wrap-IsCmd ((tok, file) ∷ rs) c h e =
    wrap-IsCmd rs (redirect tok c file) (redirect-IsCmd tok c file h e.0) e.1

append-EachRedirect :
    (rs ss : List Redirect) → EachRedirect rs → EachRedirect ss → EachRedirect (rs ++ ss)
append-EachRedirect [] ss h k = k
append-EachRedirect (r ∷ rs) ss h k = (h.0, append-EachRedirect rs ss h.1 k)

pub parse_redirs-Within :
    (f n : ℕ) (s : List ℕ) → length s ≤ n → length s < f → Within n EachRedirect (parse_redirs f s)
unfolding parse_redirs
parse_redirs-Within zero n s le lt = absurd (omega arith)
parse_redirs-Within (suc f) n s le lt = elim (Bool-cases (peek (b'<' ∷ b'>' ∷ []) s).0) [
  | inr ends ↦ rw ends (omega (arith, length-peek (b'<' ∷ b'>' ∷ []) s), tt)
  | inl seen ↦
      let s1 = (gettoken (peek (b'<' ∷ b'>' ∷ []) s).1).2 in
      let file = gettoken s1 in
      let t = gettoken-IsToken s1 in
      let less = length-seen (b'<' ∷ b'>' ∷ []) s seen in
      elim (Bool-cases (file.0 == b'a')) [
        | inr other ↦ rw (seen, other) tt
        | inl is_word ↦
            rw (seen, is_word)
              (bind-Within n n EachRedirect EachRedirect (parse_redirs f file.2) _
                (parse_redirs-Within f n file.2 (omega (arith, t.shrinks, less))
                  (omega (arith, t.shrinks, less)))
                (λ rs u lu each. (lu, (t.is_word (ground arith), each))))
      ]
]

abbrev Args : Type 0
Args = List (List ℕ) × List Redirect

-- Arguments that may follow `argc` others.
abbrev Fits : ℕ → Args → Type 0
Fits argc r = EachWord r.0 × (argc + length r.0 < max_args) × EachRedirect r.1

more-Fits :
    (argc : ℕ) (w : List ℕ) (rs : List Redirect) (r : Args)
    → IsWord w
    → EachRedirect rs
    → Fits (argc + 1) r
    → Fits argc ((w ∷ r.0), (rs ++ r.1))
more-Fits argc w rs r word each h =
    ((word, h.0), omega (arith, h.1), append-EachRedirect rs r.1 each h.2)

parse_args-Within :
    (f n argc : ℕ) (s : List ℕ)
    → length s ≤ n
    → length s < f
    → argc < max_args
    → Within n (Fits argc) (parse_args f argc s)
unfolding parse_args
parse_args-Within zero n argc s le lt room = absurd (omega arith)
parse_args-Within (suc f) n argc s le lt room =
    let stops = b'|' ∷ b')' ∷ b'&' ∷ b';' ∷ [] in
    let behind = length-peek stops s in
    elim (Bool-cases (peek stops s).0) [
      | inl seen ↦ rw seen (omega (arith, behind), (tt, omega arith, tt))
      | inr more ↦
          let tok = gettoken (peek stops s).1 in
          let t = gettoken-IsToken (peek stops s).1 in
          elim (Bool-cases (tok.0 == 0)) [
            | inl ends ↦ rw (more, ends) (omega (arith, behind, t.shrinks), (tt, omega arith, tt))
            | inr goes_on ↦ elim (Bool-cases (tok.0 == b'a')) [
              | inr other ↦ rw (more, goes_on, other) tt
              | inl is_word ↦ elim (Bool-cases (leb max_args (argc + 1))) [
                | inl many ↦ rw (more, goes_on, is_word, many) tt
                | inr few ↦
                    let less = t.consumes (ground arith) in
                    rw (more, goes_on, is_word, few)
                      (bind-Within (length tok.2) n EachRedirect (Fits argc) (parse_redirs f tok.2)
                        _
                        (parse_redirs-Within f (length tok.2) tok.2 (omega arith)
                          (omega (arith, less, behind)))
                        (λ rs u lu each.
                          bind-Within n n (Fits (argc + 1)) (Fits argc) (parse_args f (argc + 1) u)
                            _
                            (parse_args-Within f n (argc + 1) u (omega (arith, lu, less, behind))
                              (omega (arith, lu, less, behind)) (ground arith))
                            (λ r v lv fits. (
                              lv,
                              more-Fits argc tok.1 rs r (t.is_word (ground arith)) each fits,
                            ))))
              ]
            ]
          ]
    ]

pub parse_simple-Within :
    (f n : ℕ) (s : List ℕ) → length s ≤ n → length s < f → Within n IsCmd (parse_simple f s)
unfolding parse_simple
parse_simple-Within f n s le lt =
    bind-Within (length s) n EachRedirect IsCmd (parse_redirs f s) _
      (parse_redirs-Within f (length s) s (omega arith) lt)
      (λ rs t lt' each.
        bind-Within n n (Fits 0) IsCmd (parse_args f 0 t) _
          (parse_args-Within f n 0 t (omega arith) (omega arith) (omega arith))
          (λ r u lu fits. (
            lu,
            wrap-IsCmd (rs ++ r.1) (exec r.0) (fits.0, omega (arith, fits.1))
                (append-EachRedirect rs r.1 each fits.2),
          )))
