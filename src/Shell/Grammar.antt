-- ===== src/Shell/Grammar.antt =====
-- The parser of sh.c ends with the fuel it is given, and the commands it makes are well formed.
use xv6_fork.Prelude.{
  ℕ, zero, suc, ◌+◌, ◌*◌, ◌≤◌, ◌<◌, ◌≡◌, refl, ◌⊎◌, inl, inr, Bool-cases, arith, List, [], ◌∷◌,
  if◌then◌else◌, length,
}
use xv6_fork.Shell.{
  Cmd, pipe, line, back, Failure, Parsed, ok, panic, no_fuel, ◌>>=◌, gettoken, peek, parse_redirs,
  parse_block, parse_exec, parse_backs, parse_line, parse_pipe, parse_cmd, finish,
}
use xv6_fork.Shell.Tokens.{length-peek, length-seen}
use xv6_fork.Shell.Arguments.{
  IsCmd, Within, bind-Within, EachRedirect, wrap-IsCmd, parse_redirs-Within, parse_simple-Within,
}

-- The parser of a whole line does its work on texts shorter than `n`.
abbrev Parses : (List ℕ → Parsed Cmd) → ℕ → Type 0
Parses inner n = (t : List ℕ) → length t < n → Within (length t) IsCmd (inner t)

parse_block-Within :
    (inner : List ℕ → Parsed Cmd) (f n : ℕ) (s : List ℕ)
    → Parses inner (length s)
    → length s ≤ n
    → length s < f
    → Within n IsCmd (parse_block inner f s)
unfolding parse_block
parse_block-Within inner f n s h le lt = elim (Bool-cases (peek (b'(' ∷ []) s).0) [
  | inr shut ↦ rw shut tt
  | inl opens ↦
      let less = length-seen (b'(' ∷ []) s opens in
      let body = (gettoken (peek (b'(' ∷ []) s).1).2 in
      rw opens (
        bind-Within (length body) n IsCmd IsCmd (inner body) _ (h body less) (λ cmd t lt' cmd_ok.
          elim (Bool-cases (peek (b')' ∷ []) t).0) [
            | inr missing ↦ rw missing tt
            | inl closes ↦
                let less' = length-seen (b')' ∷ []) t closes in
                rw closes (
                  bind-Within n n EachRedirect IsCmd
                    (parse_redirs f (gettoken (peek (b')' ∷ []) t).1).2) _
                    (parse_redirs-Within f n _ (omega (arith, less, less'))
                      (omega (arith, less, less')))
                    (λ rs u lu each. (lu, wrap-IsCmd rs cmd cmd_ok each)))
          ]))
]

parse_exec-Within :
    (inner : List ℕ → Parsed Cmd) (f n : ℕ) (s : List ℕ)
    → Parses inner (length s)
    → length s ≤ n
    → length s < f
    → Within n IsCmd (parse_exec inner f s)
unfolding parse_exec
parse_exec-Within inner f n s h le lt =
    let behind = length-peek (b'(' ∷ []) s in
    elim (Bool-cases (peek (b'(' ∷ []) s).0) [
      | inl opens ↦ rw opens (
          parse_block-Within inner f n (peek (b'(' ∷ []) s).1
            (λ t less. h t (omega (arith, behind))) (omega (arith, behind)) (omega (arith, behind)))
      | inr plain ↦ rw plain (
          parse_simple-Within f n (peek (b'(' ∷ []) s).1 (omega (arith, behind))
            (omega (arith, behind)))
    ]

parse_backs-Within :
    (f n : ℕ) (cmd : Cmd) (s : List ℕ)
    → IsCmd cmd
    → length s ≤ n
    → length s < f
    → Within n IsCmd (parse_backs f cmd s)
unfolding parse_backs
parse_backs-Within zero n cmd s h le lt = absurd (omega arith)
parse_backs-Within (suc f) n cmd s h le lt = elim (Bool-cases (peek (b'&' ∷ []) s).0) [
  | inr ends ↦ rw ends (omega (arith, length-peek (b'&' ∷ []) s), h)
  | inl seen ↦
      let less = length-seen (b'&' ∷ []) s seen in
      rw seen (
        parse_backs-Within f n (back cmd) (gettoken (peek (b'&' ∷ []) s).1).2 h
          (omega (arith, less)) (omega (arith, less)))
]

-- What stands behind a command: nothing more, or a symbol and a second command.
second-Within :
    (n : ℕ) (toks s : List ℕ) (cmd : Cmd) (join : Cmd → Cmd) (next : List ℕ → Parsed Cmd)
    → length s ≤ n
    → IsCmd cmd
    → ((c : Cmd) → IsCmd c → IsCmd (join c))
    → ((t : List ℕ) → length t < length s → Within n IsCmd (next t))
    → Within n IsCmd (
        if (peek toks s).0
        then (next (gettoken (peek toks s).1).2 >>= λ right u. ok (join right) u)
        else ok cmd (peek toks s).1)
second-Within n toks s cmd join next le h joins nexts = elim (Bool-cases (peek toks s).0) [
  | inr ends ↦ rw ends (omega (arith, length-peek toks s), h)
  | inl seen ↦ rw seen (
      bind-Within n n IsCmd IsCmd (next (gettoken (peek toks s).1).2) _
        (nexts (gettoken (peek toks s).1).2 (length-seen toks s seen))
        (λ right u lu right_ok. (lu, joins right right_ok)))
]

mutual
  unfolding parse_line parse_pipe

  parse_line-Within :
      (f n : ℕ) (s : List ℕ) → length s ≤ n → 3 * length s + 3 ≤ f → Within n IsCmd (parse_line f s)
  parse_line-Within zero n s le fuel = absurd (omega arith)
  parse_line-Within (suc f) n s le fuel =
      bind-Within (length s) n IsCmd IsCmd (parse_pipe f s) _
        (parse_pipe-Within f (length s) s (omega arith) (omega arith))
        (λ cmd t lt cmd_ok.
          bind-Within (length s) n IsCmd IsCmd (parse_backs f cmd t) _
            (parse_backs-Within f (length s) cmd t cmd_ok lt (omega arith))
            (λ backed u lu backed_ok.
              second-Within n (b';' ∷ []) u backed (line backed) (parse_line f) (omega arith)
                backed_ok (λ c c_ok. (backed_ok, c_ok))
                (λ v lv. parse_line-Within f n v (omega arith) (omega arith))))

  parse_pipe-Within :
      (f n : ℕ) (s : List ℕ) → length s ≤ n → 3 * length s + 2 ≤ f → Within n IsCmd (parse_pipe f s)
  parse_pipe-Within zero n s le fuel = absurd (omega arith)
  parse_pipe-Within (suc f) n s le fuel =
      bind-Within (length s) n IsCmd IsCmd (parse_exec (parse_line f) f s) _
        (parse_exec-Within (parse_line f) f (length s) s
          (λ t less. parse_line-Within f (length t) t (omega arith) (omega arith)) (omega arith)
          (omega arith))
        (λ cmd t lt cmd_ok.
          second-Within n (b'|' ∷ []) t cmd (pipe cmd) (parse_pipe f) (omega arith) cmd_ok
            (λ c c_ok. (cmd_ok, c_ok))
            (λ v lv. parse_pipe-Within f n v (omega arith) (omega arith)))

-- parsecmd ends on every text, with one of its error messages or with a command that it has read the
-- whole text for. All arguments and files of the command are words without white space and symbols, no
-- command has MAXARGS arguments, and redirections open 0 for reading or 1 for writing.
pub parse_cmd-IsCmd :
    (s : List ℕ)
    → ((c : Cmd) × (parse_cmd s ≡ ok c []) × IsCmd c) ⊎ ((e : Failure) × (parse_cmd s ≡ panic e))
unfolding parse_cmd
parse_cmd-IsCmd s =
    go (parse_line (3 * length s + 3) s)
      (parse_line-Within (3 * length s + 3) (length s) s (omega arith) (omega arith))
  where
    ending :
        (c : Cmd) (t : List ℕ)
        → IsCmd c
        → ((d : Cmd) × (finish c t ≡ ok d []) × IsCmd d) ⊎ ((e : Failure) × (finish c t ≡ panic e))
    ending c [] h = inl (c, refl, h)
    ending c (d ∷ u) h = inr (Failure.leftovers, refl)

    go :
        (m : Parsed Cmd)
        → Within (length s) IsCmd m
        → ((c : Cmd) × ((m >>= λ d t. finish d (peek [] t).1) ≡ ok c []) × IsCmd c)
          ⊎ ((e : Failure) × ((m >>= λ d t. finish d (peek [] t).1) ≡ panic e))
    go (ok c t) w = ending c (peek [] t).1 w.1
    go (panic e) w = inr (e, refl)
    go no_fuel w = absurd w
