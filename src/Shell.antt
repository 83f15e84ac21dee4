-- ===== src/Shell.antt =====
-- sh.c: the parser of command lines. The text from `*ps` to `es` is a list of bytes without a NUL, so
-- `*s` at its end is the NUL behind it. A word is the bytes from `q` to `eq`, which nulterminate turns
-- into a C string. panic ends the process, and has its own result. The functions call one another, so
-- each takes fuel and hands on one unit less.
pub mod Tokens
pub mod Arguments
pub mod Grammar
mod Tests
use xv6_fork.Prelude.{
  ℕ, zero, suc, ◌+◌, ◌*◌, Bool, true, false, not, ◌&&◌, ◌||◌, Option, none, some, List, [], ◌∷◌,
  ◌++◌, if◌then◌else◌, ◌==◌, leb, length,
}

-- The commands that the constructors execcmd, redircmd, pipecmd, listcmd and backcmd make.
pub data Cmd : Type 0 where
  exec : List (List ℕ) → Cmd
  redir : Cmd → List ℕ → ℕ → ℕ → Cmd
  pipe line : Cmd → Cmd → Cmd
  back : Cmd → Cmd

pub data Failure : Type 0 where
  leftovers missing_file no_block missing_paren syntax too_many_args : Failure

pub data Parsed {ℓ} (A : Type ℓ) : Type ℓ where
  ok : A → List ℕ → Parsed A
  panic : Failure → Parsed A
  no_fuel : Parsed A

infixl 5 ◌>>=◌
abbrev pub ◌>>=◌ {ℓ κ} : {A : Type ℓ} {B : Type κ} → Parsed A → (A → List ℕ → Parsed B) → Parsed B
ok a s >>= f = f a s
panic e >>= f = panic e
no_fuel >>= f = no_fuel

-- `strchr(set, c)` for a character that is not NUL.
abbrev pub contains : List ℕ → ℕ → Bool
contains [] c = false
contains (x ∷ xs) c = (x == c) || contains xs c

abbrev pub whitespace : List ℕ
whitespace = b' ' ∷ b'\t' ∷ b'\r' ∷ b'\n' ∷ 11 ∷ []

abbrev pub symbols : List ℕ
symbols = b'<' ∷ b'|' ∷ b'>' ∷ b'&' ∷ b';' ∷ b'(' ∷ b')' ∷ []

-- `while(s < es && strchr(whitespace, *s)) s++;`
pub skip : List ℕ → List ℕ
skip [] = []
skip (c ∷ s) = if contains whitespace c then skip s else c ∷ s

-- The loop of gettoken over a word: the word, and what stands behind it.
pub word : List ℕ → List ℕ × List ℕ
word [] = ([], [])
word (c ∷ s) =
    let r = word s in
    if contains whitespace c || contains symbols c then ([], c ∷ s) else (c ∷ r.0, r.1)

-- The case of `>`, for what stands behind it.
abbrev pub greater : List ℕ → ℕ × List ℕ × List ℕ
greater [] = (b'>', b'>' ∷ [], [])
greater (d ∷ s) = if d == b'>' then (b'+', b'>' ∷ b'>' ∷ [], s) else (b'>', b'>' ∷ [], d ∷ s)

abbrev pub single : List ℕ
single = b'|' ∷ b'(' ∷ b')' ∷ b';' ∷ b'&' ∷ b'<' ∷ []

-- gettoken behind the first white space: the token's kind, its text and what stands behind it.
pub token : List ℕ → ℕ × List ℕ × List ℕ
token [] = (0, [], [])
token (c ∷ s) =
    let r = word (c ∷ s) in
    if contains single c
    then (c, c ∷ [], s)
    else (if c == b'>' then greater s else (b'a', r.0, r.1))

pub gettoken : List ℕ → ℕ × List ℕ × List ℕ
gettoken s = let (ret, text, rest) = token (skip s) in (ret, text, skip rest)

-- peek: whether the next character is one of `toks`, and `*ps` behind the white space.
pub peek : List ℕ → List ℕ → Bool × List ℕ
peek toks s = (elim (skip s) [ [] ↦ false | c ∷ t ↦ contains toks c ], skip s)

abbrev pub o_rdonly : ℕ
o_rdonly = 0

-- O_WRONLY|O_CREATE
abbrev pub o_wronly_create : ℕ
o_wronly_create = 0x201

-- The switch of parseredirs. Its `tok` is one of the three, as peek has seen.
abbrev pub redirect : ℕ → Cmd → List ℕ → Cmd
redirect tok cmd file =
    if tok == b'<'
    then redir cmd file o_rdonly 0
    else (if (tok == b'>') || (tok == b'+') then redir cmd file o_wronly_create 1 else cmd)

-- One redirection of a command: its token and its file.
abbrev pub Redirect : Type 0
Redirect = ℕ × List ℕ

abbrev pub wrap : Cmd → List Redirect → Cmd
wrap cmd [] = cmd
wrap cmd ((tok, file) ∷ rs) = wrap (redirect tok cmd file) rs

-- parseredirs: the redirections, which `wrap` puts round the command. They are kept apart since
-- parseexec goes on filling in the command that they are round.
pub parse_redirs : ℕ → List ℕ → Parsed (List Redirect)
parse_redirs zero s = no_fuel
parse_redirs (suc f) s =
    let seen = peek (b'<' ∷ b'>' ∷ []) s in
    let tok = gettoken seen.1 in
    let file = gettoken tok.2 in
    let more = parse_redirs f file.2 >>= λ rs t. ok ((tok.0, file.1) ∷ rs) t in
    if seen.0 then (if not (file.0 == b'a') then panic missing_file else more) else ok [] seen.1

abbrev pub max_args : ℕ
max_args = 10

-- The loop of parseexec with `argc` arguments so far: the arguments and redirections that follow.
pub parse_args : ℕ → ℕ → List ℕ → Parsed (List (List ℕ) × List Redirect)
parse_args zero argc s = no_fuel
parse_args (suc f) argc s =
    let seen = peek (b'|' ∷ b')' ∷ b'&' ∷ b';' ∷ []) s in
    let tok = gettoken seen.1 in
    let more = parse_redirs f tok.2 >>= λ rs t.
    parse_args f (argc + 1) t >>= λ r u. ok (tok.1 ∷ r.0, rs ++ r.1) u in
    if seen.0
    then ok ([], []) seen.1
    else (if tok.0 == 0
        then ok ([], []) tok.2
        else (if not (tok.0 == b'a')
            then panic syntax
            else (if leb max_args (argc + 1) then panic too_many_args else more)))

-- parseexec where no parenthesis opens a block.
pub parse_simple : ℕ → List ℕ → Parsed Cmd
parse_simple f s =
    parse_redirs f s >>= λ rs t. parse_args f 0 t >>= λ r u. ok (wrap (exec r.0) (rs ++ r.1)) u

-- parseblock, where `inner` is parseline.
pub parse_block : (List ℕ → Parsed Cmd) → ℕ → List ℕ → Parsed Cmd
parse_block inner f s =
    let opens = peek (b'(' ∷ []) s in
    if not opens.0
    then panic no_block
    else (inner (gettoken opens.1).2 >>= λ cmd t.
        let closes = peek (b')' ∷ []) t in
        if not closes.0
        then panic missing_paren
        else (parse_redirs f (gettoken closes.1).2 >>= λ rs u. ok (wrap cmd rs) u))

pub parse_exec : (List ℕ → Parsed Cmd) → ℕ → List ℕ → Parsed Cmd
parse_exec inner f s =
    let seen = peek (b'(' ∷ []) s in
    if seen.0 then parse_block inner f seen.1 else parse_simple f seen.1

-- `while(peek(ps, es, "&"))` of parseline.
pub parse_backs : ℕ → Cmd → List ℕ → Parsed Cmd
parse_backs zero cmd s = no_fuel
parse_backs (suc f) cmd s =
    let seen = peek (b'&' ∷ []) s in
    let more = parse_backs f (back cmd) (gettoken seen.1).2 in
    if seen.0 then more else ok cmd seen.1

mutual
  pub parse_line : ℕ → List ℕ → Parsed Cmd
  parse_line zero s = no_fuel
  parse_line (suc f) s = parse_pipe f s >>= λ cmd t. parse_backs f cmd t >>= λ backed u.
      let seen = peek (b';' ∷ []) u in
      let more = parse_line f (gettoken seen.1).2 >>= λ right v. ok (line backed right) v in
      if seen.0 then more else ok backed seen.1

  pub parse_pipe : ℕ → List ℕ → Parsed Cmd
  parse_pipe zero s = no_fuel
  parse_pipe (suc f) s = parse_exec (parse_line f) f s >>= λ cmd t.
      let seen = peek (b'|' ∷ []) t in
      let more = parse_pipe f (gettoken seen.1).2 >>= λ right u. ok (pipe cmd right) u in
      if seen.0 then more else ok cmd seen.1

-- parsecmd behind parseline, for what peek leaves.
abbrev pub finish : Cmd → List ℕ → Parsed Cmd
finish cmd [] = ok cmd []
finish cmd (c ∷ s) = panic leftovers

-- parsecmd.
pub parse_cmd : List ℕ → Parsed Cmd
parse_cmd s = parse_line (3 * length s + 3) s >>= λ cmd t. finish cmd (peek [] t).1
