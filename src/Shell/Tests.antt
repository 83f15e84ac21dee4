-- ===== src/Shell/Tests.antt =====
-- sh.c on `ls | (wc; cat) >f &`.
use xv6_fork.Prelude.{ℕ, ◌≡◌, ◌⊎◌, refl, List, [], ◌∷◌}
use xv6_fork.Shell.{
  Cmd, exec, redir, pipe, line, back, Failure, missing_paren, ok, panic, skip, word, token,
  gettoken, peek, parse_redirs, parse_args, parse_simple, parse_block, parse_exec, parse_backs,
  parse_line, parse_pipe, parse_cmd,
}
use xv6_fork.Shell.Arguments.{IsCmd}
use xv6_fork.Shell.Grammar.{parse_cmd-IsCmd}

abbrev block : List ℕ
block =
    b'(' ∷ b'w' ∷ b'c' ∷ b';' ∷ b' ' ∷ b'c' ∷ b'a' ∷ b't' ∷ b')' ∷ b' ' ∷ b'>' ∷ b'f' ∷ b' ' ∷ b'&'
    ∷ []

abbrev text : List ℕ
text = b'l' ∷ b's' ∷ b' ' ∷ b'|' ∷ b' ' ∷ block

abbrev command : Cmd
command = back (
    pipe (exec ((b'l' ∷ b's' ∷ []) ∷ [])) (
      redir (line (exec ((b'w' ∷ b'c' ∷ []) ∷ [])) (exec ((b'c' ∷ b'a' ∷ b't' ∷ []) ∷ [])))
        (b'f' ∷ []) 0x201 1))

parsed : parse_cmd text ≡ ok command []
unfolding parse_cmd parse_line parse_pipe parse_exec parse_block parse_simple parse_args
    parse_redirs parse_backs peek gettoken token word skip
parsed = refl

unclosed : parse_cmd (b'(' ∷ b'l' ∷ b's' ∷ []) ≡ panic missing_paren
unfolding parse_cmd parse_line parse_pipe parse_exec parse_block parse_simple parse_args
    parse_redirs parse_backs peek gettoken token word skip
unclosed = refl

parse_cmd-IsCmd_example :
    ((c : Cmd) × (parse_cmd text ≡ ok c []) × IsCmd c)
    ⊎ ((e : Failure) × (parse_cmd text ≡ panic e))
parse_cmd-IsCmd_example = parse_cmd-IsCmd text
