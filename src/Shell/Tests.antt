-- ===== src/Shell/Tests.antt =====
-- Lines of the shell.
use cse314_operating_system.Base.{ℕ, ◌≡◌, refl, inr, List, [], ◌∷◌, arith}
use cse314_operating_system.Shell.{
  Cmd, exec, redir, pipe, list, back, ok, panics, parsecmd, parseline, parsepipe, parseredirs,
  parseargs, parsebacks, peek, gettoken, token, skip, word_of, all_read, redir_of, leftovers,
}
use cse314_operating_system.Shell.Print.{Printable, show}
use cse314_operating_system.Shell.Ends.{Ends}
use cse314_operating_system.Shell.Total.{parsecmd-Ends}
use cse314_operating_system.Shell.Sound.{parsecmd-Sound}
use cse314_operating_system.Shell.RoundTrip.{parsecmd-show}
use Prim.Native.Char.{code}
use Prim.Native.String.{String}

abbrev codes : String → List ℕ
codes String.[] = []
codes (String.◌∷◌ c s) = code c ∷ codes s

abbrev parsed : Cmd
parsed = back (
    pipe (redir (exec (codes "a" ∷ codes "b" ∷ [])) (record { file = codes "f"; mode = 0; fd = 0 }))
      (redir (list (exec (codes "c" ∷ [])) (exec (codes "d" ∷ [])))
        (record { file = codes "g"; mode = 0x201; fd = 1 })))

pipeline : parsecmd (codes "a b< f|(c ;d)>>g&") ≡ ok (parsed, [])
unfolding parsecmd parseline parsepipe parseredirs parseargs parsebacks peek gettoken token skip
    word_of all_read redir_of
pipeline = refl

-- A second `&` is fine, but nothing may follow it.
after_back : parsecmd (codes "a & b") ≡ panics leftovers
unfolding parsecmd parseline parsepipe parseredirs parseargs parsebacks peek gettoken token skip
    word_of all_read redir_of
after_back = refl

-- `(a;b >f)|c&` has a list in parentheses.
abbrev nested : Cmd
nested = back (
    pipe
      (list (exec (codes "a" ∷ []))
        (redir (exec (codes "b" ∷ [])) (record { file = codes "f"; mode = 0x201; fd = 1 })))
      (exec (codes "c" ∷ [])))

nested-Printable : Printable nested
unfolding Printable
nested-Printable = (
  (
    (((refl, tt), tt), omega arith),
    ((((refl, tt), tt), omega arith), ((refl, tt), inr (refl, refl))),
  ),
  (((refl, tt), tt), omega arith),
)

nested_line : show 0 nested [] ≡ codes "(a ;b >f )|c &"
unfolding show
nested_line = refl

parsecmd-show_example : parsecmd (show 0 nested []) ≡ ok (nested, [])
parsecmd-show_example = parsecmd-show nested nested-Printable

parsecmd-Ends_example : Ends 0 (parsecmd (codes "a | (b"))
parsecmd-Ends_example = parsecmd-Ends (codes "a | (b")

parsecmd-Sound_example : Printable parsed × (parsecmd (show 0 parsed []) ≡ ok (parsed, []))
parsecmd-Sound_example = parsecmd-Sound (codes "a b< f|(c ;d)>>g&") parsed [] pipeline
