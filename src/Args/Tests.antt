-- ===== src/Args/Tests.antt =====
-- Arguments of system calls at concrete inputs.
use cse314_operating_system.Base.{◌≡◌, refl, none, some, arith}
use cse314_operating_system.Strings.{Bytes, store}
use cse314_operating_system.Args.{Caller, fetchint, length_from, fetchstr, argint, argptr, argstr}
use cse314_operating_system.Args.Within.{Fetched, fetchstr-Fetched, Buffer, argptr-Buffer}

-- A page with the stack at its end: the return address, and the arguments 256 and 4000. The string "ab" is at 256.
abbrev bytes : Bytes
bytes = store (store (store (store (store (λ a. 0) 256 97) 257 98) 4085 1) 4088 160) 4089 15

abbrev caller : Caller
caller = record { sz = 4096; esp = 4080; memory = bytes }

first_argument : argint caller 0 ≡ some 256
unfolding argint fetchint
first_argument = refl

-- The sixth would be behind the end.
no_argument : argint caller 5 ≡ none
unfolding argint fetchint
no_argument = refl

fits_end : argptr caller 1 96 ≡ some 4000
unfolding argptr argint fetchint
fits_end = refl

passes_end : argptr caller 1 97 ≡ none
unfolding argptr argint fetchint
passes_end = refl

two_characters : argstr caller 0 ≡ some (256, 2)
unfolding argstr argint fetchint fetchstr length_from
two_characters = refl

argptr-Buffer_example : Buffer caller 1 96 (argptr caller 1 96)
argptr-Buffer_example = argptr-Buffer caller 1 96 (omega arith)

fetchstr-Fetched_example : Fetched caller 256 (fetchstr caller 256)
fetchstr-Fetched_example = fetchstr-Fetched caller 256
