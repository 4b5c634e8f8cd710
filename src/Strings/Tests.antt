-- ===== src/Strings/Tests.antt =====
-- The string functions on bytes that count up from 1.
use cse314_operating_system.Base.{◌+◌, ◌%◌, ◌≡◌, refl, [], ◌∷◌, map}
use cse314_operating_system.Strings.{Bytes, memmove, move_down, safestrcpy, safestrcpy_from}
use cse314_operating_system.Strings.Move.{memmove-moved}

abbrev counting : Bytes
counting x = (x + 1) % 256

-- An overlap upwards
moved_up_by_two :
    map (memmove 12 10 4 counting) (11 ∷ 12 ∷ 13 ∷ 14 ∷ 15 ∷ []) ≡ 12 ∷ 11 ∷ 12 ∷ 13 ∷ 14 ∷ []
unfolding memmove move_down
moved_up_by_two = refl

cut :
    map (safestrcpy 100 10 3 counting) (99 ∷ 100 ∷ 101 ∷ 102 ∷ 103 ∷ [])
    ≡ 100 ∷ 11 ∷ 12 ∷ 0 ∷ 104 ∷ []
unfolding safestrcpy safestrcpy_from
cut = refl

memmove-moved_example : memmove 12 10 4 counting 13 ≡ 12
memmove-moved_example = memmove-moved 12 10 4 counting 13
