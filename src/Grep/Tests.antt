-- ===== src/Grep/Tests.antt =====
-- The matcher on "xaab".
use cse314_operating_system.Base.{ℕ, ◌≡◌, refl, ◌↔◌, true, false, List, [], ◌∷◌}
use cse314_operating_system.Grep.{match_star, match_one, match_here, search_from, match_text}
use cse314_operating_system.Grep.Search.{Somewhere, match_text-Somewhere}

-- 'a' is 97, 'b' 98 and 'x' 120.
abbrev text : List ℕ
text = 120 ∷ 97 ∷ 97 ∷ 98 ∷ []

-- "a*b$"
abbrev pattern : List ℕ
pattern = 97 ∷ 42 ∷ 98 ∷ 36 ∷ []

finds : match_text pattern text ≡ true
unfolding match_text search_from match_here match_star match_one
finds = refl

anchored : match_text (94 ∷ pattern) text ≡ false
unfolding match_text search_from match_here match_star match_one
anchored = refl

match_text-Somewhere_example :
    (match_text pattern text ≡ true) ↔ Somewhere (match_here pattern) text
match_text-Somewhere_example = match_text-Somewhere pattern text refl
