-- ===== src/Strings/Move.antt =====
-- `memmove` and `memset`.
use cse314_operating_system.Base.{
  ℕ, zero, suc, ◌+◌, ◌-◌, ◌≤◌, ◌≡◌, ◌∙◌, ◌⊎◌, inl, inr, ◌&&◌, arith, ltb, leb, if◌then◌else◌,
  Bool-cases,
}
use cse314_operating_system.Strings.{Bytes, store, move_down, move_up, memmove}

-- The bytes of `m`, but those of `[d, d + n)` are those of `[s, s + n)`.
abbrev pub moved : (s d n : ℕ) → Bytes → Bytes
moved s d n m x = if leb d x && ltb x (d + n) then m (s + (x - d)) else m x

move_up-moved :
    (s d n : ℕ) (m : Bytes) (x : ℕ) → (d ≤ s) ⊎ (s + n ≤ d) → move_up s d n m x ≡ moved s d n m x
unfolding move_up
move_up-moved s d zero m x h = ground arith
move_up-moved s d (suc n) m x h =
    move_up-moved (s + 1) (d + 1) n (store m d (m s)) x (ground arith) ∙ ground arith

move_down-moved : (s d n : ℕ) (m : Bytes) (x : ℕ) → s ≤ d → move_down s d n m x ≡ moved s d n m x
unfolding move_down
move_down-moved s d zero m x h = ground arith
move_down-moved s d (suc n) m x h =
    move_down-moved s d n (store m (d + n) (m (s + n))) x h ∙ ground arith

-- `memmove` copies as if through a buffer, whatever the overlap of the two regions.
pub memmove-moved :
    (dst src n : ℕ) (m : Bytes) (x : ℕ) → memmove dst src n m x ≡ moved src dst n m x
unfolding memmove
memmove-moved dst src n m x = elim (Bool-cases (ltb src dst && ltb dst (src + n))) [
  | inl down ↦ rw down (move_down-moved src dst n m x (ground arith))
  | inr up ↦ rw up (move_up-moved src dst n m x (ground arith))
]
