-- ===== src/Strings.antt =====
-- Offline 4/xv6/string.c (the same file in Offline 3/xv6). Memory is a byte at each address; a region does
-- not wrap at the end of the address space, and an `int` length is not negative where it says so.
pub mod Move
pub mod Copy
pub mod Compare
mod Tests
use cse314_operating_system.Base.{
  ℕ, zero, suc, ◌+◌, ◌-◌, ◌*◌, ◌/◌, ◌%◌, ◌^◌, ◌≤◌, ◌<◌, min, ◌≡◌, refl, sym, ap, ap₂, subst, ◌∙◌,
  fun_ext, ◌≢◌, ◌↔◌, ◌⊎◌, inl, inr, Bool, true, false, not, ◌&&◌, ◌||◌, Option, none, some, List,
  [], ◌∷◌, ◌++◌, map, append-nil, append_assoc, arith, dec_lt, ℕ_discrete, ltb, leb, ◌==◌,
  if◌then◌else◌, ltb→lt, lt→ltb, leb→le, ==_iff, Bool-cases, Option-cases, length, get_elem?,
  get_or, set, take, drop, replicate, All, length-append, length-set,
}

abbrev pub Bytes : Type 0
Bytes = ℕ → ℕ

abbrev pub store : Bytes → (a v : ℕ) → Bytes
store m a v x = if x == a then v else m x

-- `rep stosb`, of the low byte
pub stosb : (a c n : ℕ) → Bytes → Bytes
stosb a c zero m = m
stosb a c (suc n) m = stosb (a + 1) c n (store m a (c % 256))

-- One word of `rep stosl`, little-endian
pub store_word : (a w : ℕ) → Bytes → Bytes
store_word a w m =
    store (store (store (store m a (w % 256)) (a + 1) (w / 2 ^ 8 % 256)) (a + 2) (w / 2 ^ 16 % 256))
      (a + 3) (w / 2 ^ 24 % 256)

pub stosl : (a w n : ℕ) → Bytes → Bytes
stosl a w zero m = m
stosl a w (suc n) m = stosl (a + 4) w n (store_word a w m)

-- `memset`; the bits of `c` are kept apart by the shifts, so `|` adds them.
pub memset : (dst c n : ℕ) → Bytes → Bytes
memset dst c n m =
    let b = c % 256 in
    if dst % 4 == 0 && n % 4 == 0
    then stosl dst (b * 2 ^ 24 + b * 2 ^ 16 + b * 2 ^ 8 + b) (n / 4) m
    else stosb dst c n m

-- `*s1 - *s2` of two bytes, as the bits of an `int`
abbrev pub byte_sub : ℕ → ℕ → ℕ
byte_sub a b = (a + 2 ^ 32 - b) % 2 ^ 32

pub memcmp : Bytes → (s1 s2 n : ℕ) → ℕ
memcmp m s1 s2 zero = 0
memcmp m s1 s2 (suc n) =
    let rest = memcmp m (s1 + 1) (s2 + 1) n in if m s1 == m s2 then rest else byte_sub (m s1) (m s2)

-- The loops of `memmove`: from the end down, and from the start up.
pub move_down : (s d n : ℕ) → Bytes → Bytes
move_down s d zero m = m
move_down s d (suc n) m = move_down s d n (store m (d + n) (m (s + n)))

pub move_up : (s d n : ℕ) → Bytes → Bytes
move_up s d zero m = m
move_up s d (suc n) m = move_up (s + 1) (d + 1) n (store m d (m s))

pub memmove : (dst src n : ℕ) → Bytes → Bytes
memmove dst src n m =
    if ltb src dst && ltb dst (src + n) then move_down src dst n m else move_up src dst n m

pub memcpy : (dst src n : ℕ) → Bytes → Bytes
memcpy dst src n m = memmove dst src n m

pub strncmp : Bytes → (p q n : ℕ) → ℕ
strncmp m p q zero = 0
strncmp m p q (suc n) =
    let rest = strncmp m (p + 1) (q + 1) n in
    if not (m p == 0) && m p == m q then rest else byte_sub (m p) (m q)

-- The second loop of `strncpy`
pub pad : (s n : ℕ) → Bytes → Bytes
pad s zero m = m
pad s (suc n) m = pad (s + 1) n (store m s 0)

-- The first loop of `strncpy`, and then the second. A negative length is as 0.
pub strncpy : (s t n : ℕ) → Bytes → Bytes
strncpy s t zero m = m
strncpy s t (suc n) m =
    let stored = store m s (m t) in
    let rest = strncpy (s + 1) (t + 1) n stored in if m t == 0 then pad (s + 1) n stored else rest

-- The loop of `safestrcpy` with `n` left after the decrement, and the last store
pub safestrcpy_from : (s t n : ℕ) → Bytes → Bytes
safestrcpy_from s t zero m = store m s 0
safestrcpy_from s t (suc n) m =
    let stored = store m s (m t) in
    let rest = safestrcpy_from (s + 1) (t + 1) n stored in
    if m t == 0 then store stored (s + 1) 0 else rest

-- A length that is not positive is 0.
pub safestrcpy : (s t n : ℕ) → Bytes → Bytes
safestrcpy s t zero m = m
safestrcpy s t (suc n) m = safestrcpy_from s t n m

-- `strlen` from index `n` on; `none` when it has not ended after that many rounds.
pub strlen : (fuel : ℕ) → Bytes → (s n : ℕ) → Option ℕ
strlen zero m s n = none
strlen (suc f) m s n = let rest = strlen f m s (n + 1) in if m (s + n) == 0 then some n else rest
