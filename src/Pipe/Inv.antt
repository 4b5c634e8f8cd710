-- ===== src/Pipe/Inv.antt =====
-- The counters of a pipe wrap at 2 ^ 32; their distance is the number of bytes held.
use cse314_operating_system.Base.{
  ℕ, zero, suc, ◌+◌, ◌-◌, ◌%◌, ◌^◌, ◌≤◌, ◌<◌, ◌≡◌, refl, ap, ap₂, ◌∙◌, ◌≢◌, ◌↔◌, true, List, [],
  ◌∷◌, ◌++◌, arith, length, get_or, set, length-set, get_or-set_self, get_or-set_ne,
}
use cse314_operating_system.Pipe.{Pipe, pipe_size, is_full, is_empty, put}

abbrev pub used : Pipe → ℕ
used p = (p.nwrite + 2 ^ 32 - p.nread) % 2 ^ 32

pub record IsValid (p : Pipe) : Type 0 where
  pub storage : length p.buf ≡ 512
  pub nread_lt : p.nread < 2 ^ 32
  pub nwrite_lt : p.nwrite < 2 ^ 32
  pub used_le : used p ≤ 512

-- The `n` bytes from index `i` on, going round at 512.
abbrev pub window : List ℕ → ℕ → ℕ → List ℕ
window buf i zero = []
window buf i (suc n) = get_or buf (i % pipe_size) 0 ∷ window buf (i + 1) n

abbrev pub contents : Pipe → List ℕ
contents p = window p.buf p.nread (used p)

pub length-window : (buf : List ℕ) (i n : ℕ) → length (window buf i n) ≡ n
length-window buf i zero = refl
length-window buf i (suc n) = ap suc (length-window buf (i + 1) n)

-- Only the index modulo 512 counts.
pub window-mod : (buf : List ℕ) (i j n : ℕ) → i % 512 ≡ j % 512 → window buf i n ≡ window buf j n
window-mod buf i j zero e = refl
window-mod buf i j (suc n) e =
    ap₂ ◌∷◌ (ap (λ k. get_or buf k 0) e) (window-mod buf (i + 1) (j + 1) n (omega arith))

-- A write just behind the window extends it.
pub window-set :
    (buf : List ℕ) (i n k b : ℕ)
    → length buf ≡ 512
    → n < 512
    → k ≡ (i + n) % 512
    → window (set buf k b) i (suc n) ≡ window buf i n ++ (b ∷ [])
window-set buf i zero k b len h e =
    let e' : i % 512 ≡ k = omega arith in
    rw e' (ap (λ (x : ℕ). x ∷ []) (get_or-set_self buf k b 0 (omega arith)))
window-set buf i (suc n) k b len h e =
    ap₂ ◌∷◌ (get_or-set_ne buf k (i % 512) b 0 (omega arith))
      (window-set buf (i + 1) n k b len (omega arith) (omega arith))

pub is_full_iff : {p : Pipe} → IsValid p → (is_full p ≡ true) ↔ (used p ≡ 512)
unfolding is_full
is_full_iff v = ground arith

pub is_empty_iff : {p : Pipe} → IsValid p → (is_empty p ≡ true) ↔ (used p ≡ 0)
unfolding is_empty
is_empty_iff v = ground arith

pub put-IsValid : {p : Pipe} (b : ℕ) → IsValid p → used p < 512 → IsValid (put p b)
unfolding put
put-IsValid {p} b v h = record {
  storage = length-set p.buf (p.nwrite % 512) b ∙ v.storage;
  nread_lt = v.nread_lt;
  nwrite_lt = omega arith;
  used_le = omega arith;
}

pub used-put : {p : Pipe} (b : ℕ) → IsValid p → used p < 512 → used (put p b) ≡ used p + 1
unfolding put
used-put b v h = omega arith

pub contents-put :
    {p : Pipe} (b : ℕ) → IsValid p → used p < 512 → contents (put p b) ≡ contents p ++ (b ∷ [])
unfolding put
contents-put {p} b v h =
    let e : used (put p b) ≡ suc (used p) = omega (arith, used-put b v h) in
    rw e (window-set p.buf p.nread (used p) (p.nwrite % 512) b v.storage h (omega arith))

-- One byte taken from a pipe that is not empty.
abbrev pub advance : Pipe → Pipe
advance p = record p { nread = (p.nread + 1) % 2 ^ 32 }

pub advance-IsValid : {p : Pipe} → IsValid p → used p ≢ 0 → IsValid (advance p)
advance-IsValid v h = record {
  storage = v.storage;
  nread_lt = omega arith;
  nwrite_lt = v.nwrite_lt;
  used_le = omega arith;
}

pub used-advance : {p : Pipe} → IsValid p → used p ≢ 0 → used p ≡ suc (used (advance p))
used-advance v h = omega arith

pub contents-advance :
    {p : Pipe}
    → IsValid p
    → used p ≢ 0
    → contents p ≡ get_or p.buf (p.nread % 512) 0 ∷ contents (advance p)
contents-advance {p} v h = rw (used-advance v h) (
    ap (◌∷◌ (get_or p.buf (p.nread % 512) 0))
      (window-mod p.buf (p.nread + 1) ((p.nread + 1) % 2 ^ 32) (used (advance p)) (omega arith)))
