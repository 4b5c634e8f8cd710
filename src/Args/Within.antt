-- ===== src/Args/Within.antt =====
-- What the kernel is given lies in the memory of the caller.
use cse314_operating_system.Base.{
  ℕ, zero, suc, ◌+◌, ◌-◌, ◌^◌, ◌≤◌, ◌<◌, ◌≡◌, refl, sym, ap, subst, ◌∙◌, ◌≢◌, ◌⊎◌, inl, inr, true,
  false, ◌||◌, Option, none, some, arith, ltb, leb, ◌==◌, Bool-cases, Option-cases,
}
use cse314_operating_system.Base.{uint}
use cse314_operating_system.Strings.{Bytes}
use cse314_operating_system.Args.{Caller, length_from, fetchstr, argint, argptr}

-- KERNBASE, the end of the memory of every process
abbrev pub kernbase : ℕ
kernbase = 2 ^ 31

-- A test that the kernel makes of a range which starts inside
inside :
    (sz i n : ℕ)
    → sz ≤ kernbase
    → n < 2 ^ 31
    → ((leb sz i || ltb sz (uint (i + n))) ≡ false)
    → (i < sz) × (i + n ≤ sz)
inside sz i n small short t = ground (arith, small, short, t)

outside :
    (sz i n : ℕ)
    → sz ≤ kernbase
    → n < 2 ^ 31
    → ((leb sz i || ltb sz (uint (i + n))) ≡ true)
    → (sz ≤ i) ⊎ (sz < i + n)
outside sz i n small short t = ground (arith, small, short, t)

-- A string: its bytes are not 0, and the next is
abbrev pub StringAt : Bytes → (s len : ℕ) → Type 0
StringAt m s len = ((k : ℕ) → k < len → m (s + k) ≢ 0) × (m (s + len) ≡ 0)

-- What the loop of `fetchstr` may find in `n` bytes
pub Found : Bytes → (n s : ℕ) → Option ℕ → Type 0
Found m n s none = (k : ℕ) → k < n → m (s + k) ≢ 0
Found m n s (some len) = (len < n) × StringAt m s len

longer : Option ℕ → Option ℕ
longer none = none
longer (some len) = some (suc len)

not_ended :
    (m : Bytes) (s n : ℕ)
    → m s ≢ 0
    → ((k : ℕ) → k < n → m (s + 1 + k) ≢ 0)
    → (k : ℕ) → k < suc n
    → m (s + k) ≢ 0
not_ended m s n here rest zero h = λ e. here (ap m (omega arith) ∙ e)
not_ended m s n here rest (suc k) h = λ e. rest k (omega (arith, h)) (ap m (omega arith) ∙ e)

Found-longer :
    (m : Bytes) (n s : ℕ) (r : Option ℕ)
    → m s ≢ 0
    → Found m n (s + 1) r
    → Found m (suc n) s (longer r)
unfolding Found longer
Found-longer m n s none here f = not_ended m s n here f
Found-longer m n s (some len) here (h, (before, ended)) =
    (omega (arith, h), (not_ended m s len here before, ap m (omega arith) ∙ ended))

length_from-Found : (m : Bytes) (n s : ℕ) → Found m n s (length_from m n s)
unfolding length_from Found longer
length_from-Found m zero s = λ k h. absurd (omega (arith, h))
length_from-Found m (suc n) s = elim (Bool-cases (m s == 0)) [
  | inl t ↦
      let ended : m s ≡ 0 = ground (arith, t) in
      rw (t, length_from)
        (omega arith, (λ k h. absurd (omega (arith, h)), ap m (omega arith) ∙ ended))
  | inr t ↦
      let here : m s ≢ 0 = λ e. absurd (ground (arith, t, e)) in
      let next : length_from m (suc n) s ≡ longer (length_from m n (s + 1)) =
        elim (Option-cases (length_from m n (s + 1))) [
          | inl q ↦ rw (t, q, length_from) refl
          | inr (len, q) ↦ rw (t, q, length_from) refl
        ] in
      subst (Found m (suc n) s) (sym next)
        (Found-longer m n s (length_from m n (s + 1)) here (length_from-Found m n (s + 1)))
]

-- What `fetchstr` may answer
pub Fetched : Caller → (addr : ℕ) → Option (ℕ × ℕ) → Type 0
Fetched c addr none = (k : ℕ) → addr + k < c.sz → c.memory (addr + k) ≢ 0
Fetched c addr (some (p, len)) = (p ≡ addr) × (addr + len < c.sz) × StringAt c.memory addr len

-- `fetchstr` answers -1 only when no byte from the address to the end of the memory is 0. Else it answers the address
-- with the length of the string there, whose end is inside the memory.
pub fetchstr-Fetched : (c : Caller) (addr : ℕ) → Fetched c addr (fetchstr c addr)
unfolding fetchstr Fetched Found
fetchstr-Fetched c addr = elim (Bool-cases (leb c.sz addr)) [
  | inl t ↦ rw (t, fetchstr) (λ k h. absurd (ground (arith, t, h)))
  | inr t ↦
      let end : c.sz - addr + addr ≡ c.sz = ground (arith, t) in
      let f = length_from-Found c.memory (c.sz - addr) addr in
      elim (Option-cases (length_from c.memory (c.sz - addr) addr)) [
        | inl q ↦
            let nowhere : Found c.memory (c.sz - addr) addr none =
              subst (Found c.memory (c.sz - addr) addr) q f in
            rw (t, q, fetchstr) (λ k h. nowhere k (omega (arith, h, end)))
        | inr (len, q) ↦
            let there : Found c.memory (c.sz - addr) addr (some len) =
              subst (Found c.memory (c.sz - addr) addr) q f in
            rw (t, q, fetchstr) (refl, omega (arith, there.0, end), there.1)
      ]
]

-- The buffer that `argptr` allows
pub Buffer : Caller → (n size : ℕ) → Option ℕ → Type 0
Buffer c n size none =
    ((argint c n ≡ none))
    ⊎ (2 ^ 31 ≤ size)
    ⊎ ((i : ℕ) × (argint c n ≡ some i) × ((c.sz ≤ i) ⊎ (c.sz < i + size)))
Buffer c n size (some p) = (argint c n ≡ some p) × (p < c.sz) × (p + size ≤ c.sz)

-- In a process that ends below KERNBASE, `argptr` answers a buffer only inside the memory of the caller, with no
-- wrap-around: it starts at the argument, and its `size` bytes end by the end of the memory. It refuses one only when
-- the argument itself cannot be read, `size` is negative, or the buffer is not inside.
pub argptr-Buffer : (c : Caller) (n size : ℕ) → c.sz ≤ kernbase → Buffer c n size (argptr c n size)
unfolding argptr Buffer
argptr-Buffer c n size small = elim (Option-cases (argint c n)) [
  | inl q ↦ rw (q, argptr) (inl q)
  | inr (i, q) ↦ elim (Bool-cases (leb (2 ^ 31) size)) [
    | inl t ↦ rw (q, t, argptr) (inr (inl (ground (arith, t))))
    | inr t ↦ elim (Bool-cases (leb c.sz i || ltb c.sz (uint (i + size)))) [
      | inl out ↦
          rw (q, t, out, argptr)
            (inr (inr (i, q, outside c.sz i size small (ground (arith, t)) out)))
      | inr fits ↦
          rw (q, t, fits, argptr)
            (let (low, high) = inside c.sz i size small (ground (arith, t)) fits in (q, low, high))
    ]
  ]
]
