-- ===== src/Bio/Unique.antt =====
-- A block has at most one buffer.
use cse314_operating_system.Base.{
  ℕ, zero, suc, ◌+◌, ◌≤◌, ◌≡◌, refl, sym, ap, ap₂, subst, ◌∙◌, ◌≢◌, ◌⊎◌, inl, inr, Bool, false, not,
  ◌&&◌, none, some, List, [], ◌∷◌, arith, ◌==◌, if◌then◌else◌, Bool-cases, Option-cases,
}
use cse314_operating_system.Bio.{
  Buf, init_from, binit, is_block, find_cached, recycle, bget, mark, take_out, drop_ref, to_front,
  brelse,
}

-- The buffers of a block
abbrev pub copies : (dev block : ℕ) → List Buf → ℕ
copies dev block [] = 0
copies dev block (b ∷ bs) = (if is_block dev block b then 1 else 0) + copies dev block bs

-- No block of a device other than 0 has two. All buffers stand for block 0 of device 0 at first.
abbrev pub Unique : List Buf → Type 0
Unique bs = (dev block : ℕ) → dev ≢ 0 → copies dev block bs ≤ 1

copies-mark :
    (d k place : ℕ) (v w : Bool) (bs : List Buf) → copies d k (mark place v w bs) ≡ copies d k bs
unfolding mark
copies-mark d k place v w [] = refl
copies-mark d k place v w (b ∷ bs) = elim (Bool-cases (b.place == place)) [
  | inl here ↦ rw (here, mark) refl
  | inr other ↦
      rw (other, mark)
        (ap (λ n. (if is_block d k b then 1 else 0) + n) (copies-mark d k place v w bs))
]

copies-drop_ref : (d k place : ℕ) (bs : List Buf) → copies d k (drop_ref place bs) ≡ copies d k bs
unfolding drop_ref
copies-drop_ref d k place [] = refl
copies-drop_ref d k place (b ∷ bs) = elim (Bool-cases (b.place == place)) [
  | inl here ↦ rw (here, drop_ref) refl
  | inr other ↦
      rw (other, drop_ref)
        (ap (λ n. (if is_block d k b then 1 else 0) + n) (copies-drop_ref d k place bs))
]

copies-take_out :
    (d k place : ℕ) (bs : List Buf)
    → (take_out place bs ≡ none)
      ⊎ ((b : Buf) × (others : List Buf) × (take_out place bs ≡ some (b, others))
          × (copies d k (b ∷ others) ≡ copies d k bs))
unfolding take_out
copies-take_out d k place [] = inl refl
copies-take_out d k place (b ∷ bs) = elim (Bool-cases (b.place == place)) [
  | inl here ↦ inr (b, bs, rw (here, take_out) refl, refl)
  | inr other ↦ elim (copies-take_out d k place bs) [
    | inl q ↦ inl (rw (other, q, take_out) refl)
    | inr (x, others, q, same) ↦
        inr (x, b ∷ others, rw (other, q, take_out) refl, omega (arith, same))
  ]
]

copies-brelse : (d k place : ℕ) (bs : List Buf) → copies d k (brelse place bs) ≡ copies d k bs
unfolding brelse to_front
copies-brelse d k place bs = elim (copies-take_out d k place (drop_ref place bs)) [
  | inl q ↦ rw (q, brelse) (copies-drop_ref d k place bs)
  | inr (b, others, q, same) ↦ elim (Bool-cases (b.refs == 0)) [
    | inl unused ↦ rw (q, brelse, unused) (same ∙ copies-drop_ref d k place bs)
    | inr used ↦ rw (q, brelse, used) (copies-drop_ref d k place bs)
  ]
]

-- A hit leaves the blocks as they are; a miss means that there is no buffer of the block.
copies-find_cached :
    (d k dev block : ℕ) (bs : List Buf)
    → ((find_cached dev block bs ≡ none) × (copies dev block bs ≡ 0))
      ⊎ ((p : ℕ) × (bs' : List Buf) × (find_cached dev block bs ≡ some (p, bs'))
          × (copies d k bs' ≡ copies d k bs))
unfolding find_cached
copies-find_cached d k dev block [] = inl (refl, refl)
copies-find_cached d k dev block (b ∷ bs) = elim (Bool-cases (is_block dev block b)) [
  | inl hit ↦ inr (b.place, record b { refs = b.refs + 1 } ∷ bs, rw (hit, find_cached) refl, refl)
  | inr miss ↦ elim (copies-find_cached d k dev block bs) [
    | inl (q, zero_copies) ↦
        inl (rw (miss, q, find_cached) refl, rw miss (omega (arith, zero_copies)))
    | inr (p, bs', q, same) ↦ inr (p, b ∷ bs', rw (miss, q, find_cached) refl, omega (arith, same))
  ]
]

copies-recycle :
    (d k dev block : ℕ) (bs : List Buf)
    → (recycle dev block bs ≡ none)
      ⊎ ((p : ℕ) × (bs' : List Buf) × (recycle dev block bs ≡ some (p, bs'))
          × (copies d k bs' ≤ copies d k bs + (if dev == d && block == k then 1 else 0)))
unfolding recycle
copies-recycle d k dev block [] = inl refl
copies-recycle d k dev block (b ∷ bs) = elim (copies-recycle d k dev block bs) [
  | inr (p, bs', q, le) ↦ inr (p, b ∷ bs', rw (q, recycle) refl, omega (arith, le))
  | inl q ↦ elim (Bool-cases (b.refs == 0 && not b.dirty)) [
    | inl free ↦ inr (
      b.place,
      record b { dev = dev; block = block; refs = 1; valid = false; dirty = false } ∷ bs,
      rw (q, free, recycle) refl,
      ground arith,
    )
    | inr taken ↦ inl (rw (q, taken, recycle) refl)
  ]
]

still_one :
    (dev block d k : ℕ) (bs : List Buf) (n : ℕ)
    → copies dev block bs ≡ 0
    → copies d k bs ≤ 1
    → n ≤ copies d k bs + (if dev == d && block == k then 1 else 0)
    → n ≤ 1
still_one dev block d k bs n z old le = elim (Bool-cases (dev == d && block == k)) [
  | inr other ↦
      let exact : n ≤ copies d k bs + 0 =
        subst (λ b. n ≤ copies d k bs + (if b then 1 else 0)) other le in
      omega arith
  | inl same ↦
      let is : (dev ≡ d) × (block ≡ k) = ground (arith, same) in
      let none_there : copies d k bs ≡ 0 = sym (ap₂ (λ x y. copies x y bs) is.0 is.1) ∙ z in
      let bound : n ≤ copies d k bs + 1 =
        subst (λ b. n ≤ copies d k bs + (if b then 1 else 0)) same le in
      omega arith
]

recycle-Unique :
    (dev block p : ℕ) (bs bs' : List Buf)
    → copies dev block bs ≡ 0
    → recycle dev block bs ≡ some (p, bs')
    → Unique bs
    → Unique bs'
recycle-Unique dev block p bs bs' zero_copies e u d k nz = elim (copies-recycle d k dev block bs) [
  | inl q ↦ absurd (grind (arith, e, q))
  | inr (p', cs, q, le) ↦
      let same : cs ≡ bs' = cc in
      subst (λ x. copies d k x ≤ 1) same
        (still_one dev block d k bs (copies d k cs) zero_copies (u d k nz) le)
]

missed : (dev block : ℕ) (bs : List Buf) → find_cached dev block bs ≡ none → copies dev block bs ≡ 0
missed dev block bs q = elim (copies-find_cached 0 0 dev block bs) [
  | inl (same, z) ↦ z
  | inr (p, bs', found, same) ↦ absurd (grind (arith, found, q))
]

hit_one :
    (d k dev block p : ℕ) (bs bs' : List Buf)
    → find_cached dev block bs ≡ some (p, bs')
    → copies d k bs ≤ 1
    → copies d k bs' ≤ 1
hit_one d k dev block p bs bs' q old = elim (copies-find_cached d k dev block bs) [
  | inl (miss, z) ↦ absurd (grind (arith, miss, q))
  | inr (p', cs, found, same) ↦
      let eq : cs ≡ bs' = cc in subst (λ x. copies d k x ≤ 1) eq (omega (arith, same, old))
]

bget-Unique :
    (dev block p : ℕ) (bs bs' : List Buf)
    → bget dev block bs ≡ some (p, bs')
    → Unique bs
    → Unique bs'
unfolding bget
bget-Unique dev block p bs bs' e u = elim (Option-cases (find_cached dev block bs)) [
  | inl miss ↦
      let none_there = missed dev block bs miss in
      let got : recycle dev block bs ≡ some (p, bs') = sym (rw (miss, bget) refl) ∙ e in
      recycle-Unique dev block p bs bs' none_there got u
  | inr (r, hit) ↦ λ d k nz.
      let got : find_cached dev block bs ≡ some (p, bs') = hit ∙ sym (rw (hit, bget) refl) ∙ e in
      hit_one d k dev block p bs bs' got (u d k nz)
]

-- What the cache goes through: a `bget` that does not panic, a `brelse`, or a change of flags by the disk
-- driver or the log
pub data Reach : List Buf → Type 0 where
  starts : Reach binit
  gets :
      {bs bs' : List Buf} (dev block p : ℕ)
      → Reach bs
      → bget dev block bs ≡ some (p, bs')
      → Reach bs'
  releases : {bs : List Buf} (place : ℕ) → Reach bs → Reach (brelse place bs)
  marks :
      {bs : List Buf} (place : ℕ) (valid dirty : Bool)
      → Reach bs
      → Reach (mark place valid dirty bs)

init_from-none :
    (n place d k : ℕ) (bs : List Buf) → d ≢ 0 → copies d k (init_from n place bs) ≡ copies d k bs
unfolding init_from
init_from-none zero place d k bs nz = refl
init_from-none (suc n) place d k bs nz =
    let other : (0 == d) ≡ false = ground arith in
    init_from-none n (place + 1) d k _ nz ∙ rw other (omega arith)

-- Whatever is read, written and released, the cache has at most one buffer for a block of a device other
-- than 0.
pub one_buffer : (dev block : ℕ) {bs : List Buf} → Reach bs → dev ≢ 0 → copies dev block bs ≤ 1
unfolding binit
one_buffer dev block starts nz = omega (arith, init_from-none 30 0 dev block [] nz)
one_buffer dev block (gets {bs} {bs'} d k p r e) nz =
    bget-Unique d k p bs bs' e (λ x y nx. one_buffer x y r nx) dev block nz
one_buffer dev block (releases {bs} place r) nz =
    subst (λ n. n ≤ 1) (sym (copies-brelse dev block place bs)) (one_buffer dev block r nz)
one_buffer dev block (marks {bs} place v w r) nz =
    subst (λ n. n ≤ 1) (sym (copies-mark dev block place v w bs)) (one_buffer dev block r nz)
