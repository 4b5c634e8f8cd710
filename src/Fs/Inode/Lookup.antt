-- ===== src/Fs/Inode/Lookup.antt =====
-- The block numbers of a file: `addrs` and the indirect block read as one map.
use cse314_operating_system.Base.{
  ℕ, ◌+◌, ◌-◌, ◌*◌, ◌^◌, ◌≤◌, ◌<◌, ◌≡◌, sym, ◌∙◌, ◌≢◌, ◌⊎◌, inr, arith, dec_lt, ℕ_discrete, ltb,
  ◌==◌, if◌then◌else◌, get_or,
}
use cse314_operating_system.Fs.{Blocks}
use cse314_operating_system.Fs.Inode.{Inode, word_at, put_word, ndirect}

abbrev pub indirect : Inode → ℕ
indirect ip = get_or ip.addrs ndirect 0

-- The block of a file with number `n`, 0 when it has none
abbrev pub lookup : Inode → Blocks → (n : ℕ) → ℕ
lookup ip d n =
    if ltb n ndirect
    then get_or ip.addrs n 0
    else if indirect ip == 0
    then 0
    else word_at d (indirect ip) (4 * (n - ndirect))

pub lookup-direct :
    (ip : Inode) (d : Blocks) (n : ℕ) → n < ndirect → lookup ip d n ≡ get_or ip.addrs n 0
lookup-direct ip d n h = ground (arith, h)

pub lookup-entry :
    (ip : Inode) (d : Blocks) (n : ℕ)
    → ndirect ≤ n
    → indirect ip ≢ 0
    → lookup ip d n ≡ word_at d (indirect ip) (4 * (n - ndirect))
lookup-entry ip d n h ne = ground (arith, h, ne)

pub lookup-none :
    (ip : Inode) (d : Blocks) (n : ℕ) → ndirect ≤ n → indirect ip ≡ 0 → lookup ip d n ≡ 0
lookup-none ip d n h e = ground (arith, h, e)

pub word_at-frame :
    (d d' : Blocks) (b i : ℕ)
    → ((j : ℕ) → i ≤ j → j < i + 4 → d' b j ≡ d b j)
    → word_at d' b i ≡ word_at d b i
word_at-frame d d' b i same = omega (
  arith,
  same i (omega arith) (omega arith),
  same (i + 1) (omega arith) (omega arith),
  same (i + 2) (omega arith) (omega arith),
  same (i + 3) (omega arith) (omega arith),
)

-- The map stands when the indirect block does.
pub lookup-frame :
    (ip : Inode) (d d' : Blocks) (n : ℕ)
    → (indirect ip ≢ 0 → (j : ℕ) → d' (indirect ip) j ≡ d (indirect ip) j)
    → lookup ip d' n ≡ lookup ip d n
lookup-frame ip d d' n same = elim (dec_lt n ndirect) [
  | Dec.yes h ↦ lookup-direct ip d' n h ∙ sym (lookup-direct ip d n h)
  | Dec.no h ↦ elim (ℕ_discrete (indirect ip) 0) [
    | Dec.yes e ↦
        lookup-none ip d' n (omega (arith, h)) e ∙ sym (lookup-none ip d n (omega (arith, h)) e)
    | Dec.no ne ↦
        lookup-entry ip d' n (omega (arith, h)) ne
        ∙ word_at-frame d d' (indirect ip) (4 * (n - ndirect)) (λ j _ _. same ne j)
        ∙ sym (lookup-entry ip d n (omega (arith, h)) ne)
  ]
]

-- A word written is read back, and no other word changes.
pub word_at-put_word : (d : Blocks) (b i v : ℕ) → v < 2 ^ 32 → word_at (put_word d b i v) b i ≡ v
unfolding put_word
word_at-put_word d b i v h = ground (arith, h)

pub put_word-away :
    (d : Blocks) (b i v x j : ℕ) → (x ≢ b) ⊎ ((j < i) ⊎ (i + 4 ≤ j)) → put_word d b i v x j ≡ d x j
unfolding put_word
put_word-away d b i v x j away = ground (arith, away)

pub word_at-put_word_ne :
    (d : Blocks) (b v m n : ℕ)
    → n ≢ m
    → word_at (put_word d b (4 * m) v) b (4 * n) ≡ word_at d b (4 * n)
word_at-put_word_ne d b v m n ne =
    word_at-frame d (put_word d b (4 * m) v) b (4 * n)
      λ j lo hi. put_word-away d b (4 * m) v b j (inr (ground (arith, ne, lo, hi)))
