-- ===== src/Paging/SwapFile.antt =====
-- `writeToSwapFile` of Offline 4/xv6/fs.c, with what `filewrite` (file.c) and `writei` (fs.c) do to
-- the contents of an ordinary file. Inodes, the log and a full disk are left out.
pub mod Laws
use cse314_operating_system.Base.{
  ℕ, zero, suc, ◌+◌, ◌-◌, ◌*◌, ◌/◌, ◌%◌, ◌^◌, ◌≤◌, ◌<◌, min, ◌≡◌, refl, sym, ap, ap₂, subst, ◌∙◌,
  fun_ext, ◌≢◌, ◌↔◌, ◌⊎◌, inl, inr, Bool, true, false, not, ◌&&◌, ◌||◌, Option, none, some, List,
  [], ◌∷◌, ◌++◌, map, append-nil, append_assoc, arith, dec_lt, ℕ_discrete, ltb, leb, ◌==◌,
  if◌then◌else◌, ltb→lt, lt→ltb, leb→le, ==_iff, Bool-cases, Option-cases, length, get_elem?,
  get_or, set, take, drop, replicate, All, length-append, length-set,
}
use Prim.Native.Nat.{max}

-- `data` has the words of the file.
pub record SwapFile : Type 0 where
  pub size : ℕ
  pub words : ℕ → ℕ

-- MAXFILE * BSIZE
abbrev pub max_file : ℕ
max_file = 140 * 512

-- The chunk of `filewrite`: ((MAXOPBLOCKS-1-1-2) / 2) * 512
abbrev pub max_chunk : ℕ
max_chunk = 1536

-- `n` bytes from `src + i` to `off`; all three are multiples of 4. `none` is -1.
unfoldable pub writei : SwapFile → (src : ℕ → ℕ) → (i off n : ℕ) → Option SwapFile
writei f src i off n =
    if ltb f.size off || ltb max_file (off + n)
    then none
    else some (record {
      size = max f.size (off + n);
      words = λ k.
          if leb (off / 4) k && ltb k ((off + n) / 4) then src (i / 4 + k - off / 4) else f.words k;
    })

-- The loop of `filewrite` at byte `i` of `n`. The flag is whether all was written.
unfoldable pub filewrite_from : ℕ → SwapFile → (src : ℕ → ℕ) → (i n off : ℕ) → SwapFile × Bool
filewrite_from zero f src i n off = (f, false)
filewrite_from (suc k) f src i n off =
    let n1 = min (n - i) max_chunk in
    elim (ltb i n) [
      | false ↦ (f, true)
      | true ↦ elim (writei f src i off n1) [
        | none ↦ (f, false)
        | some f' ↦ filewrite_from k f' src (i + n1) n (off + n1)
      ]
    ]

-- A page: three chunks.
unfoldable pub write_to_swap_file :
    SwapFile → (buffer : ℕ → ℕ) → (place_on_file : ℕ) → SwapFile × Bool
unfolding filewrite_from
write_to_swap_file f buffer place_on_file = filewrite_from 4 f buffer 0 4096 place_on_file
