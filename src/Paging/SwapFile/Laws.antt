-- ===== src/Paging/SwapFile/Laws.antt =====
-- What a page written to the swap file leaves there.
use cse314_operating_system.Base.{
  ℕ, suc, ◌+◌, ◌-◌, ◌/◌, ◌%◌, ◌≤◌, ◌<◌, min, ◌≡◌, refl, sym, ap, ◌∙◌, ◌⊎◌, true, false, ◌&&◌, some,
  arith, ltb, leb, if◌then◌else◌, lt→ltb,
}
use Prim.Native.Nat.{max}
use cse314_operating_system.Paging.SwapFile.{SwapFile, writei, filewrite_from, write_to_swap_file}

-- `f` after `n` bytes of `src` from byte `i` on have been written at byte `off`.
abbrev put_at : SwapFile → (src : ℕ → ℕ) → (i off n : ℕ) → SwapFile
put_at f src i off n = record {
  size = max f.size (off + n);
  words = λ k.
      if leb (off / 4) k && ltb k ((off + n) / 4) then src (i / 4 + k - off / 4) else f.words k;
}

writei-fits :
    (f : SwapFile) (src : ℕ → ℕ) (i off n : ℕ)
    → off ≤ f.size
    → off + n ≤ 71680
    → writei f src i off n ≡ some (put_at f src i off n)
unfolding writei
writei-fits f src i off n lo hi = ground arith

filewrite_from-chunk :
    (k : ℕ) (f : SwapFile) (src : ℕ → ℕ) (i n off n1 : ℕ)
    → i < n
    → n1 ≡ min (n - i) 1536
    → off ≤ f.size
    → off + n1 ≤ 71680
    → filewrite_from (suc k) f src i n off
      ≡ filewrite_from k (put_at f src i off n1) src (i + n1) n (off + n1)
unfolding filewrite_from
filewrite_from-chunk k f src i n off n1 more e lo hi =
    rw (lt→ltb i n more, sym e, writei-fits f src i off n1 lo hi, filewrite_from)
      (ap (λ c. filewrite_from k (put_at f src i off n1) src (i + c) n (off + c)) (sym e))

filewrite_from-end :
    (k : ℕ) (f : SwapFile) (src : ℕ → ℕ) (n off : ℕ)
    → filewrite_from (suc k) f src n n off ≡ (f, true)
unfolding filewrite_from
filewrite_from-end k f src n off = ground arith

three_chunks :
    (buffer old : ℕ → ℕ) (off j : ℕ)
    → off % 4 ≡ 0
    → (if leb ((off + 1536 + 1536) / 4) j && ltb j ((off + 1536 + 1536 + 1024) / 4)
        then buffer (768 + j - (off + 1536 + 1536) / 4)
        else if leb ((off + 1536) / 4) j && ltb j ((off + 1536 + 1536) / 4)
        then buffer (384 + j - (off + 1536) / 4)
        else if leb (off / 4) j && ltb j ((off + 1536) / 4)
        then buffer (0 + j - off / 4)
        else old j)
      ≡ (if leb (off / 4) j && ltb j (off / 4 + 1024) then buffer (j - off / 4) else old j)
three_chunks buffer old off j al = ground arith

-- A page written at a multiple of 4 in the swap file, with all before it there and the page within the
-- largest file, is written in full, and the rest of the file stays as it was.
pub write_to_swap_file-fits :
    (f : SwapFile) (buffer : ℕ → ℕ) (off : ℕ)
    → off % 4 ≡ 0
    → off ≤ f.size
    → off + 4096 ≤ 71680
    → (f' : SwapFile) × (write_to_swap_file f buffer off ≡ (f', true))
      × (f'.size ≡ max f.size (off + 4096))
      × ((j : ℕ)
          → f'.words j ≡ (
              if leb (off / 4) j && ltb j (off / 4 + 1024)
              then buffer (j - off / 4)
              else f.words j))
unfolding write_to_swap_file
write_to_swap_file-fits f buffer off al lo hi =
    let f1 = put_at f buffer 0 off 1536 in
    let f2 = put_at f1 buffer 1536 (off + 1536) 1536 in
    let f3 = put_at f2 buffer 3072 (off + 1536 + 1536) 1024 in
    (
      f3,
      filewrite_from-chunk 3 f buffer 0 4096 off 1536 (omega arith) refl lo (omega arith)
          ∙ filewrite_from-chunk 2 f1 buffer 1536 4096 (off + 1536) 1536 (omega arith) refl
              (omega arith) (omega arith)
          ∙ filewrite_from-chunk 1 f2 buffer 3072 4096 (off + 1536 + 1536) 1024 (omega arith) refl
              (omega arith) (omega arith)
          ∙ filewrite_from-end 0 f3 buffer 4096 (off + 1536 + 1536 + 1024),
      omega arith,
      λ j. three_chunks buffer f.words off j al,
    )

-- A page is not written at all, and the answer is -1, at an offset behind the end of the swap file or
-- where its first chunk goes beyond the largest file.
pub write_to_swap_file-lost :
    (f : SwapFile) (buffer : ℕ → ℕ) (off : ℕ)
    → (f.size < off) ⊎ (71680 < off + 1536)
    → write_to_swap_file f buffer off ≡ (f, false)
unfolding write_to_swap_file filewrite_from writei
write_to_swap_file-lost f buffer off lost = ground arith
