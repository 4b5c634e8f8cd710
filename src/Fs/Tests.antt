-- ===== src/Fs/Tests.antt =====
-- The file system on a disk of forty blocks with an empty file.
use cse314_operating_system.Base.{
  [], ◌∷◌, ℕ, zero, suc, ◌+◌, ◌-◌, ◌%◌, ◌<◌, ◌≡◌, refl, ◌∙◌, true, false, ◌&&◌, some, arith, dec_lt,
  ltb, leb, ◌==◌, if◌then◌else◌, get_or, replicate,
}
use cse314_operating_system.Base.{replicate}
use cse314_operating_system.Strings.{Bytes}
use cse314_operating_system.Fs.{Blocks, Superblock}
use cse314_operating_system.Fs.Bitmap.{in_use}
use cse314_operating_system.Fs.Alloc.{Formatted}
use cse314_operating_system.Fs.Inode.{Inode, bmap, itrunc}
use cse314_operating_system.Fs.Inode.Lookup.{lookup, lookup-direct, lookup-none}
use cse314_operating_system.Fs.Inode.Growing.{Owned, free_count}
use cse314_operating_system.Fs.Inode.Mapping.{Bmapped, bmap-Bmapped}
use cse314_operating_system.Fs.Inode.Update.{Fits}
use cse314_operating_system.Fs.Inode.TruncAll.{Truncated, itrunc-Truncated}
use cse314_operating_system.Log.{Log}
use cse314_operating_system.Fs.Content.{readi, moved}
use cse314_operating_system.Fs.Content.Stored.{Sound}
use cse314_operating_system.Fs.Content.Logged.{writei}
use cse314_operating_system.Fs.Content.Logged.Ends.{LoggedEnds, writei-LoggedEnds}
use cse314_operating_system.Fs.Content.RoundTrip.{readi-writei}

abbrev sb : Superblock
sb = record {
  size = 40;
  nblocks = 35;
  ninodes = 8;
  nlog = 0;
  logstart = 2;
  inodestart = 2;
  bmapstart = 4;
}

-- Only the five blocks up to the bitmap are in use.
abbrev fresh : Blocks
fresh b j = if b == 4 && j == 0 then 31 else 0

abbrev empty_file : Inode
empty_file = record {
  dev = 1;
  inum = 1;
  valid = true;
  type = 2;
  major = 0;
  minor = 0;
  nlink = 1;
  size = 0;
  addrs = replicate 13 0;
}

fresh-Formatted : Formatted sb fresh
fresh-Formatted = record { room = omega arith; inodes_first = omega arith; meta_used = used }
  where
    used : (b : ℕ) → b < 5 → in_use sb fresh b ≡ true
    used zero h = refl
    used (suc zero) h = refl
    used (suc (suc zero)) h = refl
    used (suc (suc (suc zero))) h = refl
    used (suc (suc (suc (suc zero)))) h = refl
    used (suc (suc (suc (suc (suc n))))) h = absurd (omega arith)

zeros-get : (n k : ℕ) → get_or {A = ℕ} (replicate n 0) k 0 ≡ 0
zeros-get zero k = refl
zeros-get (suc n) zero = refl
zeros-get (suc n) (suc k) = zeros-get n k

no_block : (n : ℕ) → lookup empty_file fresh n ≡ 0
no_block n = elim (dec_lt n 12) [
  | Dec.yes h ↦ lookup-direct empty_file fresh n h ∙ zeros-get 13 n
  | Dec.no h ↦ lookup-none empty_file fresh n (omega (arith, h)) refl
]

empty_file-Owned : Owned sb empty_file fresh
empty_file-Owned = record {
  formatted = fresh-Formatted;
  words_fit = omega arith;
  slots = refl;
  tree = record {
    held = λ n h ne. absurd (ne (no_block n));
    held_ind = λ ne. absurd (ne refl);
    distinct = λ n k h h' ne. absurd (ne (no_block n));
    apart = λ n h ne. absurd (ne (no_block n));
  };
}

empty_file-Sound : Sound sb empty_file fresh
empty_file-Sound = record {
  owned = empty_file-Owned;
  number = omega arith;
  regular = omega arith;
  fits = omega arith;
  whole = λ x h. absurd (omega arith);
}

bmap-Bmapped_example : Bmapped sb empty_file fresh 20 (bmap sb empty_file fresh 20)
bmap-Bmapped_example = bmap-Bmapped sb empty_file fresh 20 empty_file-Owned (omega arith)

itrunc-Truncated_example :
    (ip' : Inode) × (d' : Blocks) × (itrunc sb empty_file fresh ≡ some (ip', d'))
    × Truncated sb empty_file fresh empty_file-Owned ip' d'
itrunc-Truncated_example = itrunc-Truncated sb empty_file fresh empty_file-Owned (omega arith)

empty_file-Fits : Fits empty_file
empty_file-Fits = record {
  type_fits = omega arith;
  type_used = omega arith;
  major_fits = omega arith;
  minor_fits = omega arith;
  nlink_fits = omega arith;
  size_fits = omega arith;
  slots = refl;
  addrs_fit = omega arith;
}

letters : Bytes
letters x = b'a' + x % 26

-- The log in a transaction that has logged two blocks
abbrev log : Log
log = record { start = 2; size = 30; outstanding = 1; committing = false; blocks = 7 ∷ 4 ∷ [] }

writei-LoggedEnds_example :
    LoggedEnds sb empty_file fresh log 100 0 700 letters
      (writei sb (λ m. false) empty_file fresh log 100 0 700 letters)
writei-LoggedEnds_example =
    writei-LoggedEnds sb (λ m. false) empty_file fresh log 100 0 700 letters empty_file-Sound
      (omega arith)

free_blocks : free_count sb fresh ≡ 35
free_blocks = refl

readi-writei_example :
    (ip' : Inode) × (d' : Blocks) × (l' : Log) × (writei sb
        (λ m. false)
        empty_file
        fresh
        log
        100
        0
        700
        letters
      ≡ (moved 700 (ip', d', letters), l'))
    × ((dst : ℕ) (mem2 : Bytes)
        → readi sb (λ m. false) ip' d' dst 0 700 mem2
          ≡ moved 700 (
            ip',
            d',
            λ x. if leb dst x && ltb x (dst + 700) then letters (100 + (x - dst)) else mem2 x,
          ))
readi-writei_example =
    readi-writei sb (λ m. false) (λ m. false) empty_file fresh log 100 0 700 letters
      empty_file-Sound (omega arith) (omega arith) (omega (arith, free_blocks)) (omega arith)
      (omega arith) (omega arith)
