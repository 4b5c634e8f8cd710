-- ===== src/Icache/Tests.antt =====
-- The cache of inodes at concrete inputs.
use cse314_operating_system.Base.{◌≡◌, refl, true, some, List, [], ◌∷◌, arith, replicate}
use cse314_operating_system.Fs.{Superblock}
use cse314_operating_system.Fs.Inode.{Inode}
use cse314_operating_system.Icache.{
  ialloc, Slot, no_inode, is_inode, iget, iget_at, scan, remember, idup, recycle, iput,
}
use cse314_operating_system.Icache.Unique.{Unique, Got}
use cse314_operating_system.Icache.Alloc.{Allocated, ialloc-Allocated}
use cse314_operating_system.Icache.Steps.{State, gets, booted, Reach, start, later, Reach-Got}
use cse314_operating_system.Icache.Put.{Put, iput-Put}

abbrev inode_5 : Inode
inode_5 = record no_inode {
  dev = 1;
  inum = 5;
  valid = true;
  type = 2;
  size = 9;
  addrs = replicate 13 0;
}

-- A file with no link that is open once, and a free slot
abbrev two_slots : List Slot
two_slots = record { ref = 1; inode = inode_5 } ∷ record { ref = 0; inode = no_inode } ∷ []

two_slots-Unique : Unique two_slots
unfolding is_inode
two_slots-Unique dev inum = ground arith

hit :
    iget 1 5 two_slots
    ≡ some (0, record { ref = 2; inode = inode_5 } ∷ record { ref = 0; inode = no_inode } ∷ [])
unfolding iget iget_at scan is_inode idup
hit = refl

miss :
    (iget 1 7 two_slots
      ≡ some (
        1,
        record { ref = 1; inode = inode_5 }
            ∷ record { ref = 1; inode = record no_inode { dev = 1; inum = 7 } }
            ∷ [],
      ))
unfolding iget iget_at scan is_inode remember recycle
miss = refl

abbrev some_disk : Superblock
some_disk = record {
  size = 40;
  nblocks = 35;
  ninodes = 8;
  nlog = 0;
  logstart = 2;
  inodestart = 2;
  bmapstart = 4;
}

iput-Put_example : Put some_disk 0 two_slots (λ b i. 0) (iput some_disk 0 two_slots (λ b i. 0))
iput-Put_example =
    iput-Put some_disk 0 two_slots (λ b i. 0) two_slots-Unique (omega arith) (omega arith)

ialloc-Allocated_example :
    Allocated some_disk 1 2 two_slots (λ b i. 0) (ialloc some_disk 1 2 two_slots (λ b i. 0))
ialloc-Allocated_example =
    ialloc-Allocated some_disk 1 2 two_slots (λ b i. 0) two_slots-Unique (omega arith)

-- Inode 5 of a fresh cache
abbrev one_held : State
one_held = record {
  slots =
      record { ref = 1; inode = record no_inode { dev = 1; inum = 5 } }
      ∷ replicate 49 (record { ref = 0; inode = no_inode });
  disk = λ b i. 0;
}

first_get : iget 1 5 (booted (λ b i. 0)).slots ≡ some (0, one_held.slots)
unfolding iget iget_at scan is_inode remember recycle
first_get = refl

one_held-Reach : Reach some_disk one_held
one_held-Reach = later (start (λ b i. 0)) (gets 1 5 0 one_held.slots first_get)

Reach-Got_example : Unique one_held.slots × Got 1 5 one_held.slots (iget 1 5 one_held.slots)
Reach-Got_example = Reach-Got some_disk one_held 1 5 one_held-Reach
