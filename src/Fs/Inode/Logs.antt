-- ===== src/Fs/Inode/Logs.antt =====
-- The blocks that `balloc` and `bmap` of Offline 4/xv6/fs.c give to `log_write`.
use cse314_operating_system.Base.{
  ℕ, ◌+◌, ◌-◌, ◌*◌, ◌/◌, ◌≤◌, ◌≡◌, refl, sym, ◌∙◌, inl, inr, false, ◌||◌, Option, none, some, List,
  [], ◌∷◌, ◌++◌, arith, ltb, ◌==◌, if◌then◌else◌, Bool-cases, Option-cases, length, get_or, set,
  length-append,
}
use cse314_operating_system.Log.Disk.Plan.{mem}
use cse314_operating_system.Fs.{
  Blocks, Superblock, bpb, bblock, bzero, mark_used, find_free_from, balloc,
}
use cse314_operating_system.Fs.Inode.{
  Inode, ndirect, nindirect, word_at, put_word, slot, entry, bmap,
}
use cse314_operating_system.Fs.Inode.Lookup.{put_word-away}

-- The blocks that `balloc` gives to `log_write`: that of the bitmap, and the one that `bzero` has cleared
pub balloc_logs : Superblock → Blocks → List ℕ
balloc_logs sb d = elim (balloc sb d) [ none ↦ [] | some (b, _) ↦ bblock sb b ∷ b ∷ [] ]

pub slot_logs : Superblock → Inode → Blocks → (i : ℕ) → List ℕ
slot_logs sb ip d i = if get_or ip.addrs i 0 == 0 then balloc_logs sb d else []

-- An address that is entered in the indirect block is logged.
pub entry_logs : Superblock → (bn ind : ℕ) → Blocks → List ℕ
entry_logs sb bn ind d = if word_at d ind (4 * bn) == 0 then balloc_logs sb d ++ (ind ∷ []) else []

-- The blocks that `bmap` gives to `log_write`, in this order
pub bmap_logs : Superblock → Inode → Blocks → (bn : ℕ) → List ℕ
bmap_logs sb ip d bn =
    if ltb bn ndirect then slot_logs sb ip d bn else elim (slot sb ip d ndirect) [
      | none ↦ []
      | some (ind, _, d') ↦ slot_logs sb ip d ndirect ++ entry_logs sb (bn - ndirect) ind d'
    ]

module _ (sb : Superblock) where
  balloc_logs-few : (d : Blocks) → length (balloc_logs sb d) ≤ 2
  unfolding balloc_logs
  balloc_logs-few d = elim (Option-cases (balloc sb d)) [
    | inl e ↦ rw (e, balloc_logs) (omega arith)
    | inr (r, e) ↦ rw (e, balloc_logs) (omega arith)
  ]

  slot_logs-few : (ip : Inode) (d : Blocks) (i : ℕ) → length (slot_logs sb ip d i) ≤ 2
  unfolding slot_logs
  slot_logs-few ip d i = ground (arith, balloc_logs-few d)

  entry_logs-few : (bn ind : ℕ) (d : Blocks) → length (entry_logs sb bn ind d) ≤ 3
  unfolding entry_logs
  entry_logs-few bn ind d =
      ground (arith, balloc_logs-few d, length-append (balloc_logs sb d) (ind ∷ []))

  pub bmap_logs-few : (ip : Inode) (d : Blocks) (bn : ℕ) → length (bmap_logs sb ip d bn) ≤ 5
  unfolding bmap_logs
  bmap_logs-few ip d bn = elim (Bool-cases (ltb bn ndirect)) [
    | inl t ↦ rw (t, bmap_logs) (omega (arith, slot_logs-few ip d bn))
    | inr t ↦ elim (Option-cases (slot sb ip d ndirect)) [
      | inl e ↦ rw (t, e, bmap_logs) (omega arith)
      | inr ((ind, ip', d'), e) ↦
          rw (t, e, bmap_logs)
            (omega (
              arith,
              slot_logs-few ip d ndirect,
              entry_logs-few (bn - ndirect) ind d',
              length-append (slot_logs sb ip d ndirect) (entry_logs sb (bn - ndirect) ind d'),
            ))
    ]
  ]

  mem-append : (b : ℕ) (xs ys : List ℕ) → mem b (xs ++ ys) ≡ (mem b xs || mem b ys)
  mem-append b [] ys = refl
  mem-append b (x ∷ xs) ys = ground (arith, mem-append b xs ys)

  -- Only blocks of the list are changed.
  abbrev pub Within : (d : Blocks) → List ℕ → (d' : Blocks) → Type 0
  Within d bs d' = (b : ℕ) → mem b bs ≡ false → (j : ℕ) → d' b j ≡ d b j

  pub Within-append :
      (d d1 d2 : Blocks) (xs ys : List ℕ)
      → Within d xs d1
      → Within d1 ys d2
      → Within d (xs ++ ys) d2
  Within-append d d1 d2 xs ys f g b out j =
      let away : (mem b xs || mem b ys) ≡ false = sym (mem-append b xs ys) ∙ out in
      g b (ground (arith, away)) j ∙ f b (ground (arith, away)) j

  abbrev Balloced : (d : Blocks) → List ℕ → Option (ℕ × Blocks) → Type 0
  Balloced d bs none = Unit
  Balloced d bs (some (r, d')) = Within d bs d'

  balloc-Balloced : (d : Blocks) → Balloced d (balloc_logs sb d) (balloc sb d)
  unfolding balloc balloc_logs bzero mark_used
  balloc-Balloced d = elim (Option-cases (find_free_from sb d ((sb.size + (bpb - 1)) / bpb) 0)) [
    | inl e ↦ rw (e, balloc, balloc_logs) tt
    | inr (r, e) ↦ rw (e, balloc, balloc_logs) (λ b out j. ground (arith, out))
  ]

  abbrev pub Found : (d : Blocks) → List ℕ → Option (ℕ × Inode × Blocks) → Type 0
  Found d bs none = Unit
  Found d bs (some (a, ip', d')) = Within d bs d'

  slot-Found : (ip : Inode) (d : Blocks) (i : ℕ) → Found d (slot_logs sb ip d i) (slot sb ip d i)
  unfolding slot slot_logs
  slot-Found ip d i = elim (Bool-cases (get_or ip.addrs i 0 == 0)) [
    | inl missing ↦ rw (missing, slot, slot_logs) (made (balloc sb d) (balloc-Balloced d))
    | inr there ↦ rw (there, slot, slot_logs) (λ b out j. refl)
  ]
    where
      made :
          (o : Option (ℕ × Blocks))
          → Balloced d (balloc_logs sb d) o
          → Found d (balloc_logs sb d) (elim o [
            | none ↦ none
            | some (r, d') ↦ some (r, record ip { addrs = set ip.addrs i r }, d')
          ])
      made none w = tt
      made (some (r, d')) w = w

  entry-Found :
      (bn ind : ℕ) (ip : Inode) (d : Blocks)
      → Found d (entry_logs sb bn ind d) (entry sb bn (ind, ip, d))
  unfolding entry entry_logs
  entry-Found bn ind ip d = elim (Bool-cases (word_at d ind (4 * bn) == 0)) [
    | inl missing ↦ rw (missing, entry, entry_logs) (made (balloc sb d) (balloc-Balloced d))
    | inr there ↦ rw (there, entry, entry_logs) (λ b out j. refl)
  ]
    where
      made :
          (o : Option (ℕ × Blocks))
          → Balloced d (balloc_logs sb d) o
          → Found d
              (balloc_logs sb d ++ (ind ∷ []))
              (elim o [ none ↦ none | some (r, d') ↦ some (r, ip, put_word d' ind (4 * bn) r) ])
      made none w = tt
      made (some (r, d')) w =
          Within-append d d' (put_word d' ind (4 * bn) r) (balloc_logs sb d) (ind ∷ []) w
            (λ b out j. put_word-away d' ind (4 * bn) r b j (inl (ground (arith, out))))

  -- `bmap` changes no block but those that it logs.
  pub bmap-Found :
      (ip : Inode) (d : Blocks) (bn : ℕ) → Found d (bmap_logs sb ip d bn) (bmap sb ip d bn)
  unfolding bmap bmap_logs
  bmap-Found ip d bn = elim (Bool-cases (ltb bn ndirect)) [
    | inl direct ↦ rw (direct, bmap, bmap_logs) (slot-Found ip d bn)
    | inr behind ↦ elim (Bool-cases (ltb (bn - ndirect) nindirect)) [
      | inr out ↦ rw (behind, out, bmap) tt
      | inl inside ↦
          rw (behind, inside, bmap, bmap_logs)
            (through (slot sb ip d ndirect) (slot-Found ip d ndirect))
    ]
  ]
    where
      second :
          (ind : ℕ) (ip' : Inode) (d' : Blocks) (o : Option (ℕ × Inode × Blocks))
          → Within d (slot_logs sb ip d ndirect) d'
          → Found d' (entry_logs sb (bn - ndirect) ind d') o
          → Found d (slot_logs sb ip d ndirect ++ entry_logs sb (bn - ndirect) ind d') o
      second ind ip' d' none w v = tt
      second ind ip' d' (some (a, ip2, d2)) w v =
          Within-append d d' d2 (slot_logs sb ip d ndirect) (entry_logs sb (bn - ndirect) ind d') w
            v

      through :
          (o : Option (ℕ × Inode × Blocks))
          → Found d (slot_logs sb ip d ndirect) o
          → Found d
              (elim o [
                | none ↦ []
                | some (ind, _, d') ↦
                    slot_logs sb ip d ndirect ++ entry_logs sb (bn - ndirect) ind d'
              ])
              (elim o [ none ↦ none | some r ↦ entry sb (bn - ndirect) r ])
      through none w = tt
      through (some (ind, ip', d')) w =
          second ind ip' d' (entry sb (bn - ndirect) (ind, ip', d')) w
            (entry-Found (bn - ndirect) ind ip' d')
