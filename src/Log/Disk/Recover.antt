-- ===== src/Log/Disk/Recover.antt =====
-- What recovery does to the blocks outside the log, also when it crashes itself.
use cse314_operating_system.Base.{
  take-append_le, ℕ, suc, ◌+◌, ◌≤◌, ◌<◌, ◌≡◌, refl, sym, ap, ◌∙◌, ◌⊎◌, true, false, ◌||◌, List, [],
  ◌∷◌, ◌++◌, arith, ◌==◌, length, All, dec_lt, length-append, take, map, take_all, ℕ_discrete,
  subst, suc,
}
use cse314_operating_system.Log.Disk.{
  Block, Disk, Writes, update, apply, header_block, read_words, read_head, write_head,
  install_trans, recover,
}
use cse314_operating_system.Log.Disk.Plan.{
  Outside, writes_to, mem, apply-append, apply-untouched, apply-take, take-writes_to, to_log,
  to_home, update_ne, update_self, to_home-cong, install_trans-plan, install_trans-apply,
}

pub no_header : (start : ℕ) (d : Disk) → d start 0 ≡ 0 → read_head start d ≡ []
unfolding read_head read_words
no_header start d e = ap (λ n. read_words (d start) n 0) e

module _ (start size : ℕ) where
  -- Recovery from a disk whose header lists `hs`.
  pub recover-home :
      (hs : List ℕ) (d : Disk) (b : ℕ)
      → read_head start d ≡ hs
      → All (Outside start size) hs
      → length hs < size
      → Outside start size b
      → (recover start d).0 b ≡ apply (to_home start 0 hs d) d b
  unfolding recover write_head
  recover-home hs d b e homes fits out =
      rw
        (
          e,
          install_trans-apply start 0 hs d,
          install_trans-plan start size 0 hs d homes (omega arith),
        )
        (update_ne start size (apply (to_home start 0 hs d) d) start b _ (omega arith))

  read_head-cong : (d e : Disk) → d start ≡ e start → read_head start d ≡ read_head start e
  unfolding read_head
  read_head-cong d e h = ap (λ (v : Block). read_words v (v 0) 0) h

  not-writes_to-home :
      (tail : ℕ) (hs : List ℕ) (f : Disk) (a : ℕ)
      → All (Outside start size) hs
      → start ≤ a
      → a < start + size
      → writes_to a (to_home start tail hs f) ≡ false
  not-writes_to-home tail [] f a homes lo hi = refl
  not-writes_to-home tail (c ∷ hs) f a homes lo hi =
      ground (arith, not-writes_to-home (tail + 1) hs f a homes.1 lo hi)

  length-to_home :
      (tail : ℕ) (hs : List ℕ) (f : Disk) → length (to_home start tail hs f) ≡ length hs
  length-to_home tail [] f = refl
  length-to_home tail (c ∷ hs) f = ap suc (length-to_home (tail + 1) hs f)

  module _ (d : Disk) (homes : All (Outside start size) (read_head start d))
      (fits : length (read_head start d) < size) where
    abbrev replayed : Writes
    replayed = to_home start 0 (read_head start d) d

    recover-writes :
        (recover start d).1
        ≡ replayed
          ++ (start, header_block ((install_trans start 0 (read_head start d) d).0 start) []) ∷ []
    unfolding recover write_head
    recover-writes =
        ap (λ ws. ws ++ (write_head start [] (install_trans start 0 (read_head start d) d).0).1)
          (install_trans-plan start size 0 (read_head start d) d homes (omega arith))

    recover_again :
        (k b : ℕ)
        → Outside start size b
        → (recover start (apply (take k replayed) d)).0 b ≡ apply replayed d b
    recover_again k b out =
        let now = apply (take k replayed) d in
        let kept : (a : ℕ) → start ≤ a → a < start + size → now a ≡ d a = λ a lo hi.
          apply-untouched (take k replayed) d a (
            take-writes_to replayed k a
              (not-writes_to-home 0 (read_head start d) d a homes lo hi)) in
        recover-home (read_head start d) now b
          (read_head-cong now d (kept start (omega arith) (omega arith))) homes fits out
        ∙ ap (λ ws. apply ws now b)
            (to_home-cong start size 0 (read_head start d) now d (omega arith)
              (λ a lo hi. kept a (omega arith) hi))
        ∙ apply-take replayed k d b

    recover_cleared :
        (v : Block) (b : ℕ)
        → Outside start size b
        → v 0 ≡ 0
        → (recover start (update (apply replayed d) start v)).0 b ≡ apply replayed d b
    recover_cleared v b out z =
        let now = update (apply replayed d) start v in
        recover-home [] now b
          (no_header start now
            (ap (λ (w : Block). w 0) (update_self (apply replayed d) start v) ∙ z))
          tt (omega arith) out
        ∙ update_ne start size (apply replayed d) start b v (omega arith)

    -- A crash during recovery does no harm: when `k` of its writes have reached the disk, a second
    -- recovery leaves every block outside the log as a recovery with no crash does. It is asked that
    -- the blocks that the header lists lie outside the log and fit it.
    pub recover-recover :
        (k b : ℕ)
        → Outside start size b
        → (recover start (apply (take k (recover start d).1) d)).0 b ≡ (recover start d).0 b
    unfolding header_block
    recover-recover k b out = rw recover-writes (
        elim (dec_lt (length replayed) k) [
          | no early ↦
              ap (λ (ws : Writes). (recover start (apply ws d)).0 b)
                (take-append_le k replayed _ (omega arith))
              ∙ recover_again k b out
          | yes done ↦
              ap (λ (ws : Writes). (recover start (apply ws d)).0 b)
                (take_all k (replayed ++ last) (omega (arith, length-append replayed last)))
              ∙ ap (λ (x : Disk). (recover start x).0 b) (apply-append replayed last d)
              ∙ recover_cleared
                  (header_block ((install_trans start 0 (read_head start d) d).0 start) []) b out
                  refl
        ]
        ∙ sym (recover-home (read_head start d) d b refl homes fits out))
      where
        last : Writes
        last = (start, header_block ((install_trans start 0 (read_head start d) d).0 start) []) ∷ []

pub mem-Outside :
    (start size : ℕ) (cs : List ℕ) (b : ℕ)
    → All (Outside start size) cs
    → mem b cs ≡ true
    → Outside start size b
mem-Outside start size [] b h m = cc
mem-Outside start size (c ∷ cs) b h m = elim (ℕ_discrete c b) [
  | yes e ↦ subst (Outside start size) e h.0
  | no ne ↦ mem-Outside start size cs b h.1 (ground arith)
]

pub writes_to-to_log :
    (start tail : ℕ) (cs : List ℕ) (f : Disk) (b : ℕ)
    → (b ≤ start + tail) ⊎ (start + tail + length cs < b)
    → writes_to b (to_log start tail cs f) ≡ false
writes_to-to_log start tail [] f b h = refl
writes_to-to_log start tail (c ∷ cs) f b h =
    ground (arith, writes_to-to_log start (tail + 1) cs f b)

pub writes_to-map :
    (cs : List ℕ) (f : Disk) (b : ℕ) → writes_to b (map (λ c. (c, f c)) cs) ≡ mem b cs
writes_to-map [] f b = refl
writes_to-map (c ∷ cs) f b = ap (◌||◌ (c == b)) (writes_to-map cs f b)

pub length-to_log :
    (start tail : ℕ) (cs : List ℕ) (f : Disk) → length (to_log start tail cs f) ≡ length cs
length-to_log start tail [] f = refl
length-to_log start tail (c ∷ cs) f = ap suc (length-to_log start (tail + 1) cs f)
