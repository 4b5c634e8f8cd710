-- ===== src/Log/Disk/Crash.antt =====
-- A crash between any two writes of `commit`, followed by recovery.
use cse314_operating_system.Base.{
  take-append_ge, take-append_le, ℕ, ◌+◌, ◌-◌, ◌≤◌, ◌<◌, ◌≡◌, sym, ap, ◌∙◌, inl, inr, false, List,
  [], ◌∷◌, ◌++◌, arith, Bool-cases, leb, lt→ltb, if◌then◌else◌, length, All, dec_lt, length-map,
  length-append, if_le, if_gt, take, map, length-append, take_all,
}
use cse314_operating_system.Log.Disk.{
  Block, Disk, Writes, apply, header_block, read_head, write_head, install_trans, write_log, commit,
  recover,
}
use cse314_operating_system.Log.Disk.Plan.{
  Outside, mem, apply-append, apply-untouched, apply-take, take-writes_to, to_log, to_home,
  update_ne, update_self, write_log-plan, to_home-cong, install_trans-plan, to_home-to_log,
  write_log-apply, apply-map, read_head-write_head,
}
use cse314_operating_system.Log.Disk.Recover.{
  recover-home, no_header, mem-Outside, writes_to-to_log, writes_to-map, length-to_log,
}

module _ (start size : ℕ) (bs : List ℕ) (disk buf : Disk) (homes : All (Outside start size) bs)
    (fits : length bs < size) (clean : (b : ℕ) → mem b bs ≡ false → buf b ≡ disk b) where
  -- the three parts of a commit
  abbrev logged : Writes
  logged = to_log start 0 bs buf

  abbrev installed : Writes
  installed = map (λ b. (b, buf b)) bs

  abbrev header : List ℕ → Disk → Writes
  header hs d = (start, header_block (d start) hs) ∷ []

  -- Before the header is written the disk has its old files.
  before_header :
      (k b : ℕ)
      → disk start 0 ≡ 0
      → Outside start size b
      → (recover start (apply (take k logged) disk)).0 b ≡ disk b
  before_header k b empty out =
      let d = apply (take k logged) disk in
      let same : d start ≡ disk start =
        apply-untouched (take k logged) disk start
          (take-writes_to logged k start (writes_to-to_log start 0 bs buf start (omega arith))) in
      recover-home start size [] d b (no_header start d (ap (λ (v : Block). v 0) same ∙ empty)) tt
        (omega arith) out
      ∙ apply-untouched (take k logged) disk b
          (take-writes_to logged k b (writes_to-to_log start 0 bs buf b (omega arith)))

  -- What the files are once the header lists the blocks.
  abbrev committed : Disk → Disk
  committed d = apply (header bs d) (apply logged disk)

  committed-home : (d : Disk) (b : ℕ) → Outside start size b → committed d b ≡ disk b
  committed-home d b out =
      update_ne start size (apply logged disk) start b (header_block (d start) bs) (omega arith)
      ∙ apply-untouched logged disk b (writes_to-to_log start 0 bs buf b (omega arith))

  after_install :
      (d : Disk) (b : ℕ) → Outside start size b → apply installed (committed d) b ≡ buf b
  after_install d b out = apply-map bs buf (committed d) b ∙ elim (Bool-cases (mem b bs)) [
    | inl m ↦ rw m
    | inr no_mem ↦ rw no_mem (committed-home d b out ∙ sym (clean b no_mem))
  ]

  not-mem_of_log : (a : ℕ) → start ≤ a → a < start + size → mem a bs ≡ false
  not-mem_of_log a lo hi = elim (Bool-cases (mem a bs)) [
    | inl m ↦ absurd (omega (arith, mem-Outside start size bs a homes m))
    | inr no_mem ↦ no_mem
  ]

  -- Installing changes no block of the log.
  log_kept :
      (k a : ℕ) (d : Disk) → start ≤ a → a < start + size → apply (take k installed) d a ≡ d a
  log_kept k a d lo hi =
      apply-untouched (take k installed) d a
        (take-writes_to installed k a (writes_to-map bs buf a ∙ not-mem_of_log a lo hi))

  during_install :
      (d : Disk) (k b : ℕ)
      → Outside start size b
      → (recover start (apply (take k installed) (committed d))).0 b ≡ buf b
  during_install d k b out =
      let now = apply (take k installed) (committed d) in
      let listed : read_head start now ≡ bs =
        read_head-write_head start bs d now
          (log_kept k start (committed d) (omega arith) (omega arith) ∙ ground arith) in
      let full : to_home start 0 bs now ≡ installed =
        to_home-cong start size 0 bs now (apply logged disk) (omega arith) (λ a lo hi.
          log_kept k a (committed d) (omega arith) hi
          ∙ update_ne start size (apply logged disk) start a (header_block (d start) bs)
              (omega arith))
        ∙ to_home-to_log start size 0 bs buf disk in
      recover-home start size bs now b listed homes fits out
      ∙ ap (λ ws. apply ws now b) full
      ∙ apply-take installed k (committed d) b
      ∙ after_install d b out

  after_clear :
      (d e : Disk) (b : ℕ)
      → Outside start size b
      → (recover start (apply (header [] e) (apply installed (committed d)))).0 b ≡ buf b
  unfolding header_block
  after_clear d e b out =
      let now = apply (header [] e) (apply installed (committed d)) in
      recover-home start size [] now b
        (no_header start now (
          ap (λ (v : Block). v 0)
            (update_self (apply installed (committed d)) start (header_block (e start) []))))
        tt (omega arith) out
      ∙ update_ne start size (apply installed (committed d)) start b (header_block (e start) [])
          (omega arith)
      ∙ after_install d b out

  -- The writes of a commit, in order.
  commit-writes :
      0 < length bs
      → let b1 = (write_log start 0 bs buf).0 in
        let b3 = (install_trans start 0 bs (write_head start bs b1).0).0 in
        (commit start bs buf).1 ≡ logged ++ header bs b1 ++ installed ++ header [] b3
  unfolding commit write_head
  commit-writes some_blocks =
      let b1 = (write_log start 0 bs buf).0 in
      let b2 = (write_head start bs b1).0 in
      let install : (install_trans start 0 bs b2).1 ≡ installed =
        install_trans-plan start size 0 bs b2 homes (omega arith)
        ∙ to_home-cong start size 0 bs b2 (apply logged buf) (omega arith) (λ a lo hi.
          update_ne start size b1 start a (header_block (b1 start) bs) (omega arith)
          ∙ ap (λ (f : Disk). f a)
              (write_log-apply start 0 bs buf
                ∙ ap (λ ws. apply ws buf) (write_log-plan start size 0 bs buf homes (omega arith))))
        ∙ to_home-to_log start size 0 bs buf buf in
      rw (
        lt→ltb 0 (length bs) some_blocks,
        write_log-plan start size 0 bs buf homes (omega arith),
        install,
      )

  length-parts :
      (d : Disk)
      → (length (logged ++ header bs d) ≡ length bs + 1)
        × (length (logged ++ header bs d ++ installed) ≡ length bs + 1 + length bs)
  length-parts d = (
    omega (arith, length-append logged (header bs d), length-to_log start 0 bs buf),
    omega (
      arith,
      length-append (logged ++ header bs d) installed,
      length-append logged (header bs d),
      length-to_log start 0 bs buf,
      length-map {B = ℕ × Block} (λ c. (c, buf c)) bs,
    ),
  )

  -- The same with the header writes as they may be.
  recover-parts :
      (k b : ℕ) (d e : Disk)
      → disk start 0 ≡ 0
      → Outside start size b
      → let ws = logged ++ header bs d ++ installed ++ header [] e in
        (recover start (apply (take k ws) disk)).0 b ≡ (if leb k (length bs) then disk b else buf b)
  recover-parts k b d e empty out =
      let upto_head = logged ++ header bs d in
      let upto_install = upto_head ++ installed in
      let files = λ (ws : Writes). (recover start (apply ws disk)).0 b in
      let length_head : length upto_head ≡ length bs + 1 = (length-parts d).0 in
      let length_install : length upto_install ≡ length bs + 1 + length bs = (length-parts d).1 in
      elim (dec_lt (length bs) k) [
        | no early ↦
            ap files (
              take-append_le k upto_install (header [] e) (omega arith)
              ∙ take-append_le k upto_head installed (omega arith)
              ∙ take-append_le k logged (header bs d) (omega (arith, length-to_log start 0 bs buf)))
            ∙ before_header k b empty out
            ∙ sym (if_le k (length bs) (disk b) (buf b) (omega arith))
        | yes later ↦
            elim (dec_lt (length upto_install) k) [
              | no during ↦
                  ap files (
                    take-append_le k upto_install (header [] e) (omega arith)
                    ∙ take-append_ge k upto_head installed (omega arith))
                  ∙ ap (λ (x : Disk). (recover start x).0 b)
                      (apply-append upto_head (take (k - length upto_head) installed) disk
                        ∙ ap (apply (take (k - length upto_head) installed))
                            (apply-append logged (header bs d) disk))
                  ∙ during_install d (k - length upto_head) b out
              | yes done ↦
                  ap files (
                    take_all k (upto_install ++ header [] e)
                      (omega (arith, length-append upto_install (header [] e))))
                  ∙ ap (λ (x : Disk). (recover start x).0 b)
                      (apply-append upto_install (header [] e) disk
                        ∙ ap (apply (header [] e)) (
                            apply-append upto_head installed disk
                            ∙ ap (apply installed) (apply-append logged (header bs d) disk)))
                  ∙ after_clear d e b out
            ]
            ∙ sym (if_gt k (length bs) (disk b) (buf b) later)
      ]

  -- A crash during the commit of at least one block loses the whole transaction or nothing of it:
  -- when `k` of its writes have reached the disk, recovery leaves every block outside the log as it
  -- was before, if the header is not among them, and as the transaction left it otherwise. It is
  -- asked that the blocks lie outside the log and fit it, that buffers of other blocks are as on disk,
  -- and that the header on disk was empty.
  pub recover-commit :
      (k b : ℕ)
      → 0 < length bs
      → disk start 0 ≡ 0
      → Outside start size b
      → (recover start (apply (take k (commit start bs buf).1) disk)).0 b
        ≡ (if leb k (length bs) then disk b else buf b)
  recover-commit k b some_blocks empty out = rw (commit-writes some_blocks) (
      recover-parts k b (write_log start 0 bs buf).0
        (install_trans start 0 bs (write_head start bs (write_log start 0 bs buf).0).0).0 empty out)
