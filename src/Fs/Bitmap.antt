-- ===== src/Fs/Bitmap.antt =====
-- The bitmap of blocks in use as a set, under `balloc` and `bfree`.
use cse314_operating_system.Base.{
  ℕ, zero, suc, ◌+◌, ◌*◌, ◌/◌, ◌%◌, ◌^◌, ◌≤◌, ◌<◌, ◌≡◌, sym, ap, subst, ◌∙◌, inl, inr, Bool, true,
  false, Option, none, some, arith, dec_lt, ℕ_discrete, ltb, ltb→lt, Bool-cases, Option-cases,
}
use cse314_operating_system.Base.{has_bit}
use cse314_operating_system.Fs.{Blocks, Superblock, bpb, bblock, find_free, find_free_from}

-- Whether the bitmap has the bit of block `b`
abbrev pub in_use : Superblock → Blocks → ℕ → Bool
in_use sb d b = has_bit (d (bblock sb b) (b % bpb / 8)) (2 ^ (b % bpb % 8))

module _ (sb : Superblock) (d : Blocks) where
  -- What a search from `lo` to before `hi` answers: the first free block there, or that there is none
  abbrev pub FirstFree : (lo hi : ℕ) → Option ℕ → Type 0
  FirstFree lo hi none = (x : ℕ) → lo ≤ x → x < hi → x < sb.size → in_use sb d x ≡ true
  FirstFree lo hi (some r) =
      (lo ≤ r)
      × (r < hi)
      × (r < sb.size)
      × (in_use sb d r ≡ false)
      × ((x : ℕ) → lo ≤ x → x < r → in_use sb d x ≡ true)

  -- The answer from one block further on, when block `lo` is in use
  FirstFree-used :
      (lo hi : ℕ) (r : Option ℕ)
      → in_use sb d lo ≡ true
      → FirstFree (lo + 1) hi r
      → FirstFree lo hi r
  FirstFree-used lo hi none used f = λ x a b c. elim (ℕ_discrete lo x) [
    | Dec.yes e ↦ subst (λ y. in_use sb d y ≡ true) e used
    | Dec.no ne ↦ f x (omega (arith, ne)) b c
  ]
  FirstFree-used lo hi (some r) used (a, b, c, e, f) = (
    omega (arith, a),
    b,
    c,
    e,
    λ x h k. elim (ℕ_discrete lo x) [
      | Dec.yes same ↦ subst (λ y. in_use sb d y ≡ true) same used
      | Dec.no ne ↦ f x (omega (arith, ne)) k
    ],
  )

  -- The byte and the bit that `balloc` tests in its inner loop are those of the block
  loop_bit :
      (bi b : ℕ)
      → b % bpb ≡ 0
      → bi < bpb
      → has_bit (d (bblock sb b) (bi / 8)) (2 ^ (bi % 8)) ≡ in_use sb d (b + bi)
  loop_bit bi b aligned h i =
      has_bit
        (d (ap (λ q. q + sb.bmapstart) {x = b / bpb} {y = (b + bi) / bpb} (omega arith) i)
          (ap (λ q. q / 8) {x = bi} {y = (b + bi) % bpb} (omega arith) i))
        (ap (λ k. 2 ^ (k % 8)) {x = bi} {y = (b + bi) % bpb} (omega arith) i)

  find_free_lem :
      (n bi b : ℕ)
      → b % bpb ≡ 0
      → bi + n ≤ bpb
      → FirstFree (b + bi) (b + (bi + n)) (find_free sb d n bi b)
  unfolding find_free
  find_free_lem zero bi b aligned h = λ x lo hi k. absurd (omega arith)
  find_free_lem (suc n) bi b aligned h = elim (Bool-cases (ltb (b + bi) sb.size)) [
    | inr past ↦
        let out : sb.size ≤ b + bi = ground (arith, past) in
        rw (past, find_free) (λ x lo hi k. absurd (omega (arith, out)))
    | inl inside ↦ elim (Bool-cases (has_bit (d (bblock sb b) (bi / 8)) (2 ^ (bi % 8)))) [
      | inl used ↦
          rw (inside, used, find_free)
            (FirstFree-used (b + bi) (b + (bi + suc n)) (find_free sb d n (bi + 1) b)
              (sym (loop_bit bi b aligned (omega (arith, h))) ∙ used)
              (subst (λ lo. FirstFree lo (b + (bi + suc n)) (find_free sb d n (bi + 1) b))
                {x = b + (bi + 1)} {y = b + bi + 1} (omega arith)
                (subst (λ hi. FirstFree (b + (bi + 1)) hi (find_free sb d n (bi + 1) b))
                  {x = b + (bi + 1 + n)} {y = b + (bi + suc n)} (omega arith)
                  (find_free_lem n (bi + 1) b aligned (omega (arith, h))))))
      | inr free ↦
          rw (inside, free, find_free)
            (
              omega arith,
              omega arith,
              ltb→lt (b + bi) sb.size inside,
              sym (loop_bit bi b aligned (omega (arith, h))) ∙ free,
              λ x lo k. absurd (omega arith),
            )
    ]
  ]

  -- A search that found nothing, and then the search behind it
  FirstFree-next :
      (lo mid hi : ℕ) (r : Option ℕ)
      → lo ≤ mid
      → FirstFree lo mid none
      → FirstFree mid hi r
      → FirstFree lo hi r
  FirstFree-next lo mid hi none h f g = λ x a b c. elim (dec_lt x mid) [
    | Dec.yes k ↦ f x a k c
    | Dec.no k ↦ g x (omega (arith, k)) b c
  ]
  FirstFree-next lo mid hi (some r) h f (a, b, c, e, g) = (
    omega (arith, h, a),
    b,
    c,
    e,
    λ x p q. elim (dec_lt x mid) [
      | Dec.yes k ↦ f x p k (omega (arith, q, c))
      | Dec.no k ↦ g x (omega (arith, k)) q
    ],
  )

  pub find_free_from_lem :
      (n b : ℕ) → b % bpb ≡ 0 → FirstFree b (b + n * bpb) (find_free_from sb d n b)
  unfolding find_free_from
  find_free_from_lem zero b aligned = λ x lo hi k. absurd (omega arith)
  find_free_from_lem (suc n) b aligned =
      let here = find_free_lem bpb 0 b aligned (omega arith) in
      elim (Option-cases (find_free sb d bpb 0 b)) [
        | inr (r, e) ↦
            let (a, k, c, u, f) = subst (FirstFree (b + 0) (b + (0 + bpb))) e here in
            rw (e, find_free_from)
              (omega (arith, a), omega (arith, k), c, u, λ x lo hi. f x (omega (arith, lo)) hi)
        | inl e ↦
            let all_used = subst (FirstFree (b + 0) (b + (0 + bpb))) e here in
            rw (e, find_free_from)
              (FirstFree-next b (b + bpb) (b + suc n * bpb) (find_free_from sb d n (b + bpb))
                (omega arith) (λ x lo hi. all_used x (omega (arith, lo)) (omega (arith, hi)))
                (subst (λ hi. FirstFree (b + bpb) hi (find_free_from sb d n (b + bpb)))
                  {x = b + bpb + n * bpb} {y = b + suc n * bpb} (omega arith)
                  (find_free_from_lem n (b + bpb) (omega (arith, aligned)))))
      ]
