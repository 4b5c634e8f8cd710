-- ===== src/Log/Reserve.antt =====
-- The space that `begin_op` reserves. A system call that has begun an operation may write
-- MAXOPBLOCKS blocks; `budgets` has what each of those under way may still write.
pub mod Absorb
mod Tests
use cse314_operating_system.Base.{
  ◌==◌, refl, none, ◌≢◌, ◌∙◌, ◌<◌, inl, ◌↔◌, length-append, ap, subst, ◌*◌, ◌+◌, true, arith, ◌⊎◌,
  false, ◌≤◌, some, ◌++◌, All, length, ◌≡◌, Bool, ℕ, zero, suc, List, [], ◌∷◌,
}
use cse314_operating_system.Log.{
  Log, log_size, max_op_blocks, init, begin_op, end_op, end_commit, absorb, log_write,
}

pub record State : Type 0 where
  pub log : Log
  pub budgets : List ℕ

pub data Step (s : State) : State → Type 0 where
  begins :
      {l : Log} → begin_op s.log ≡ some l → Step s (record { log = l; budgets = 10 ∷ s.budgets })
  writes :
      {l : Log} (b : ℕ) (xs : List ℕ) (m : ℕ) (ys : List ℕ)
      → s.budgets ≡ xs ++ (suc m ∷ ys)
      → log_write s.log b ≡ some l
      → Step s (record { log = l; budgets = xs ++ (m ∷ ys) })
  ends :
      {l : Log} {last : Bool} (xs : List ℕ) (m : ℕ) (ys : List ℕ)
      → s.budgets ≡ xs ++ (m ∷ ys)
      → end_op s.log ≡ some (l, last)
      → Step s (record { log = l; budgets = xs ++ ys })
  commits : s.log.committing ≡ true → Step s (record s { log = end_commit s.log })

pub data Reach (start size : ℕ) : State → Type 0 where
  starts : Reach start size (record { log = init start size; budgets = [] })
  later : {s t : State} → Reach start size s → Step s t → Reach start size t

abbrev pub sum : List ℕ → ℕ
sum [] = 0
sum (x ∷ xs) = x + sum xs

pub record Inv (size : ℕ) (s : State) : Type 0 where
  pub same_size : s.log.size ≡ size
  pub counted : s.log.outstanding ≡ length s.budgets
  pub alone : (s.log.committing ≡ false) ⊎ (length s.budgets ≡ 0)
  pub small : All (λ m. m ≤ 10) s.budgets
  pub reserved : length s.log.blocks + sum s.budgets ≤ 30

pub length-absorb : (xs : List ℕ) (b : ℕ) → length (absorb xs b) ≤ length xs + 1
unfolding absorb
length-absorb [] b = omega arith
length-absorb (x ∷ xs) b = ground (arith, length-absorb xs b)

sum-append : (xs ys : List ℕ) → sum (xs ++ ys) ≡ sum xs + sum ys
sum-append [] ys = omega arith
sum-append (x ∷ xs) ys = omega (arith, sum-append xs ys)

sum-le : (xs : List ℕ) → All (λ m. m ≤ 10) xs → sum xs ≤ length xs * 10
sum-le [] h = omega arith
sum-le (x ∷ xs) h = omega (arith, sum-le xs h.1)

All-append : (P : ℕ → Type 0) (xs ys : List ℕ) → All P xs → All P ys → All P (xs ++ ys)
All-append P [] ys hx hy = hy
All-append P (x ∷ xs) ys hx hy = (hx.0, All-append P xs ys hx.1 hy)

All-split : (P : ℕ → Type 0) (xs ys : List ℕ) → All P (xs ++ ys) → All P xs × All P ys
All-split P [] ys h = (tt, h)
All-split P (x ∷ xs) ys h = let (hx, hy) = All-split P xs ys h.1 in ((h.0, hx), hy)

parts :
    (xs : List ℕ) (m : ℕ) (ys : List ℕ) (budgets : List ℕ)
    → budgets ≡ xs ++ (m ∷ ys)
    → (length budgets ≡ length xs + suc (length ys)) × (sum budgets ≡ sum xs + (m + sum ys))
parts xs m ys budgets e =
    (ap length e ∙ length-append xs (m ∷ ys), ap sum e ∙ sum-append xs (m ∷ ys))

small_parts :
    (xs : List ℕ) (m : ℕ) (ys : List ℕ) (budgets : List ℕ)
    → budgets ≡ xs ++ (m ∷ ys)
    → All (λ k. k ≤ 10) budgets
    → All (λ k. k ≤ 10) xs × (m ≤ 10) × All (λ k. k ≤ 10) ys
small_parts xs m ys budgets e h =
    let (hx, hy) = All-split (λ k. k ≤ 10) xs (m ∷ ys) (subst (All (λ k. k ≤ 10)) e h) in
    (hx, hy.0, hy.1)

begin_op-Inv :
    {size : ℕ} (s : State) {l : Log}
    → Inv size s
    → begin_op s.log ≡ some l
    → Inv size (record { log = l; budgets = 10 ∷ s.budgets })
unfolding begin_op
begin_op-Inv s i e = ground (arith, sum-le s.budgets i.small)

log_write-Inv :
    {size : ℕ} (s : State) {l : Log} (b : ℕ) (xs : List ℕ) (m : ℕ) (ys : List ℕ)
    → Inv size s
    → s.budgets ≡ xs ++ (suc m ∷ ys)
    → log_write s.log b ≡ some l
    → Inv size (record { log = l; budgets = xs ++ (m ∷ ys) })
unfolding log_write
log_write-Inv s b xs m ys i e w =
    let (len, total) = parts xs (suc m) ys s.budgets e in
    let (hx, hm, hy) = small_parts xs (suc m) ys s.budgets e i.small in
    record {
      same_size = ground arith;
      counted = ground (arith, length-append xs (m ∷ ys));
      alone = ground (arith, length-append xs (m ∷ ys));
      small = All-append (λ k. k ≤ 10) xs (m ∷ ys) hx (omega arith, hy);
      reserved = ground (arith, sum-append xs (m ∷ ys), length-absorb s.log.blocks b);
    }

end_op-Inv :
    {size : ℕ} (s : State) {l : Log} {last : Bool} (xs : List ℕ) (m : ℕ) (ys : List ℕ)
    → Inv size s
    → s.budgets ≡ xs ++ (m ∷ ys)
    → end_op s.log ≡ some (l, last)
    → Inv size (record { log = l; budgets = xs ++ ys })
unfolding end_op
end_op-Inv s xs m ys i e w =
    let (len, total) = parts xs m ys s.budgets e in
    let (hx, hm, hy) = small_parts xs m ys s.budgets e i.small in
    record {
      same_size = ground arith;
      counted = ground (arith, length-append xs ys);
      alone = ground (arith, length-append xs ys);
      small = All-append (λ k. k ≤ 10) xs ys hx hy;
      reserved = ground (arith, sum-append xs ys);
    }

-- Every step keeps the count of operations, and keeps the blocks in the header and those that the
-- operations under way may still write within LOGSIZE.
Step-Inv : {size : ℕ} {s t : State} → Step s t → Inv size s → Inv size t
unfolding end_commit
Step-Inv {s} (begins e) i = begin_op-Inv s i e
Step-Inv {s} (writes b xs m ys e w) i = log_write-Inv s b xs m ys i e w
Step-Inv {s} (ends xs m ys e w) i = end_op-Inv s xs m ys i e w
Step-Inv {s} (commits c) i = record {
  same_size = i.same_size;
  counted = i.counted;
  alone = inl refl;
  small = i.small;
  reserved = omega (arith, i.reserved);
}

pub Reach-Inv : {start size : ℕ} {s : State} → Reach start size s → Inv size s
unfolding init
Reach-Inv starts = record {
  same_size = refl;
  counted = refl;
  alone = inl refl;
  small = tt;
  reserved = omega arith;
}
Reach-Inv (later r st) = Step-Inv st (Reach-Inv r)

-- In any state that `begin_op`, `log_write`, `end_op` and commits lead to, an operation that has written
-- fewer than MAXOPBLOCKS blocks meets neither panic of `log_write`, as long as LOGSIZE is less than the
-- blocks of the log, counting that of the header, and those that the operations under way may still write
-- behind this one. In the log of LOGSIZE blocks that `mkfs` makes, one such block is enough.
pub log_write_total :
    {start size : ℕ} {s : State} (b : ℕ) (xs : List ℕ) (m : ℕ) (ys : List ℕ)
    → 30 < size + (sum xs + m + sum ys)
    → Reach start size s
    → s.budgets ≡ xs ++ (suc m ∷ ys)
    → log_write s.log b ≢ none
unfolding log_write
log_write_total {s} b xs m ys big r e = ground (arith, Reach-Inv r, parts xs (suc m) ys s.budgets e)

-- In any state that `begin_op`, `log_write`, `end_op` and commits lead to, whatever the size of the log,
-- an operation under way ends with no panic, and `end_op` asks for a commit exactly when no other
-- operation is under way.
end_op-last :
    {start size : ℕ} {s : State} (xs : List ℕ) (m : ℕ) (ys : List ℕ)
    → Reach start size s
    → s.budgets ≡ xs ++ (m ∷ ys)
    → let left = length (xs ++ ys) in
      end_op s.log ≡ some (record s.log { outstanding = left; committing = left == 0 }, left == 0)
unfolding end_op
end_op-last {s} xs m ys r e =
    ground (arith, Reach-Inv r, parts xs m ys s.budgets e, length-append xs ys)
