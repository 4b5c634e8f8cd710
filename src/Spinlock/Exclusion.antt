-- ===== src/Spinlock/Exclusion.antt =====
-- Mutual exclusion of the processors that use one lock.
use cse314_operating_system.Base.{
  ℕ, ◌≡◌, refl, sym, ap, ◌∙◌, ◌≢◌, ◌⊎◌, inl, inr, Bool, true, false, none, some, arith, ℕ_discrete,
  ◌==◌, if◌then◌else◌, ==_iff,
}
use cse314_operating_system.Spinlock.{Lock, holding, xchg, record_owner, clear_owner, unlock}

-- Where a processor stands: outside, in the loop of `acquire`, behind the exchange, behind `acquire`, and in
-- `release` with the owner cleared
pub data Phase : Type 0 where
  outside spinning taken inside leaving : Phase

abbrev pub in_section : Phase → Bool
in_section taken = true
in_section inside = true
in_section leaving = true
in_section _ = false

pub record System : Type 0 where
  pub lock : Lock
  pub phase : ℕ → Phase

abbrev pub move : System → ℕ → Phase → Lock → System
move s i p l = record { lock = l; phase = λ j. if j == i then p else s.phase j }

-- The steps of the processor `i`. A failed exchange changes nothing.
pub data Step (s : System) : System → Type 0 where
  enters :
      (i : ℕ) → s.phase i ≡ outside → holding i s.lock ≡ false → Step s (move s i spinning s.lock)
  takes :
      (i : ℕ)
      → s.phase i ≡ spinning
      → (xchg s.lock).1 ≡ false
      → Step s (move s i taken (xchg s.lock).0)
  records : (i : ℕ) → s.phase i ≡ taken → Step s (move s i inside (record_owner i s.lock))
  clears : (i : ℕ) → s.phase i ≡ inside → Step s (move s i leaving (clear_owner s.lock))
  unlocks : (i : ℕ) → s.phase i ≡ leaving → Step s (move s i outside (unlock s.lock))

abbrev pub initial : System
initial = record { lock = record { locked = false; cpu = none }; phase = λ i. outside }

pub data Reach : System → Type 0 where
  starts : Reach initial
  later : {s t : System} → Reach s → Step s t → Reach t

record Inv (s : System) : Type 0 where
  flag : (i : ℕ) → in_section (s.phase i) ≡ true → s.lock.locked ≡ true
  one : (i j : ℕ) → in_section (s.phase i) ≡ true → in_section (s.phase j) ≡ true → i ≡ j
  owner : (i : ℕ) → s.phase i ≡ inside → s.lock.cpu ≡ some i

moved :
    (s : System) (i j : ℕ) (p : Phase) (l : Lock)
    → ((j ≡ i) × ((move s i p l).phase j ≡ p)) ⊎ ((j ≢ i) × ((move s i p l).phase j ≡ s.phase j))
moved s i j p l = elim (ℕ_discrete j i) [
  | yes same ↦ inl (same, ground arith)
  | no other ↦ inr (other, ground arith)
]

was_in :
    (s : System) (i j : ℕ) (p : Phase) (l : Lock)
    → (in_section p ≡ true → in_section (s.phase i) ≡ true)
    → in_section ((move s i p l).phase j) ≡ true
    → in_section (s.phase j) ≡ true
was_in s i j p l h e = elim (moved s i j p l) [
  | inl (same, q) ↦ ap (λ k. in_section (s.phase k)) same ∙ h (sym (ap in_section q) ∙ e)
  | inr (other, q) ↦ sym (ap in_section q) ∙ e
]

-- Another processor that is in the section with `i`
alone :
    {s : System} (i j : ℕ)
    → Inv s
    → in_section (s.phase i) ≡ true
    → j ≢ i
    → in_section (s.phase j) ≢ true
alone i j v e other f = other (v.one j i f e)

-- A processor that is inside after another step than its own arrival, or by it
still_inside :
    (s : System) (i j : ℕ) (p : Phase) (l : Lock)
    → p ≢ inside
    → (move s i p l).phase j ≡ inside
    → (j ≢ i) × (s.phase j ≡ inside)
still_inside s i j p l ne e = elim (moved s i j p l) [
  | inl (same, q) ↦ absurd (ne (sym q ∙ e))
  | inr (other, q) ↦ (other, sym q ∙ e)
]

Step-Inv : {s t : System} → Step s t → Inv s → Inv t
unfolding xchg record_owner clear_owner unlock
Step-Inv {s} (enters i e free) v = record {
  flag = λ j f. v.flag j (was_in s i j spinning s.lock (λ z. absurd (grind (arith, z))) f);
  one = λ j k f g.
      v.one j k (was_in s i j spinning s.lock (λ z. absurd (grind (arith, z))) f)
        (was_in s i k spinning s.lock (λ z. absurd (grind (arith, z))) g);
  owner = λ j f. v.owner j (still_inside s i j spinning s.lock (λ z. grind (arith, z)) f).1;
}
Step-Inv {s} (takes i e free) v =
    let nobody : (j : ℕ) → in_section (s.phase j) ≢ true = λ j f. grind (arith, v.flag j f, free) in
    let only : (j : ℕ) → in_section ((move s i taken (xchg s.lock).0).phase j) ≡ true → j ≡ i =
      λ j f. elim (moved s i j taken (xchg s.lock).0) [
        | inl (same, q) ↦ same
        | inr (other, q) ↦ absurd (nobody j (sym (ap in_section q) ∙ f))
      ] in
    record {
      flag = λ j f. refl;
      one = λ j k f g. only j f ∙ sym (only k g);
      owner =
          λ j f. v.owner j (still_inside s i j taken (xchg s.lock).0 (λ z. grind (arith, z)) f).1;
    }
Step-Inv {s} (records i e) v =
    let here : in_section (s.phase i) ≡ true = ap in_section e in
    record {
      flag = λ j f. v.flag j (was_in s i j inside (record_owner i s.lock) (λ z. here) f);
      one = λ j k f g.
          v.one j k (was_in s i j inside (record_owner i s.lock) (λ z. here) f)
            (was_in s i k inside (record_owner i s.lock) (λ z. here) g);
      owner = λ j f. ap some (
          v.one i j here
            (was_in s i j inside (record_owner i s.lock) (λ z. here) (ap in_section f)));
    }
Step-Inv {s} (clears i e) v =
    let here : in_section (s.phase i) ≡ true = ap in_section e in
    record {
      flag = λ j f. v.flag j (was_in s i j leaving (clear_owner s.lock) (λ z. here) f);
      one = λ j k f g.
          v.one j k (was_in s i j leaving (clear_owner s.lock) (λ z. here) f)
            (was_in s i k leaving (clear_owner s.lock) (λ z. here) g);
      owner = λ j f.
          let (other, q) =
            still_inside s i j leaving (clear_owner s.lock) (λ z. grind (arith, z)) f in
          absurd (alone i j v here other (ap in_section q));
    }
Step-Inv {s} (unlocks i e) v =
    let here : in_section (s.phase i) ≡ true = ap in_section e in
    let nobody : (j : ℕ) → in_section ((move s i outside (unlock s.lock)).phase j) ≢ true = λ j f.
      elim (moved s i j outside (unlock s.lock)) [
        | inl (same, q) ↦ grind (arith, sym (ap in_section q) ∙ f)
        | inr (other, q) ↦ alone i j v here other (sym (ap in_section q) ∙ f)
      ] in
    record {
      flag = λ j f. absurd (nobody j f);
      one = λ j k f g. absurd (nobody j f);
      owner = λ j f. absurd (nobody j (ap in_section f));
    }

Reach-Inv : {s : System} → Reach s → Inv s
Reach-Inv starts = record {
  flag = λ i f. absurd (grind (arith, f));
  one = λ i j f g. absurd (grind (arith, f));
  owner = λ i f. absurd (grind (arith, f));
}
Reach-Inv (later r s) = Step-Inv s (Reach-Inv r)

-- Two processors are never both inside a lock, whatever they do from a lock that has just been made, and the
-- one that is inside finds itself the holder, so that its `release` does not panic.
pub mutual_exclusion :
    {s : System} (i j : ℕ)
    → Reach s
    → s.phase i ≡ inside
    → in_section (s.phase j) ≡ true
    → (i ≡ j) × (holding i s.lock ≡ true)
mutual_exclusion {s} i j r e f =
    let v = Reach-Inv r in
    (
      v.one i j (ap in_section e) f,
      rw (v.flag i (ap in_section e), v.owner i e) ((==_iff i i).1 refl),
    )
