-- ===== src/Path/Hold.antt =====
-- The cache of inodes along the walk of `namex`: one reference more than before it.
use cse314_operating_system.Base.{
  ℕ, ◌+◌, ◌≤◌, ◌≡◌, refl, sym, subst, inl, inr, false, Option, none, some, List, arith, ℕ_discrete,
  leb, ◌==◌, if◌then◌else◌, Bool-cases,
}
use cse314_operating_system.Path.{Cache, Walked, ends, add_ref, get, put}

-- One when the inode of the number is the one, and one when it is the result
abbrev pub one : (i ip : ℕ) → ℕ
one i ip = if i == ip then 1 else 0

abbrev pub one_of : (i : ℕ) → Option (ℕ × List ℕ) → ℕ
one_of i none = 0
one_of i (some (ip, name)) = one i ip

-- One for an inode that is not in the cache
abbrev pub fresh : (refs : ℕ → ℕ) → (ip : ℕ) → ℕ
fresh refs ip = if refs ip == 0 then 1 else 0

abbrev pub fresh_of : (refs : ℕ → ℕ) → Option (ℕ × List ℕ) → ℕ
fresh_of refs none = 0
fresh_of refs (some (ip, name)) = fresh refs ip

-- The cache as `old` was, with one reference more
pub record Holds (old c : Cache) (ip : ℕ) : Type 0 where
  pub refs : (i : ℕ) → c.refs i ≡ old.refs i + one i ip
  pub used : c.used ≡ old.used + fresh old.refs ip

-- The cache as `old` was, with a reference more to the result
pub record Answers (old : Cache) (r : Option (ℕ × List ℕ)) (o : Option Walked) : Type 0 where
  pub cache : Cache
  pub answer : o ≡ some (ends r cache)
  pub refs : (i : ℕ) → cache.refs i ≡ old.refs i + one_of i r
  pub used : cache.used ≡ old.used + fresh_of old.refs r

Holds-self : (old c : Cache) (ip : ℕ) → Holds old c ip → c.refs ip ≡ old.refs ip + 1
Holds-self old c ip h = let r = h.refs ip in ground (arith, r)

pub Answers-none :
    (old c : Cache) (ip : ℕ) → Holds old c ip → Answers old none (some (ends none (put c ip)))
unfolding put
Answers-none old c ip h = record {
  cache = put c ip;
  answer = refl;
  refs = λ i. let r = h.refs i in ground (arith, r);
  used = let r = Holds-self old c ip h in let u = h.used in ground (arith, r, u);
}

pub Answers-stays :
    (old c : Cache) (ip : ℕ) (name : List ℕ)
    → Holds old c ip
    → Answers old (some (ip, name)) (some (ends (some (ip, name)) c))
Answers-stays old c ip name h = record { cache = c; answer = refl; refs = h.refs; used = h.used }

-- With two slots free, `iget` does not panic.
pub Holds-next :
    (old c : Cache) (ip next : ℕ)
    → old.used ≤ 48
    → Holds old c ip
    → (c' : Cache) × (get c next ≡ some c') × Holds old (put c' ip) next
unfolding get put
Holds-next old c ip next room h = elim (ℕ_discrete next ip) [
  | Dec.yes same ↦
      let r : c.refs next ≡ old.refs next + 1 =
        subst (λ k. c.refs k ≡ old.refs k + 1) (sym same) (Holds-self old c ip h) in
      let cached : (c.refs next == 0) ≡ false = ground (arith, r) in
      (
        record c { refs = add_ref c.refs next },
        rw (cached, get) refl,
        record {
          refs = λ i. let q = h.refs i in ground (arith, q, same);
          used = let u = h.used in ground (arith, r, u, same);
        },
      )
  | Dec.no ne ↦
      let r = h.refs next in
      let u = h.used in
      let p = Holds-self old c ip h in
      let given : (i : ℕ)
          → (put (record c { refs = add_ref c.refs next }) ip).refs i ≡ old.refs i + one i next =
        λ i.
          let q = h.refs i in
          elim (ℕ_discrete i ip) [
            | Dec.yes same ↦ ground (arith, q, same, ne)
            | Dec.no away ↦ ground (arith, q, away)
          ] in
      elim (Bool-cases (c.refs next == 0)) [
        | inl new ↦
            let roomy : leb 50 c.used ≡ false = ground (arith, u, room) in
            (
              record { refs = add_ref c.refs next; used = c.used + 1 },
              rw (new, roomy, get) refl,
              record { refs = given; used = ground (arith, r, u, p, ne, new) },
            )
        | inr cached ↦ (
          record c { refs = add_ref c.refs next },
          rw (cached, get) refl,
          record { refs = given; used = ground (arith, r, u, p, ne, cached) },
        )
      ]
]
