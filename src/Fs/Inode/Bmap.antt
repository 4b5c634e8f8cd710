-- ===== src/Fs/Inode/Bmap.antt =====
-- `bmap` finds or makes one block of a file and changes no other.
use cse314_operating_system.Base.{
  get_or-set_ne, get_or-set_self, ℕ, ◌+◌, ◌-◌, ◌*◌, ◌<◌, ◌≡◌, refl, sym, ap, ap₂, subst, ◌∙◌, ◌≢◌,
  inl, inr, true, some, arith, dec_lt, ℕ_discrete, ltb, ◌==◌, if◌then◌else◌, get_or, set,
  length-set,
}
use cse314_operating_system.Fs.{Blocks, Superblock}
use cse314_operating_system.Fs.Bitmap.{in_use}
use cse314_operating_system.Fs.Alloc.{Allocated}
use cse314_operating_system.Fs.Inode.{Inode, word_at, ndirect}
use cse314_operating_system.Fs.Inode.Owning.{
  spent-new, Held-ne, Held, Tree, New, Tree-block, Tree-indirect,
}
use cse314_operating_system.Fs.Inode.Lookup.{
  indirect, lookup, lookup-direct, lookup-entry, lookup-none, lookup-frame,
}
use cse314_operating_system.Fs.Inode.Growing.{
  Owned, Grown, Mapped, New-balloc, Formatted-balloc, or_true,
}

pub if_ne : (n i r x : ℕ) → n ≢ i → (if n == i then r else x) ≡ x
if_ne n i r x h = ground (arith, h)

module _ (sb : Superblock) where
  module _ (ip : Inode) (d d' : Blocks) (r : ℕ) (ok : Owned sb ip d)
      (taken : Allocated sb d (some (r, d'))) where
    pub new : New sb (in_use sb d) (in_use sb d') r
    new = New-balloc sb d d' r taken

    pub balloc-kept : (x : ℕ) → x < sb.size → in_use sb d x ≡ true → in_use sb d' x ≡ true
    balloc-kept x h u = taken.4 x (omega (arith, h)) ∙ rw u (or_true (x == r))

    pub balloc-frame : (b j : ℕ) → Held sb (in_use sb d) b → d' b j ≡ d b j
    balloc-frame b j held =
        taken.6 b j held.0 (Held-ne sb (in_use sb d) (in_use sb d') r new b held)

    pub r-ne_zero : r ≢ 0
    r-ne_zero = omega (arith, taken.0)

    -- The new block changes no address of the file.
    pub lookup-balloc : (n : ℕ) → lookup ip d' n ≡ lookup ip d n
    lookup-balloc n =
        lookup-frame ip d d' n (λ ne j. balloc-frame (indirect ip) j (ok.tree.held_ind ne))

    -- A new block in slot `i` of the direct addresses
    lookup-set :
        (i n : ℕ)
        → i < ndirect
        → lookup (record ip { addrs = set ip.addrs i r }) d' n
          ≡ (if n == i then r else lookup ip d n)
    lookup-set i n small =
        let ip' : Inode = record ip { addrs = set ip.addrs i r } in
        elim (ℕ_discrete n i) [
          | Dec.yes e ↦
              lookup-direct ip' d' n (omega (arith, e, small))
              ∙ ap (λ k. get_or (set ip.addrs i r) k 0) e
              ∙ get_or-set_self ip.addrs i r 0 (omega (arith, small, ok.slots))
              ∙ ground (arith, e)
          | Dec.no ne ↦
              ap₂
                (λ a ind.
                  if ltb n ndirect
                  then a
                  else if ind == 0
                  then 0
                  else word_at d' ind (4 * (n - ndirect)))
                (get_or-set_ne ip.addrs i n r 0 (λ e. ne (sym e)))
                (get_or-set_ne ip.addrs i ndirect r 0 (omega (arith, small)))
              ∙ lookup-balloc n
              ∙ sym (if_ne n i r (lookup ip d n) ne)
        ]

    pub Mapped-direct :
        (i : ℕ)
        → i < ndirect
        → get_or ip.addrs i 0 ≡ 0
        → Mapped sb 1 ip d i r (record ip { addrs = set ip.addrs i r }) d'
    Mapped-direct i small empty =
        let ip' : Inode = record ip { addrs = set ip.addrs i r } in
        let same_ind : indirect ip' ≡ indirect ip =
          get_or-set_ne ip.addrs i ndirect r 0 (omega (arith, small)) in
        record {
          grown = record {
            owned = record {
              formatted = Formatted-balloc sb d d' r ok.formatted taken;
              words_fit = ok.words_fit;
              slots = length-set ip.addrs i r ∙ ok.slots;
              tree = subst (Tree sb (in_use sb d') (lookup ip' d')) (sym same_ind) (
                  Tree-block sb (in_use sb d) (in_use sb d') r new (lookup ip d) (indirect ip)
                    ok.tree (lookup ip' d') i (λ n _. lookup-set i n small));
            };
            rest = refl;
            kept = balloc-kept;
            spent = spent-new sb (in_use sb d) (in_use sb d') r new;
            frame = λ b j held _. balloc-frame b j held;
            ind_from = inl same_ind;
          };
          found = lookup-set i i small ∙ ground arith;
          there = r-ne_zero;
          others = λ k _ ne. lookup-set i k small ∙ ground (arith, ne);
          blank = λ _. taken.5;
          fresh = λ _. taken.2;
          same = λ ne. absurd (ne (lookup-direct ip d i small ∙ empty));
        }

    pub blank_word : (i : ℕ) → word_at d' r i ≡ 0
    blank_word i = omega (arith, taken.5 i, taken.5 (i + 1), taken.5 (i + 2), taken.5 (i + 3))

    -- A new indirect block
    pub lookup-indirect :
        (n : ℕ)
        → indirect ip ≡ 0
        → lookup (record ip { addrs = set ip.addrs ndirect r }) d' n ≡ lookup ip d n
    lookup-indirect n empty =
        let ip' : Inode = record ip { addrs = set ip.addrs ndirect r } in
        let at : indirect ip' ≡ r =
          get_or-set_self ip.addrs ndirect r 0 (omega (arith, ok.slots)) in
        elim (dec_lt n ndirect) [
          | Dec.yes h ↦
              lookup-direct ip' d' n h
              ∙ get_or-set_ne ip.addrs ndirect n r 0 (omega (arith, h))
              ∙ sym (lookup-direct ip d n h)
          | Dec.no h ↦
              lookup-entry ip' d' n (omega (arith, h)) (omega (arith, at, r-ne_zero))
              ∙ ap (λ b. word_at d' b (4 * (n - ndirect))) at
              ∙ blank_word (4 * (n - ndirect))
              ∙ sym (lookup-none ip d n (omega (arith, h)) empty)
        ]

    pub Grown-indirect :
        indirect ip ≡ 0 → Grown sb 1 ip d (record ip { addrs = set ip.addrs ndirect r }) d'
    Grown-indirect empty =
        let ip' : Inode = record ip { addrs = set ip.addrs ndirect r } in
        let at : indirect ip' ≡ r =
          get_or-set_self ip.addrs ndirect r 0 (omega (arith, ok.slots)) in
        record {
          owned = record {
            formatted = Formatted-balloc sb d d' r ok.formatted taken;
            words_fit = ok.words_fit;
            slots = length-set ip.addrs ndirect r ∙ ok.slots;
            tree = subst (Tree sb (in_use sb d') (lookup ip' d')) (sym at) (
                Tree-indirect sb (in_use sb d) (in_use sb d') r new (lookup ip d) (indirect ip)
                  ok.tree (lookup ip' d') (λ n _. lookup-indirect n empty));
          };
          rest = refl;
          kept = balloc-kept;
          spent = spent-new sb (in_use sb d) (in_use sb d') r new;
          frame = λ b j held _. balloc-frame b j held;
          ind_from = inr (subst (λ x. x < sb.size) (sym at) taken.1, ap (in_use sb d) at ∙ taken.2);
        }
