-- ===== src/Fs/Content/Stored.antt =====
-- `readi` and `store` as a whole on a regular file.
use cse314_operating_system.Base.{
  ℕ, ◌+◌, ◌-◌, ◌*◌, ◌/◌, ◌%◌, ◌^◌, ◌≤◌, ◌<◌, ◌≡◌, refl, sym, ap, subst, ◌∙◌, ◌≢◌, ◌⊎◌, inl, inr,
  Bool, true, false, ◌&&◌, ◌||◌, Option, none, some, arith, dec_lt, ℕ_discrete, ltb, leb, ◌==◌,
  if◌then◌else◌, Bool-cases,
}
use cse314_operating_system.Base.{uint}
use cse314_operating_system.Strings.{Bytes}
use cse314_operating_system.Fs.{Blocks, Superblock, bsize}
use cse314_operating_system.Fs.Inode.{Inode, maxfile, iupdate}
use cse314_operating_system.Fs.Inode.Lookup.{lookup}
use cse314_operating_system.Fs.Inode.Growing.{Owned, free_count}
use cse314_operating_system.Fs.Inode.Update.{Owned-iupdate, iupdate-behind, lookup-iupdate}
use cse314_operating_system.Fs.Content.{
  readi, store, extend, store_end, store_from, Moved, refused, device, panics, moved, finish, t_dev,
}
use cse314_operating_system.Fs.Content.View.{byte_at, byte_at-there, byte_at-none}
use cse314_operating_system.Fs.Content.Read.{received, read_from_lem}
use cse314_operating_system.Fs.Content.Round.{span, Foreign, Wrote, Written}
use cse314_operating_system.Fs.Content.Write.{store_from-Written}

module _ (sb : Superblock) where
  -- A well-formed file or directory, with a block for each of its bytes
  pub record Sound (ip : Inode) (d : Blocks) : Type 0 where
    pub owned : Owned sb ip d
    pub number : ip.inum < sb.ninodes
    pub regular : ip.type ≢ t_dev
    pub fits : ip.size ≤ maxfile * bsize
    pub whole : (x : ℕ) → x < ip.size → lookup ip d (x / bsize) ≢ 0

  -- How many bytes there are to read
  abbrev pub available : Inode → (off n : ℕ) → ℕ
  available ip off n = if ltb ip.size (off + n) then ip.size - off else n

  -- `readi` refuses an offset behind the end and a count that wraps around. Else it reads what there is from the
  -- offset to the count or the end of the file into the memory, and changes neither the file nor the disk.
  pub readi_lem :
      (has_read : ℕ → Bool) (ip : Inode) (d : Blocks) (dst off n : ℕ) (mem : Bytes)
      → Sound ip d
      → n < 2 ^ 32
      → readi sb has_read ip d dst off n mem ≡ (
          if ltb ip.size off || leb (2 ^ 32) (off + n)
          then refused
          else moved
              (available ip off n)
              (ip, d, received sb ip d off (available ip off n) dst mem))
  unfolding readi finish
  readi_lem has_read ip d dst off n mem ok small =
      let regular : (ip.type == t_dev) ≡ false = ground (arith, ok.regular) in
      elim (Bool-cases (ltb ip.size off || leb (2 ^ 32) (off + n))) [
        | inl out ↦
            let stop : (ltb ip.size off || ltb (uint (off + n)) off) ≡ true =
              ground (arith, out, small) in
            rw (regular, stop, out) refl
        | inr inside ↦
            let go : (ltb ip.size off || ltb (uint (off + n)) off) ≡ false =
              ground (arith, inside) in
            let exact : uint (off + n) ≡ off + n = ground (arith, inside) in
            let count = available ip off n in
            let there : (x : ℕ) → off ≤ x → x < off + count → lookup ip d (x / bsize) ≢ 0 =
              λ x lo hi. ok.whole x (ground (arith, inside, hi)) in
            let done =
              read_from_lem sb ip d count off count dst mem (omega arith)
                (ground (arith, inside, ok.fits)) there in
            rw (regular, go, exact, inside, done) refl
      ]

  -- What a write of `n` bytes from `src` leaves behind: the file is as long as it has to be and holds the
  -- bytes, each other byte of it is as before, and no block of another file changes.
  pub record Stored (ip : Inode) (d : Blocks) (src off n : ℕ) (mem : Bytes) (ip' : Inode)
      (d' : Blocks) : Type 0 where
    pub sound : Sound ip' d'
    pub rest : ip' ≡ record ip { addrs = ip'.addrs; size = ip'.size }
    pub size : ip'.size ≡ (if ltb ip.size (off + n) then off + n else ip.size)
    pub bytes :
        (x : ℕ)
        → x < maxfile * bsize
        → byte_at ip' d' x
          ≡ (if leb off x && ltb x (off + n) then mem (src + (x - off)) else byte_at ip d x)
    pub foreign : (b : ℕ) → Foreign sb ip d b → (j : ℕ) → d' b j ≡ d b j

  -- The ends of a write: refused for an offset behind the end of the file or an end behind the largest file; a
  -- panic only with fewer free blocks than twice the blocks written to; else with all its bytes stored.
  abbrev pub Ends : (ip : Inode) (d : Blocks) (src off n : ℕ) (mem : Bytes) → Moved → Type 0
  Ends ip d src off n mem refused = (ip.size < off) ⊎ (maxfile * bsize < off + n)
  Ends ip d src off n mem (device major) = ⊥
  Ends ip d src off n mem panics = free_count sb d < 2 * span off n
  Ends ip d src off n mem (moved count (ip', d', mem')) =
      (count ≡ n) × (mem' ≡ mem) × (off ≤ ip.size) × Stored ip d src off n mem ip' d'

  Owned-size :
      (ip : Inode) (d : Blocks) (size : ℕ) → Owned sb ip d → Owned sb (record ip { size = size }) d
  Owned-size ip d size ok = record {
    formatted = ok.formatted;
    words_fit = ok.words_fit;
    slots = ok.slots;
    tree = ok.tree;
  }

  byte_at-iupdate :
      (ip : Inode) (d : Blocks) (off : ℕ)
      → Owned sb ip d
      → ip.inum < sb.ninodes
      → off < maxfile * bsize
      → byte_at ip (iupdate sb ip d) off ≡ byte_at ip d off
  byte_at-iupdate ip d off ok number small =
      let k = off / bsize in
      let at = lookup-iupdate sb ip d ok number k in
      elim (ℕ_discrete (lookup ip d k) 0) [
        | Dec.yes z ↦ byte_at-none ip (iupdate sb ip d) off (at ∙ z) ∙ sym (byte_at-none ip d off z)
        | Dec.no nz ↦
            byte_at-there ip (iupdate sb ip d) off (lookup ip d k) at nz
            ∙ iupdate-behind sb ip d ok number (lookup ip d k) (off % bsize)
                (omega (arith, ok.tree.held k (omega (arith, small)) nz))
            ∙ sym (byte_at-there ip d off (lookup ip d k) refl nz)
      ]

  module _ (ip : Inode) (d : Blocks) (src off n : ℕ) (mem : Bytes) (ip' : Inode) (d' : Blocks)
      (ok : Sound ip d) (lo : off ≤ ip.size) (hi : off + n ≤ maxfile * bsize)
      (w : Wrote sb ip d off n src mem ip' d') where
    same_size : ip'.size ≡ ip.size
    same_size = ap (λ (x : Inode). x.size) w.rest

    same_number : ip'.inum < sb.ninodes
    same_number = subst (λ i. i < sb.ninodes) (sym (ap (λ (x : Inode). x.inum) w.rest)) ok.number

    same_type : ip'.type ≢ t_dev
    same_type e = ok.regular (sym (ap (λ (x : Inode). x.type) w.rest) ∙ e)

    -- The write stays within the file.
    Stored-within : off + n ≤ ip.size → Stored ip d src off n mem ip' d'
    Stored-within inside = record {
      sound = record {
        owned = w.owned;
        number = same_number;
        regular = same_type;
        fits = omega (arith, same_size, ok.fits);
        whole = λ x h.
            w.filled (x / bsize) (omega (arith, h, same_size, ok.fits))
              (inl (ok.whole x (omega (arith, h, same_size))));
      };
      rest = w.rest ∙ ap (λ k. record ip { addrs = ip'.addrs; size = k }) (sym same_size);
      size = same_size ∙ ground (arith, inside);
      bytes = w.bytes;
      foreign = λ b f j. (w.foreign b f).1 j;
    }

    -- The write makes the file longer.
    Stored-longer :
        ip.size < off + n
        → let ip2 : Inode = record ip' { size = off + n } in
          Stored ip d src off n mem ip2 (iupdate sb ip2 d')
    Stored-longer beyond =
        let ip2 : Inode = record ip' { size = off + n } in
        let owned2 = Owned-size ip' d' (off + n) w.owned in
        record {
          sound = record {
            owned = Owned-iupdate sb ip2 d' owned2 same_number;
            number = same_number;
            regular = same_type;
            fits = hi;
            whole = λ x h z.
                w.filled (x / bsize) (omega (arith, h, hi))
                  (elim (dec_lt x ip.size) [
                    | Dec.yes old ↦ inl (ok.whole x old)
                    | Dec.no late ↦
                        inr (omega (arith, beyond, lo), omega (arith, late, lo), omega (arith, h))
                  ])
                  (sym (lookup-iupdate sb ip2 d' owned2 same_number (x / bsize)) ∙ z);
          };
          rest = ap (λ (x : Inode). record x { size = off + n }) w.rest;
          size = ground (arith, beyond);
          bytes = λ x h. byte_at-iupdate ip2 d' x owned2 same_number h ∙ w.bytes x h;
          foreign = λ b f j.
              iupdate-behind sb ip2 d' owned2 same_number b j (omega (arith, f.held))
              ∙ (w.foreign b f).1 j;
        }

    Stored-extend : let r = extend sb n (off + n) (ip', d') in Stored ip d src off n mem r.0 r.1
    unfolding extend
    Stored-extend = elim (Bool-cases (ltb 0 n && ltb ip'.size (off + n))) [
      | inl t ↦ rw (t, extend) (Stored-longer (ground (arith, t, same_size)))
      | inr t ↦ rw (t, extend) (Stored-within (ground (arith, t, same_size, lo)))
    ]

  Ends-store_end :
      (ip : Inode) (d : Blocks) (src off n : ℕ) (mem : Bytes) (o : Option (Inode × Blocks))
      → Sound ip d
      → off ≤ ip.size
      → off + n ≤ maxfile * bsize
      → Written sb ip d off n src mem o
      → Ends ip d src off n mem (store_end sb n (off + n) mem o)
  unfolding store_end
  Ends-store_end ip d src off n mem none ok lo hi short = short
  Ends-store_end ip d src off n mem (some (ip', d')) ok lo hi w =
      (refl, refl, lo, Stored-extend ip d src off n mem ip' d' ok lo hi w)

  -- Each way a write to a regular file can end, and what it leaves behind. It is refused only for an offset behind
  -- the end of the file or an end behind the largest file, and panics only with fewer free blocks than twice the
  -- blocks it writes to. Else all its bytes are stored: the file stays well-formed, is as long as it has to be
  -- and has no hole, its other bytes are as before, and no block of another file changes.
  pub store-Ends :
      (has_write : ℕ → Bool) (ip : Inode) (d : Blocks) (src off n : ℕ) (mem : Bytes)
      → Sound ip d
      → n < 2 ^ 32
      → Ends ip d src off n mem (store sb has_write ip d src off n mem)
  unfolding store
  store-Ends has_write ip d src off n mem ok small =
      let regular : (ip.type == t_dev) ≡ false = ground (arith, ok.regular) in
      elim (Bool-cases
        (ltb ip.size off || ltb (uint (off + n)) off || ltb (maxfile * bsize) (uint (off + n)))) [
          | inl out ↦ rw (regular, out, store) (ground (arith, out, ok.fits))
          | inr inside ↦
              rw (regular, inside, store)
                (Ends-store_end ip d src off n mem (store_from sb n off n src mem (ip, d)) ok
                  (ground (arith, inside)) (ground (arith, inside, small, ok.fits))
                  (store_from-Written sb n off n src mem ip d ok.owned (omega arith)
                    (ground (arith, inside, small, ok.fits))))
        ]
