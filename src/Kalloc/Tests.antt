-- ===== src/Kalloc/Tests.antt =====
-- The page allocator on two pages.
use cse314_operating_system.Base.{false, ◌≢◌, ◌==◌, ◌≢◌, ℕ, ◌≡◌, refl, some, [], ◌∷◌, arith}
use mathlib.Core.Option
use cse314_operating_system.Kalloc.{Memory, kfree, kalloc, freerange, freerange_from}
use cse314_operating_system.Kalloc.Laws.{Lists, kalloc-kfree}

abbrev bare : Memory
bare = record { first = 0x100000; words = λ p i. 0; head = 0 }

abbrev one_page : Memory
one_page = record bare { head = 0x80101000 }

frees_twice :
    Option.map
      (λ m. m.head ∷ m.words 0x102000 0 ∷ m.words 0x101000 0 ∷ [])
      (freerange 0x100001 0x103000 bare)
    ≡ some (0x80102000 ∷ 0x80101000 ∷ 0 ∷ [])
unfolding freerange freerange_from kfree
frees_twice = refl

one_page-Lists : Lists one_page (0x101000 ∷ [])
one_page-Lists = record {
  chain = (refl, refl);
  distinct = (refl, tt);
  in_range = (omega arith, tt);
}

kalloc-kfree_example :
    (m' : Memory) × (kfree one_page 0x102000 ≡ some m')
    × Lists m' (0x102000 ∷ 0x101000 ∷ [])
    × ((i : ℕ) → i ≢ 0 → m'.words 0x102000 i ≡ 0x01010101)
    × ((q i : ℕ) → (q == 0x102000) ≡ false → m'.words q i ≡ one_page.words q i)
    × (m'' : Memory) × (kalloc m' ≡ (m'', some 0x102000))
    × Lists m'' (0x101000 ∷ [])
kalloc-kfree_example =
    kalloc-kfree one_page 0x102000 (0x101000 ∷ []) one_page-Lists (omega arith) refl
