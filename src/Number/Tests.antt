-- ===== src/Number/Tests.antt =====
-- Numbers as text at concrete inputs.
use cse314_operating_system.Base.{
  ℕ, zero, suc, ◌+◌, ◌-◌, ◌^◌, ◌≤◌, ◌<◌, ◌≡◌, refl, ◌⊎◌, true, false, some, List, [], ◌∷◌, arith,
  dec_lt,
}
use cse314_operating_system.Number.{
  atoi, itoa, swap_path, path_bytes, printint, push_digits, put_chars, digit_char, put_digits,
  put_back, put_back_acc, advance, advance_acc, lt_wf, acc_below,
}
use cse314_operating_system.Strings.{Bytes}
use cse314_operating_system.Number.Itoa.{atoi-itoa, swap_path-fits}
use cse314_operating_system.Number.Print.{Prints, printint-Prints}

abbrev zeros : Bytes
zeros x = 0

abbrev text : (n p : ℕ) → Bytes → List ℕ
text zero p m = []
text (suc n) p m = m p ∷ text n (p + 1) m

itoa-negative : text 5 100 (itoa (2 ^ 32 - 207) 100 zeros) ≡ b'-' ∷ b'2' ∷ b'0' ∷ b'7' ∷ 0 ∷ []
unfolding itoa put_digits put_back put_back_acc advance advance_acc lt_wf acc_below dec_lt
itoa-negative = refl

printint-negative :
    (printint 10 (2 ^ 32 - 255) 10 true ≡ some (b'-' ∷ b'2' ∷ b'5' ∷ b'5' ∷ []))
    × (printint 10 255 16 false ≡ some (b'F' ∷ b'F' ∷ []))
unfolding printint push_digits digit_char
printint-negative = (refl, refl)

atoi-itoa_example : atoi 11 (itoa 2147483647 50 zeros) 50 ≡ some 2147483647
atoi-itoa_example = atoi-itoa 2147483647 50 0 zeros (omega arith)

swap_path-fits_example :
    ((x : ℕ) → (x < 64) ⊎ (64 + path_bytes ≤ x) → swap_path 9999999 64 zeros x ≡ zeros x)
    × (atoi 11 (swap_path 9999999 64 zeros) (64 + 6) ≡ some 9999999)
swap_path-fits_example = swap_path-fits 9999999 64 0 zeros (omega arith)

printint-Prints_example :
    Prints 16 (omega arith) (omega arith) false 0xBEEF (printint 10 0xBEEF 16 false)
printint-Prints_example =
    printint-Prints 16 (omega arith) (omega arith) 0 0xBEEF false (omega arith)

-- With a pid of eight digits the terminator is stored behind the array.
swap_path-overrun : swap_path 10000000 64 (λ x. 255) (64 + path_bytes) ≡ 0
unfolding swap_path itoa put_digits put_back put_back_acc advance advance_acc lt_wf acc_below dec_lt
    put_chars
swap_path-overrun = refl
