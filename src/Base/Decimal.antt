-- ===== src/Base/Decimal.antt =====
-- `String(n)`, `padStart` with zeros, and the reading of decimal digits that `parseInt` does, on
-- natural numbers that are taken as exact.
use Prim.Native.Nat.{ℕ, zero, suc, ◌+◌, ◌-◌, ◌*◌, ◌/◌, ◌%◌, ◌≤◌, ◌<◌}
use Prim.Native.Char.{Char, char, code}
use Prim.Native.String.{String, [], ◌∷◌, count}
use mathlib.Core.Path.{◌≡◌, refl, sym, ap, ◌∙◌}
use mathlib.Core.Bool.{Bool, true, false, ◌&&◌}
use native.Mathlib.Omega.{arith}
use wait_a_minute_plugin.Base.Tests.{leb, ◌==◌, if◌then◌else◌}

abbrev pub is_digit : Char → Bool
is_digit c = leb 48 (code c) && leb (code c) 57

-- The last of the ten digits also stands for numbers above 9, which no caller passes.
abbrev digit_of : String → ℕ → Char
digit_of [] d = char 57 tt
digit_of (c ∷ s) zero = c
digit_of (c ∷ s) (suc d) = digit_of s d

unfoldable pub digit : ℕ → Char
digit d = digit_of "012345678" d

-- The digits of `n` before `out`; a fuel of `n` is enough (scan-digits).
unfoldable pub digits : ℕ → ℕ → String → String
digits zero n out = out
digits (suc fuel) n out =
    let rest = digits fuel (n / 10) (digit (n % 10) ∷ out) in if n == 0 then out else rest

unfoldable pub to_text : ℕ → String
to_text n = digits n (n / 10) (digit (n % 10) ∷ [])

abbrev zeros : ℕ → String → String
zeros zero s = s
zeros (suc n) s = digit 0 ∷ zeros n s

-- s.padStart(width, "0")
unfoldable pub pad_start : ℕ → String → String
pad_start width s = zeros (width - count s) s

-- The number that the first digits of a text spell behind `n`.
unfoldable pub scan : String → ℕ → ℕ
scan [] n = n
scan (c ∷ s) n = let rest = scan s (n * 10 + (code c - 48)) in if is_digit c then rest else n

-- The text starts with a digit.
abbrev pub Headed : String → Type 0
Headed [] = ⊥
Headed (c ∷ s) = is_digit c ≡ true

code-digit : (d : ℕ) → d < 10 → code (digit d) ≡ 48 + d
unfolding digit
code-digit zero h = refl
code-digit (suc zero) h = refl
code-digit (suc (suc zero)) h = refl
code-digit (suc (suc (suc zero))) h = refl
code-digit (suc (suc (suc (suc zero)))) h = refl
code-digit (suc (suc (suc (suc (suc zero))))) h = refl
code-digit (suc (suc (suc (suc (suc (suc zero)))))) h = refl
code-digit (suc (suc (suc (suc (suc (suc (suc zero))))))) h = refl
code-digit (suc (suc (suc (suc (suc (suc (suc (suc zero)))))))) h = refl
code-digit (suc (suc (suc (suc (suc (suc (suc (suc (suc zero))))))))) h = refl
code-digit (suc (suc (suc (suc (suc (suc (suc (suc (suc (suc n)))))))))) h = absurd (omega arith)

digit-is_digit : (d : ℕ) → is_digit (digit d) ≡ true
unfolding digit
digit-is_digit zero = refl
digit-is_digit (suc zero) = refl
digit-is_digit (suc (suc zero)) = refl
digit-is_digit (suc (suc (suc zero))) = refl
digit-is_digit (suc (suc (suc (suc zero)))) = refl
digit-is_digit (suc (suc (suc (suc (suc zero))))) = refl
digit-is_digit (suc (suc (suc (suc (suc (suc zero)))))) = refl
digit-is_digit (suc (suc (suc (suc (suc (suc (suc zero))))))) = refl
digit-is_digit (suc (suc (suc (suc (suc (suc (suc (suc zero)))))))) = refl
digit-is_digit (suc (suc (suc (suc (suc (suc (suc (suc (suc n))))))))) = refl

scan_last : (n : ℕ) (out : String) → scan (digit (n % 10) ∷ out) (n / 10) ≡ scan out n
unfolding scan
scan_last n out =
    rw (digit-is_digit (n % 10), code-digit (n % 10) (omega arith)) (ap (scan out) (omega arith))

scan-digits : (fuel n : ℕ) (out : String) → n ≤ fuel → scan (digits fuel n out) 0 ≡ scan out n
unfolding digits
scan-digits zero n out h = ap (scan out) (omega arith)
scan-digits (suc fuel) n out h =
    ground (arith, scan-digits fuel (n / 10) (digit (n % 10) ∷ out), scan_last n out)

digits-Headed : (fuel n : ℕ) (out : String) → Headed out → Headed (digits fuel n out)
unfolding digits
digits-Headed zero n out h = h
digits-Headed (suc fuel) n out h =
    one (n == 0) (digits-Headed fuel (n / 10) (digit (n % 10) ∷ out) (digit-is_digit (n % 10)))
  where
    one :
        (b : Bool)
        → Headed (digits fuel (n / 10) (digit (n % 10) ∷ out))
        → Headed (if b then out else digits fuel (n / 10) (digit (n % 10) ∷ out))
    one true rec = h
    one false rec = rec

to_text-Headed : (n : ℕ) → Headed (to_text n)
unfolding to_text
to_text-Headed n = digits-Headed n (n / 10) (digit (n % 10) ∷ []) (digit-is_digit (n % 10))

scan-to_text : (n : ℕ) → scan (to_text n) 0 ≡ n
unfolding to_text scan
scan-to_text n = scan-digits n (n / 10) (digit (n % 10) ∷ []) (omega arith) ∙ scan_last n []

zeros-Headed : (k : ℕ) (s : String) → Headed s → Headed (zeros k s)
unfolding digit
zeros-Headed zero s h = h
zeros-Headed (suc k) s h = refl

scan-zeros : (k : ℕ) (s : String) → scan (zeros k s) 0 ≡ scan s 0
unfolding scan digit
scan-zeros zero s = refl
scan-zeros (suc k) s = scan-zeros k s

-- A padded number starts with a digit, spells the number, and has digits only.
pub pad_start-Headed : (width n : ℕ) → Headed (pad_start width (to_text n))
unfolding pad_start
pad_start-Headed width n = zeros-Headed (width - count (to_text n)) (to_text n) (to_text-Headed n)

pub scan-pad_start : (width n : ℕ) → scan (pad_start width (to_text n)) 0 ≡ n
unfolding pad_start
scan-pad_start width n = scan-zeros (width - count (to_text n)) (to_text n) ∙ scan-to_text n

-- Different numbers have different paddings.
pub pad_start-inj :
    (width n m : ℕ) → pad_start width (to_text n) ≡ pad_start width (to_text m) → n ≡ m
pad_start-inj width n m h =
    sym (scan-pad_start width n) ∙ (ap (λ s. scan s 0) h ∙ scan-pad_start width m)

abbrev pub Digits : String → Type 0
Digits [] = Unit
Digits (c ∷ s) = (is_digit c ≡ true) × Digits s

digits-Digits : (fuel n : ℕ) (out : String) → Digits out → Digits (digits fuel n out)
unfolding digits
digits-Digits zero n out h = h
digits-Digits (suc fuel) n out h =
    one (n == 0) (digits-Digits fuel (n / 10) (digit (n % 10) ∷ out) (digit-is_digit (n % 10), h))
  where
    one :
        (b : Bool)
        → Digits (digits fuel (n / 10) (digit (n % 10) ∷ out))
        → Digits (if b then out else digits fuel (n / 10) (digit (n % 10) ∷ out))
    one true rec = h
    one false rec = rec

to_text-Digits : (n : ℕ) → Digits (to_text n)
unfolding to_text
to_text-Digits n = digits-Digits n (n / 10) (digit (n % 10) ∷ []) (digit-is_digit (n % 10), tt)

zeros-Digits : (k : ℕ) (s : String) → Digits s → Digits (zeros k s)
unfolding digit
zeros-Digits zero s h = h
zeros-Digits (suc k) s h = (refl, zeros-Digits k s h)

pub pad_start-Digits : (width n : ℕ) → Digits (pad_start width (to_text n))
unfolding pad_start
pad_start-Digits width n = zeros-Digits (width - count (to_text n)) (to_text n) (to_text-Digits n)
