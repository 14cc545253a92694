-- ===== src/Common/Decimal.antt =====
-- What `strconv.Itoa` writes, read back.
use Prim.Native.Nat.{ℕ, zero, suc, ◌+◌, ◌-◌, ◌*◌, ◌/◌, ◌%◌, ◌<◌, ◌≤◌}
use Prim.Native.Char.{code, char}
use Prim.Native.String.{String, ◌++◌}
use Prim.Native.String.append.{nil, cons}
use mathlib.Core.Path.{◌≡◌, refl, ap, ◌∙◌}
use mathlib.Core.Bool.{Bool, true, false, ◌&&◌, not}
use native.Mathlib.Omega.{arith}
use charger_simulator.Common.Tests.{ltb, leb, ◌==◌, if◌then◌else◌}
use charger_simulator.Common.Int.{ℤ, pos, negsuc}
use charger_simulator.Common.Itoa.{digit, digits, itoa}

abbrev is_digit : ℕ → Bool
is_digit c = leb 48 c && leb c 57

unfoldable all_digits : String → Bool
all_digits String.[] = true
all_digits (String.◌∷◌ c s) = let rest = all_digits s in is_digit (code c) && rest

-- The value of a text of digits, after those that make `acc`.
unfoldable value : ℕ → String → ℕ
value acc String.[] = acc
value acc (String.◌∷◌ c s) = value (acc * 10 + (code c - 48)) s

value-append : (acc : ℕ) (s t : String) → value acc (s ++ t) ≡ value (value acc s) t
unfolding value
value-append acc String.[] t = rw (nil t) refl
value-append acc (String.◌∷◌ c s) t = rw (cons c s t) (value-append (acc * 10 + (code c - 48)) s t)

digits-append :
    (s t : String) → all_digits s ≡ true → all_digits t ≡ true → all_digits (s ++ t) ≡ true
unfolding all_digits
digits-append String.[] t p q = rw (nil t) q
digits-append (String.◌∷◌ c s) t p q = rw (cons c s t) (ground (arith, p, q, digits-append s t))

value-digit : (acc n : ℕ) → n < 10 → value acc (digit n) ≡ acc * 10 + n
unfolding value digit
value-digit acc zero b = refl
value-digit acc (suc zero) b = refl
value-digit acc (suc (suc zero)) b = refl
value-digit acc (suc (suc (suc zero))) b = refl
value-digit acc (suc (suc (suc (suc zero)))) b = refl
value-digit acc (suc (suc (suc (suc (suc zero))))) b = refl
value-digit acc (suc (suc (suc (suc (suc (suc zero)))))) b = refl
value-digit acc (suc (suc (suc (suc (suc (suc (suc zero))))))) b = refl
value-digit acc (suc (suc (suc (suc (suc (suc (suc (suc zero)))))))) b = refl
value-digit acc (suc (suc (suc (suc (suc (suc (suc (suc (suc n))))))))) b = omega arith

digit-digits : (n : ℕ) → all_digits (digit n) ≡ true
unfolding all_digits digit
digit-digits zero = refl
digit-digits (suc zero) = refl
digit-digits (suc (suc zero)) = refl
digit-digits (suc (suc (suc zero))) = refl
digit-digits (suc (suc (suc (suc zero)))) = refl
digit-digits (suc (suc (suc (suc (suc zero))))) = refl
digit-digits (suc (suc (suc (suc (suc (suc zero)))))) = refl
digit-digits (suc (suc (suc (suc (suc (suc (suc zero))))))) = refl
digit-digits (suc (suc (suc (suc (suc (suc (suc (suc zero)))))))) = refl
digit-digits (suc (suc (suc (suc (suc (suc (suc (suc (suc n))))))))) = refl

-- One round of `digits`.
value-choice :
    (fuel n : ℕ) (b : Bool)
    → ltb n 10 ≡ b
    → (10 ≤ n → value 0 (digits fuel (n / 10)) ≡ n / 10)
    → value 0 (if b then digit n else digits fuel (n / 10) ++ digit (n % 10)) ≡ n
value-choice fuel n true e rest = value-digit 0 n (ground (arith, e)) ∙ omega arith
value-choice fuel n false e rest =
    value-append 0 (digits fuel (n / 10)) (digit (n % 10))
    ∙ (value-digit _ (n % 10) (omega arith) ∙ rw (rest (ground (arith, e))) (omega arith))

value-digits : (fuel n : ℕ) → n < fuel → value 0 (digits fuel n) ≡ n
unfolding digits
value-digits zero n b = omega arith
value-digits (suc fuel) n b =
    value-choice fuel n (ltb n 10) refl (λ big. value-digits fuel (n / 10) (omega arith))

choice-digits :
    (fuel n : ℕ) (b : Bool)
    → all_digits (digits fuel (n / 10)) ≡ true
    → all_digits (if b then digit n else digits fuel (n / 10) ++ digit (n % 10)) ≡ true
choice-digits fuel n true rest = digit-digits n
choice-digits fuel n false rest =
    digits-append (digits fuel (n / 10)) (digit (n % 10)) rest (digit-digits (n % 10))

digits-digits : (fuel n : ℕ) → all_digits (digits fuel n) ≡ true
unfolding digits
digits-digits zero n = unfold all_digits in refl
digits-digits (suc fuel) n = choice-digits fuel n (ltb n 10) (digits-digits fuel (n / 10))

-- `strconv.Atoi` on what `itoa` writes.
unfoldable pub atoi : String → ℤ
unfolding value
atoi String.[] = pos 0
atoi (String.◌∷◌ c s) =
    if code c == 45 then negsuc (value 0 s - 1) else pos (value 0 (String.◌∷◌ c s))

atoi-digits : (s : String) → all_digits s ≡ true → atoi s ≡ pos (value 0 s)
unfolding atoi value all_digits
atoi-digits String.[] d = refl
atoi-digits (String.◌∷◌ c s) d = ground (arith, d)

signed : (s : String) → "-" ++ s ≡ String.◌∷◌ (char 45 tt) s
signed s = cons (char 45 tt) "" s ∙ ap (λ t. String.◌∷◌ (char 45 tt) t) (nil s)

atoi-signed : (s : String) → atoi ("-" ++ s) ≡ negsuc (value 0 s - 1)
unfolding atoi
atoi-signed s = rw (signed s) refl

pub atoi-itoa : (n : ℤ) → atoi (itoa n) ≡ n
unfolding itoa
atoi-itoa (pos n) =
    atoi-digits (digits (suc n) n) (digits-digits (suc n) n)
    ∙ ap pos (value-digits (suc n) n (omega arith))
atoi-itoa (negsuc n) =
    atoi-signed (digits (suc (suc n)) (suc n))
    ∙ ap (λ m. negsuc (m - 1)) (value-digits (suc (suc n)) (suc n) (omega arith))
    ∙ ap negsuc (omega arith)

-- A text of digits and signs has no other character.
unfoldable pub lacks : ℕ → String → Bool
lacks k String.[] = true
lacks k (String.◌∷◌ c s) = let rest = lacks k s in not (code c == k) && rest

digits-lacks : (k : ℕ) (s : String) → k < 45 → all_digits s ≡ true → lacks k s ≡ true
unfolding lacks all_digits
digits-lacks k String.[] b d = refl
digits-lacks k (String.◌∷◌ c s) b d = ground (arith, b, d, digits-lacks k s)

lacks-signed : (k : ℕ) (s : String) → k < 45 → lacks k s ≡ true → lacks k ("-" ++ s) ≡ true
unfolding lacks
lacks-signed k s b l = rw (signed s) (ground (arith, b, l))

pub itoa-lacks : (k : ℕ) (n : ℤ) → k < 45 → lacks k (itoa n) ≡ true
unfolding itoa
itoa-lacks k (pos n) b = digits-lacks k (digits (suc n) n) b (digits-digits (suc n) n)
itoa-lacks k (negsuc n) b =
    lacks-signed k (digits (suc (suc n)) (suc n)) b
      (digits-lacks k (digits (suc (suc n)) (suc n)) b (digits-digits (suc (suc n)) (suc n)))
