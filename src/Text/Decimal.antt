-- ===== src/Text/Decimal.antt =====
-- `toString` of a whole number or a BigInt, and `BigInt(text)`. Every stored balance and reserve
-- passes through the two. The white space and the `0x` forms that `BigInt` also reads are never
-- written by the program and are not in the model.
use saros_dlmm_indexer.Base.{
  ℕ, zero, suc, ◌+◌, ◌-◌, ◌*◌, ◌/◌, ◌%◌, ◌<◌, ◌≤◌, ◌≡◌, Bool, ◌&&◌, List, [], ◌∷◌, ◌++◌, Option,
  none, some, arith, ltb, leb, ◌==◌, if◌then◌else◌, Bool-cases, inl, inr, All, All-append, ap,
}
use saros_dlmm_indexer.Base.Int.{ℤ, pos, negsuc}
use mathlib.Core.Option

-- The decimal digits, by division; the fuel is one more than the number.
unfoldable pub digits : ℕ → ℕ → List ℕ
digits zero n = []
digits (suc f) n =
    let rest = digits f (n / 10) in if ltb n 10 then (48 + n) ∷ [] else rest ++ (48 + n % 10) ∷ []

unfoldable pub nat_to_text : ℕ → List ℕ
unfolding digits
nat_to_text n = digits (suc n) n

unfoldable pub int_to_text : ℤ → List ℕ
unfolding nat_to_text
int_to_text (pos n) = nat_to_text n
int_to_text (negsuc n) = b'-' ∷ nat_to_text (suc n)

unfoldable pub is_digit : ℕ → Bool
is_digit c = leb 48 c && leb c 57

unfoldable pub read_digits : List ℕ → ℕ → Option ℕ
unfolding is_digit
read_digits [] acc = some acc
read_digits (c ∷ s) acc = if is_digit c then read_digits s (acc * 10 + (c - 48)) else none

-- At least one digit.
unfoldable pub read_nat : List ℕ → Option ℕ
unfolding read_digits
read_nat [] = none
read_nat (c ∷ s) = read_digits (c ∷ s) 0

unfoldable pub negative : ℕ → ℤ
negative zero = pos 0
negative (suc n) = negsuc n

-- `BigInt(text)`; `none` is a SyntaxError.
unfoldable pub read_int : List ℕ → Option ℤ
unfolding read_nat negative
read_int [] = some (pos 0)
read_int (c ∷ s) =
    if c == b'-'
    then Option.map negative (read_nat s)
    else if c == b'+'
    then Option.map pos (read_nat s)
    else Option.map pos (read_digits (c ∷ s) 0)

abbrev pub IsDigit : ℕ → Type 0
IsDigit c = (48 ≤ c) × (c ≤ 57)

digits-IsDigit : (f n : ℕ) → All IsDigit (digits f n)
unfolding digits
digits-IsDigit zero n = tt
digits-IsDigit (suc f) n = elim (Bool-cases (ltb n 10)) [
  | inl small ↦ rw small (ground arith)
  | inr large ↦ rw large (
      All-append IsDigit (digits f (n / 10)) ((48 + n % 10) ∷ []) (digits-IsDigit f (n / 10))
        (ground arith))
]

-- A printed number is made of digits.
pub nat_to_text-IsDigit : (n : ℕ) → All IsDigit (nat_to_text n)
unfolding nat_to_text
nat_to_text-IsDigit n = digits-IsDigit (suc n) n

pub read_digits-append :
    (s t : List ℕ) (acc : ℕ) {n : ℕ}
    → read_digits s acc ≡ some n
    → read_digits (s ++ t) acc ≡ read_digits t n
unfolding read_digits
read_digits-append [] t acc h = ground arith
read_digits-append (c ∷ s) t acc h = elim (Bool-cases (is_digit c)) [
  | inl digit ↦ rw digit (read_digits-append s t (acc * 10 + (c - 48)) (rw digit at h))
  | inr other ↦ ground arith
]

read_digits_one : (acc n : ℕ) → n < 10 → read_digits ((48 + n) ∷ []) acc ≡ some (acc * 10 + n)
unfolding read_digits
read_digits_one acc n h = ground arith

read_digits-digits : (f n : ℕ) → n < f → read_digits (digits f n) 0 ≡ some n
unfolding digits
read_digits-digits zero n h = elim h [ ]
read_digits-digits (suc f) n h = elim (Bool-cases (ltb n 10)) [
  | inl small ↦ rw (small, read_digits_one 0 n (ground arith)) (ground arith)
  | inr large ↦
      let whole = read_digits-digits f (n / 10) (ground arith) in
      rw
        (
          large,
          read_digits-append (digits f (n / 10)) ((48 + n % 10) ∷ []) 0 whole,
          read_digits_one (n / 10) (n % 10) (omega arith),
        )
        (ground arith)
]

-- What a natural prints reads back as that natural.
pub read_digits-nat_to_text : (n : ℕ) → read_digits (nat_to_text n) 0 ≡ some n
unfolding nat_to_text
read_digits-nat_to_text n = read_digits-digits (suc n) n (omega arith)

read_int_pos :
    (s : List ℕ) (n : ℕ) → All IsDigit s → read_digits s 0 ≡ some n → read_int s ≡ some (pos n)
unfolding read_int read_digits
read_int_pos [] n d h = ground arith
read_int_pos (c ∷ s) n d h = ground arith

read_int_neg :
    (s : List ℕ) (n : ℕ) → read_digits s 0 ≡ some (suc n) → read_int (b'-' ∷ s) ≡ some (negsuc n)
unfolding read_int read_digits
read_int_neg [] n h = ground arith
read_int_neg (c ∷ s) n h = ground arith

-- `BigInt(z.toString())` is `z`, for every BigInt.
pub read_int-int_to_text : (z : ℤ) → read_int (int_to_text z) ≡ some z
unfolding int_to_text
read_int-int_to_text (pos n) =
    read_int_pos (nat_to_text n) n (nat_to_text-IsDigit n) (read_digits-nat_to_text n)
read_int-int_to_text (negsuc n) =
    read_int_neg (nat_to_text (suc n)) n (read_digits-nat_to_text (suc n))

-- Two numbers with one text are equal.
pub nat_to_text-injective : (m n : ℕ) → nat_to_text m ≡ nat_to_text n → m ≡ n
nat_to_text-injective m n e =
    ground
      (arith, read_digits-nat_to_text m, read_digits-nat_to_text n, ap (λ s. read_digits s 0) e)
