-- ===== src/Prices/Decimals/RoundTrip.antt =====
-- The decimal that `normalizeAmount` writes is read back.
use native.Mathlib.Nat.{
  mul_comm, mul_assoc, pow-suc, mul-div_cancel, div-add-mod, mod-lt, one-le-pow,
  mul-lt-mul_of_pos_right, eq_of_mul-eq-mul_right,
}
use mathlib.Core.Option
use mathlib.Core.List.{append-nil}
use saros_dlmm_indexer.Base.{
  ℕ, zero, suc, ◌+◌, ◌-◌, ◌*◌, ◌/◌, ◌%◌, ◌^◌, ◌≤◌, ◌<◌, ◌≡◌, ◌∙◌, refl, ap, sym, true, false, [],
  ◌∷◌, ◌++◌, length, length-append, ◌==◌, ltb, if◌then◌else◌, Option, none, some, arith, All,
  Bool-cases, inl, inr,
}
use saros_dlmm_indexer.Text.{Text}
use saros_dlmm_indexer.Text.Decimal.{
  nat_to_text, digits, is_digit, read_digits, IsDigit, nat_to_text-IsDigit, read_digits-nat_to_text,
}
use saros_dlmm_indexer.Prices.Rounding.{pow_add}
use saros_dlmm_indexer.Prices.Decimals.{
  zeros, pad_start, drop_zero, strip_zeros, with_fraction, normalize_amount,
}

-- A decimal is read as a whole number and the count of its places.
unfoldable pub read_decimal : ℕ → Text → Option (ℕ × ℕ)
unfolding is_digit
read_decimal acc [] = some (acc, 0)
read_decimal acc (c ∷ s) =
    let rest = read_decimal (acc * 10 + (c - 48)) s in
    if c == b'.'
    then Option.map (λ v. (v, length s)) (read_digits s acc)
    else if is_digit c
    then rest
    else none

read_decimal_whole :
    (s t : Text) (acc n : ℕ)
    → All IsDigit s
    → read_digits s acc ≡ some n
    → read_decimal acc (s ++ t) ≡ read_decimal n t
unfolding read_decimal read_digits is_digit
read_decimal_whole [] t acc n d h = ap (λ a. read_decimal a t) (cc)
read_decimal_whole (c ∷ s) t acc n d h =
    let other : c == b'.' ≡ false = ground (arith, d.0) in
    let digit : is_digit c ≡ true = ground (arith, d.0) in
    rw (other, digit) (read_decimal_whole s t (acc * 10 + (c - 48)) n d.1 (rw digit at h))

next_place : (b k : ℕ) → b * 10 * 10 ^ k ≡ b * 10 ^ suc k
next_place b k =
    mul_assoc b 10 (10 ^ k) ∙ ap (λ p. b * p) (mul_comm 10 (10 ^ k) ∙ sym (pow-suc 10 k))

-- Digits read on from another start.
pub read_digits_shift :
    (s : Text) (acc b n : ℕ)
    → read_digits s acc ≡ some n
    → read_digits s (acc + b) ≡ some (n + b * 10 ^ length s)
unfolding read_digits
read_digits_shift [] acc b n h = let e : acc ≡ n = cc in ap some (omega arith)
read_digits_shift (c ∷ s) acc b n h = elim (Bool-cases (is_digit c)) [
  | inl digit ↦
      let k = c - 48 in
      let e : (acc + b) * 10 + k ≡ acc * 10 + k + b * 10 = omega arith in
      rw digit (
        ap (read_digits s) e
        ∙ read_digits_shift s (acc * 10 + k) (b * 10) n (rw digit at h)
        ∙ ap (λ p. some (n + p)) (next_place b (length s)))
  | inr other ↦ cc (rw other at h)
]

read_digits-zeros : (k : ℕ) (s : Text) → read_digits (zeros k ++ s) 0 ≡ read_digits s 0
unfolding read_digits is_digit
read_digits-zeros zero s = refl
read_digits-zeros (suc k) s = read_digits-zeros k s

length-zeros : (k : ℕ) → length (zeros k) ≡ k
length-zeros zero = refl
length-zeros (suc k) = omega (arith, length-zeros k)

stripped :
    (c acc v z n l : ℕ) (r : Text)
    → is_digit c ≡ true
    → read_digits r (acc * 10 + (c - 48)) ≡ some v
    → n ≡ v * 10 ^ z
    → l ≡ length r + z
    → (v' : ℕ) × (z' : ℕ) × (read_digits (drop_zero c r) acc ≡ some v')
      × (n ≡ v' * 10 ^ z')
      × (suc l ≡ length (drop_zero c r) + z')
unfolding read_digits
stripped c acc v z n l (d ∷ r) digit reads e k = (v, z, rw digit reads, e, omega arith)
stripped c acc v z n l [] digit reads e k = elim (Bool-cases (c == b'0')) [
  | inl nought ↦
      let w : acc * 10 ≡ v = ground arith in
      (
        acc,
        suc z,
        rw nought refl,
        e ∙ ap (λ p. p * 10 ^ z) (sym w) ∙ next_place acc z,
        rw nought (omega arith),
      )
  | inr other ↦ (v, z, rw (other, digit) reads, e, rw other (omega arith))
]

-- The zeros that are stripped are factors of ten.
strip_zeros_lem :
    (s : Text) (acc n : ℕ)
    → read_digits s acc ≡ some n
    → (v : ℕ) × (z : ℕ) × (read_digits (strip_zeros s) acc ≡ some v)
      × (n ≡ v * 10 ^ z)
      × (length s ≡ length (strip_zeros s) + z)
unfolding strip_zeros read_digits
strip_zeros_lem [] acc n h = (n, 0, h, omega arith, omega arith)
strip_zeros_lem (c ∷ s) acc n h = elim (Bool-cases (is_digit c)) [
  | inl digit ↦
      let (v, z, reads, e, l) = strip_zeros_lem s (acc * 10 + (c - 48)) n (rw digit at h) in
      stripped c acc v z n (length s) (strip_zeros s) digit reads e l
  | inr other ↦ cc (rw other at h)
]

length-digits : (f n k : ℕ) → n < 10 ^ suc k → length (digits f n) ≤ suc k
unfolding digits
length-digits zero n k h = omega arith
length-digits (suc f) n zero h = elim (Bool-cases (ltb n 10)) [
  | inl small ↦ rw small (omega arith)
  | inr large ↦ absurd (ground (arith, large))
]
length-digits (suc f) n (suc k) h = elim (Bool-cases (ltb n 10)) [
  | inl small ↦ rw small (omega arith)
  | inr large ↦
      let less : n / 10 < 10 ^ suc k = omega (arith, pow-suc 10 (suc k)) in
      rw large (
        omega (
          arith,
          length-append (digits f (n / 10)) ((48 + n % 10) ∷ []),
          length-digits f (n / 10) k less,
        ))
]

read_decimal-nat_to_text :
    (n : ℕ) (t : Text) → read_decimal 0 (nat_to_text n ++ t) ≡ read_decimal n t
read_decimal-nat_to_text n t =
    read_decimal_whole (nat_to_text n) t 0 n (nat_to_text-IsDigit n) (read_digits-nat_to_text n)

read_whole : (n : ℕ) → read_decimal 0 (nat_to_text n) ≡ some (n, 0)
unfolding read_decimal
read_whole n =
    ap (read_decimal 0) (sym (append-nil (nat_to_text n))) ∙ read_decimal-nat_to_text n []

read_with_fraction :
    (whole v : ℕ) (r : Text)
    → read_digits r whole ≡ some v
    → read_decimal 0 (with_fraction whole r) ≡ some (v, length r)
unfolding with_fraction read_digits read_decimal
read_with_fraction whole v [] h = read_whole whole ∙ ap (λ n. some (n, 0)) (cc)
read_with_fraction whole v (c ∷ s) h =
    read_decimal-nat_to_text whole (b'.' ∷ c ∷ s) ∙ ap (Option.map (λ n. (n, length (c ∷ s)))) h

-- The 18 digits of a fraction.
padded :
    (frac : ℕ)
    → frac < 10 ^ 18
    → let t = pad_start 18 (nat_to_text frac) in (read_digits t 0 ≡ some frac) × (length t ≡ 18)
unfolding nat_to_text
padded frac h =
    let width = length (nat_to_text frac) in
    (
      read_digits-zeros (18 - width) (nat_to_text frac) ∙ read_digits-nat_to_text frac,
      omega (
        arith,
        length-append (zeros (18 - width)) (nat_to_text frac),
        length-zeros (18 - width),
        length-digits (suc frac) frac 17 h,
      ),
    )

-- What `fractional_part` holds, where the token has at most 18 decimals.
fraction_exact :
    (rem d : ℕ)
    → d ≤ 18
    → rem < 10 ^ d
    → (rem * 10 ^ 18 / 10 ^ d ≡ rem * 10 ^ (18 - d)) × (rem * 10 ^ (18 - d) < 10 ^ 18)
fraction_exact rem d le less =
    let split : 10 ^ 18 ≡ 10 ^ d * 10 ^ (18 - d) =
      (let e : 18 ≡ d + (18 - d) = omega arith in ap (λ k. 10 ^ k) e) ∙ pow_add 10 d (18 - d) in
    (
      ap (λ p. p / 10 ^ d) (omega (arith, ap (λ p. rem * p) split))
          ∙ mul-div_cancel (rem * 10 ^ (18 - d)) (one-le-pow d 10 (omega arith)),
      omega (arith, split, mul-lt-mul_of_pos_right less (one-le-pow (18 - d) 10 (omega arith))),
    )

same_value :
    (a d whole rem v k z : ℕ)
    → d ≤ 18
    → 10 ^ d * whole + rem ≡ a
    → rem * 10 ^ (18 - d) + whole * 10 ^ 18 ≡ v * 10 ^ z
    → 18 ≡ k + z
    → v * 10 ^ d ≡ a * 10 ^ k
same_value a d whole rem v k z le parts value places =
    let e : 18 ≡ d + (18 - d) = omega arith in
    let split : 10 ^ 18 ≡ 10 ^ d * 10 ^ (18 - d) = ap (λ k. 10 ^ k) e ∙ pow_add 10 d (18 - d) in
    let again : 10 ^ 18 ≡ 10 ^ k * 10 ^ z = ap (λ k. 10 ^ k) places ∙ pow_add 10 k z in
    eq_of_mul-eq-mul_right (10 ^ z) (one-le-pow z 10 (omega arith)) (v * 10 ^ d) (a * 10 ^ k) (
      omega (
        arith,
        ap (λ p. p * 10 ^ d) value,
        ap (λ p. a * p) again,
        ap (λ p. a * p) split,
        ap (λ p. p * 10 ^ 18) parts,
        ap (λ p. rem * p) split,
      ))

-- A decimal that is read back is the amount in whole tokens, to the last unit, for a token with at most
-- 18 decimals: it has `k` places and the digits `v`, and v / 10 ^ k is amount / 10 ^ decimals.
pub read_decimal-normalize_amount :
    (amount decimals : ℕ)
    → decimals ≤ 18
    → (v : ℕ) × (k : ℕ) × (read_decimal 0 (normalize_amount amount decimals) ≡ some (v, k))
      × (v * 10 ^ decimals ≡ amount * 10 ^ k)
unfolding normalize_amount
read_decimal-normalize_amount amount decimals le =
    let whole = amount / 10 ^ decimals in
    let rem = amount % 10 ^ decimals in
    let parts : 10 ^ decimals * whole + rem ≡ amount = div-add-mod amount (10 ^ decimals) in
    elim (Bool-cases (rem == 0)) [
      | inl even ↦
          let nothing : rem ≡ 0 = ground (arith, even) in
          (whole, 0, rw even (read_whole whole), omega arith)
      | inr more ↦
          let (exact, less) =
            fraction_exact rem decimals le (mod-lt amount (one-le-pow decimals 10 (omega arith))) in
          let frac = rem * 10 ^ (18 - decimals) in
          let t = pad_start 18 (nat_to_text frac) in
          let start : whole ≡ 0 + whole = omega arith in
          let (reads, width) = padded frac less in
          let (v, z, stripped_reads, value, places) =
            strip_zeros_lem t whole (frac + whole * 10 ^ length t)
              (ap (read_digits t) start ∙ read_digits_shift t 0 whole frac reads) in
          (
            v,
            length (strip_zeros t),
            rw (more, exact) (read_with_fraction whole v (strip_zeros t) stripped_reads),
            same_value amount decimals whole rem v (length (strip_zeros t)) z le parts
                (omega (arith, value, ap (λ w. whole * 10 ^ w) width))
                (omega (arith, places, width)),
          )
    ]
