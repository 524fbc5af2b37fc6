-- ===== src/Prices/Rounding.antt =====
-- The powers of `powQ64` are rounded down.
use native.Mathlib.Nat.{
  mul-le-mul_left, mul-le-mul_right, div-mul-le_self, pow-suc, pow-le-pow_left, mul-mul-mul_comm,
  mul_assoc, pow-zero, one-mul,
}
use native.Mathlib.Numerals.{unary_clauses}
use saros_dlmm_indexer.Base.{
  ℕ, zero, suc, Bool, true, false, some, ◌+◌, ◌*◌, ◌/◌, ◌%◌, ◌^◌, ◌==◌, ◌≡◌, ◌≤◌, ◌∙◌, refl, sym,
  ap, subst, arith, if◌then◌else◌, inl, inr, Bool-cases,
}
use saros_dlmm_indexer.Prices.{scale, pow_loop, pow_q64}

mul_pow : (a b h : ℕ) → (a * b) ^ h ≡ a ^ h * b ^ h
mul_pow a b zero = simp unary_clauses refl
mul_pow a b (suc h) =
    pow-suc (a * b) h
    ∙ ap (λ p. p * (a * b)) (mul_pow a b h)
    ∙ mul-mul-mul_comm (a ^ h) (b ^ h) a b
    ∙ ap (λ p. p * (b ^ h * b)) (sym (pow-suc a h))
    ∙ ap (λ p. a ^ suc h * p) (sym (pow-suc b h))

pub pow_add : (c g h : ℕ) → c ^ (g + h) ≡ c ^ g * c ^ h
pow_add c zero h =
    let e : zero + h ≡ h = omega arith in
    ap (λ k. c ^ k) e ∙ sym (ap (λ p. p * c ^ h) (pow-zero c) ∙ one-mul (c ^ h))
pow_add c (suc g) h =
    let e : suc g + h ≡ suc (g + h) = omega arith in
    ap (λ k. c ^ k) e
    ∙ pow-suc c (g + h)
    ∙ ap (λ p. p * c) (pow_add c g h)
    ∙ mul_swap (c ^ g) (c ^ h) c
    ∙ ap (λ p. p * c ^ h) (sym (pow-suc c g))
  where
    mul_swap : (x y z : ℕ) → x * y * z ≡ x * z * y
    mul_swap x y z = omega arith

-- A round at an even exponent, whose square is rounded down.
even_round :
    (s n r c c' h : ℕ) → c' * s ≤ c * c → n * s ^ h ≤ r * c' ^ h → n * s ^ (h + h) ≤ r * c ^ (h + h)
even_round s n r c c' h squared le =
    let doubled : n * s ^ (h + h) ≡ n * s ^ h * s ^ h =
      ap (λ p. n * p) (pow_add s h h) ∙ sym (mul_assoc n (s ^ h) (s ^ h)) in
    let joined : r * c' ^ h * s ^ h ≡ r * (c' * s) ^ h =
      mul_assoc r (c' ^ h) (s ^ h) ∙ ap (λ p. r * p) (sym (mul_pow c' s h)) in
    let split : r * (c * c) ^ h ≡ r * c ^ (h + h) =
      ap (λ p. r * p) (mul_pow c c h ∙ sym (pow_add c h h)) in
    omega (
      arith,
      doubled,
      joined,
      split,
      mul-le-mul_right (s ^ h) le,
      mul-le-mul_left r (pow-le-pow_left squared h),
    )

-- The round before it at an odd exponent, whose product is rounded down.
odd_round :
    (s n r r' c k : ℕ) → r' * s ≤ r * c → n * s ^ k ≤ r' * c ^ k → n * s ^ suc k ≤ r * c ^ suc k
odd_round s n r r' c k product le = omega (
  arith,
  ap (λ p. n * p) (pow-suc s k),
  ap (λ p. r * p) (pow-suc c k),
  mul-le-mul_right s le,
  mul-le-mul_right (c ^ k) product,
)

zeroth : (s r c n : ℕ) → n ≡ r → n * s ^ zero ≤ r * c ^ zero
zeroth s r c n e = omega (arith, e, ap (λ p. n * p) (pow-zero s), ap (λ p. r * p) (pow-zero c))

twice_odd : (e : ℕ) → suc e % 2 == 1 ≡ true → suc (suc e / 2 + suc e / 2) ≡ suc e
twice_odd e odd = ground (arith, odd)

twice_even : (e : ℕ) → suc e % 2 == 1 ≡ false → suc e / 2 + suc e / 2 ≡ suc e
twice_even e even = ground (arith, even)

pow_loop_le : (fuel r c e n : ℕ) → pow_loop fuel r c e ≡ some n → n * scale ^ e ≤ r * c ^ e
unfolding pow_loop
pow_loop_le fuel r c zero n h = zeroth scale r c n cc
pow_loop_le zero r c (suc e) n h = cc
pow_loop_le (suc fuel) r c (suc e) n h =
    let k = suc e / 2 in
    let c' = c * c / scale in
    let rest : (b : Bool)
        → suc e % 2 == 1 ≡ b
        → pow_loop fuel (if b then r * c / scale else r) c' k ≡ some n =
      λ b eq. subst (λ b. pow_loop fuel (if b then r * c / scale else r) c' k ≡ some n) eq h in
    elim (Bool-cases (suc e % 2 == 1)) [
      | inl odd ↦
          let r' = r * c / scale in
          subst (λ e. n * scale ^ e ≤ r * c ^ e) (twice_odd e odd)
            (odd_round scale n r r' c (k + k) (div-mul-le_self (r * c) scale) (
              even_round scale n r' c c' k (div-mul-le_self (c * c) scale)
                (pow_loop_le fuel r' c' k n (rest true odd))))
      | inr even ↦
          subst (λ e. n * scale ^ e ≤ r * c ^ e) (twice_even e even)
            (even_round scale n r c c' k (div-mul-le_self (c * c) scale)
              (pow_loop_le fuel r c' k n (rest false even)))
    ]

first : (base n : ℕ) → n ≡ base → n * scale ^ 1 ≤ scale * base ^ 1
first base n e =
    let once : base ^ 1 ≡ base =
      pow-suc base zero ∙ ap (λ p. p * base) (pow-zero base) ∙ one-mul base in
    omega (arith, e, ap (λ p. scale * p) once)

-- A power that `powQ64` gives is at most the exact power of the Q64.64 number.
pub pow_q64_le : (base e n : ℕ) → pow_q64 base e ≡ some n → n * scale ^ e ≤ scale * base ^ e
unfolding pow_q64
pow_q64_le base zero n h = zeroth scale scale base n cc
pow_q64_le base (suc e) n h =
    let loop = pow_loop (suc e) scale base (suc e) in
    let positive : suc e == 0 ≡ false = ground arith in
    let not_zero =
      subst (λ z. (if z then some scale else if suc e == 1 then some base else loop) ≡ some n)
        positive h in
    let at : (b : Bool) → suc e == 1 ≡ b → (if b then some base else loop) ≡ some n =
      λ b eq. subst (λ b. (if b then some base else loop) ≡ some n) eq not_zero in
    elim (Bool-cases (suc e == 1)) [
      | inl one ↦
          let here = at true one in
          let only : zero ≡ e = ground (arith, one) in
          subst (λ e. n * scale ^ suc e ≤ scale * base ^ suc e) only (first base n cc)
      | inr not_one ↦ pow_loop_le (suc e) scale base (suc e) n (at false not_one)
    ]
