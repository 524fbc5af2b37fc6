-- ===== src/Prices/Bounds.antt =====
-- The prices lie on the right side of one.
use native.Mathlib.Nat.{le_trans, mul-le-mul_left, mul-le-mul_right, div-mul-le_self}
use saros_dlmm_indexer.Base.{
  ℕ, zero, suc, Bool, true, false, some, ◌-◌, ◌*◌, ◌/◌, ◌%◌, ◌==◌, ltb, leb, ◌&&◌, ◌≡◌, ◌≤◌, ◌∙◌,
  refl, ap, arith, if◌then◌else◌, inl, inr, Bool-cases,
}
use saros_dlmm_indexer.Prices.{
  middle_bin_id, scale, max_bin_step, pow_loop, pow_q64, base_of, price, inverse_price, above,
  below, get_price_from_id,
}

scale_le_div : (n : ℕ) → scale * scale ≤ n → scale ≤ n / scale
scale_le_div n h = omega (arith, h)

scaled_le : (a b : ℕ) → scale ≤ a → scale ≤ b → scale ≤ a * b / scale
scaled_le a b ha hb =
    scale_le_div (a * b) (le_trans (mul-le-mul_left scale hb) (mul-le-mul_right b ha))

pow_loop-some :
    (fuel r c e : ℕ)
    → e ≤ fuel
    → scale ≤ r
    → scale ≤ c
    → (n : ℕ) × (pow_loop fuel r c e ≡ some n) × (scale ≤ n)
unfolding pow_loop
pow_loop-some fuel r c zero le hr hc = (r, refl, hr)
pow_loop-some zero r c (suc e) le hr hc = absurd (omega (arith, le))
pow_loop-some (suc fuel) r c (suc e) le hr hc =
    pow_loop-some fuel _ (c * c / scale) (suc e / 2) (omega (arith, le))
      (choose (suc e % 2 == 1) (scaled_le r c hr hc) hr) (scaled_le c c hc hc)
  where
    choose : (b : Bool) {x y : ℕ} → scale ≤ x → scale ≤ y → scale ≤ (if b then x else y)
    choose true hx hy = hx
    choose false hx hy = hy

scale_le_base : (bin_step : ℕ) → scale ≤ base_of bin_step
scale_le_base bin_step = omega arith

pow_q64-some : (base e : ℕ) → scale ≤ base → (n : ℕ) × (pow_q64 base e ≡ some n) × (scale ≤ n)
unfolding pow_q64
pow_q64-some base e h = elim (Bool-cases (e == 0)) [
  | inl z ↦ (scale, rw z refl, omega arith)
  | inr not_zero ↦ elim (Bool-cases (e == 1)) [
    | inl one ↦ (base, rw (not_zero, one) refl, h)
    | inr not_one ↦
        let (n, eq, le) = pow_loop-some e scale base e (omega arith) (omega arith) h in
        (n, rw (not_zero, not_one) eq, le)
  ]
]

inverse_price_lem : (r : ℕ) → scale ≤ r → (n : ℕ) × (inverse_price r ≡ price n) × (n ≤ scale)
unfolding inverse_price
inverse_price_lem zero h = absurd (omega (arith, h))
inverse_price_lem (suc r) h =
    let q = scale * scale / suc r in
    (
      q,
      refl,
      omega (arith, le_trans (mul-le-mul_left q h) (div-mul-le_self (scale * scale) (suc r))),
    )

-- For a bin step between 1 and 100 every bin has a price: the powers need no more rounds than the
-- exponent and nothing is divided by zero. It is at least one from the middle bin upwards, and at most
-- one from the middle bin downwards.
pub get_price_from_id_lem :
    (bin_step id : ℕ)
    → 1 ≤ bin_step
    → bin_step ≤ max_bin_step
    → (n : ℕ) × (get_price_from_id bin_step id ≡ price n)
      × (middle_bin_id ≤ id → scale ≤ n)
      × (id ≤ middle_bin_id → n ≤ scale)
unfolding get_price_from_id above below
get_price_from_id_lem bin_step id low high =
    let is_valid : leb 1 bin_step && leb bin_step max_bin_step ≡ true = ground (arith, low, high) in
    elim (Bool-cases (id == middle_bin_id)) [
      | inl middle ↦ (scale, rw (is_valid, middle) refl, λ _. omega arith, λ _. omega arith)
      | inr other ↦ elim (Bool-cases (ltb middle_bin_id id)) [
        | inl up ↦
            let (n, eq, le) =
              pow_q64-some (base_of bin_step) (id - middle_bin_id) (scale_le_base bin_step) in
            (
              n,
              rw (is_valid, other, up) (ap above eq),
              λ _. le,
              λ h. absurd (ground (arith, up, h)),
            )
        | inr down ↦
            let (r, eq, le) =
              pow_q64-some (base_of bin_step) (middle_bin_id - id) (scale_le_base bin_step) in
            let (n, eq', le') = inverse_price_lem r le in
            (
              n,
              rw (is_valid, other, down) (ap below eq ∙ eq'),
              λ h. absurd (ground (arith, other, down, h)),
              λ _. le',
            )
      ]
    ]
