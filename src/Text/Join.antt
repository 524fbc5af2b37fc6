-- ===== src/Text/Join.antt =====
-- Ids are built by template literals such as `${pair}-${binId}`: parts with a dash between them.
use saros_dlmm_indexer.Base.{ℕ, ◌≡◌, refl, ◌≢◌, List, [], ◌∷◌, ◌++◌, arith, All}
use saros_dlmm_indexer.Text.Decimal.{nat_to_text, nat_to_text-IsDigit, IsDigit}

-- `${a}-${b}`
abbrev pub join : List ℕ → List ℕ → List ℕ
join a b = a ++ (b'-' ∷ b)

-- A text with no dash, as a base58 address, a number and a processor's name are.
abbrev pub NoDash : List ℕ → Type 0
NoDash = All (λ c. c ≢ b'-')

digits-NoDash : (s : List ℕ) → All IsDigit s → NoDash s
digits-NoDash [] h = tt
digits-NoDash (c ∷ s) (d, h) = (omega arith, digits-NoDash s h)

pub nat_to_text-NoDash : (n : ℕ) → NoDash (nat_to_text n)
nat_to_text-NoDash n = digits-NoDash (nat_to_text n) (nat_to_text-IsDigit n)

-- The first dash splits the text: nothing is lost in the join.
pub join-injective :
    (a a' b b' : List ℕ) → NoDash a → NoDash a' → join a b ≡ join a' b' → (a ≡ a') × (b ≡ b')
join-injective [] [] b b' h h' e = (refl, cc)
join-injective [] (c ∷ a') b b' h h' e = absurd (h'.0 (ground arith))
join-injective (c ∷ a) [] b b' h h' e = absurd (h.0 (ground arith))
join-injective (c ∷ a) (c' ∷ a') b b' h h' e =
    let (p, q) = join-injective a a' b b' h.1 h'.1 (cc) in (ground arith, q)

-- Behind one prefix the rests are told apart, whatever the prefix holds.
pub join-cancel : (a s t : List ℕ) → join a s ≡ join a t → s ≡ t
join-cancel [] s t e = cc
join-cancel (c ∷ a) s t e = join-cancel a s t (cc)
