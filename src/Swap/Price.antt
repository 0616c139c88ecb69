-- ===== src/Swap/Price.antt =====
-- The price that a pool gives.
use native.Mathlib.Nat.{mul-div_cancel, div-le_of_le-mul, div-lt_iff_lt-mul, div-mul-le_self}
use okexchain.Base.{
  ℕ, ◌+◌, ◌-◌, ◌*◌, ◌/◌, ◌≤◌, ◌<◌, ◌≡◌, ◌∙◌, ap, pos, arith, ℤ, ◌+ℤ◌, ◌-ℤ◌, int_laws,
}
use okexchain.Sdk.{DecMath}
use okexchain.Common.{mul_and_quo}
use okexchain.Common.Exact.{mul_and_quo-exact}
use okexchain.Swap.{get_input_price, thousand}

-- What counts of an input of `x` units after the fee, a thousandfold: `unit - fee` of every `unit`.
abbrev pub with_fee : ℕ → ℕ → ℕ → ℕ
with_fee u fee x = x * ((u - fee) * 1000) / u

-- The output for an input of `x` units against reserves of `r` and `s`.
abbrev pub output : ℕ → ℕ → ℕ → ℕ → ℕ → ℕ
output u fee x r s = with_fee u fee x * s / (r * 1000 + with_fee u fee x)

pos-sub : (a b : ℕ) → b ≤ a → pos a -ℤ pos b ≡ pos (a - b)
pos-sub a b h = omega int_laws

pos-add : (a b : ℕ) → pos a +ℤ pos b ≡ pos (a + b)
pos-add a b = omega int_laws

-- On numbers that are not negative, with a fee rate of at most one and a reserve to sell into.
pub get_input_price-output :
    (m : DecMath) (x r s fee : ℕ)
    → fee ≤ m.unit
    → 0 < r
    → get_input_price m (pos x) (pos r) (pos s) (pos fee) ≡ pos (output m.unit fee x r s)
unfolding get_input_price
get_input_price-output m x r s fee h hr =
    let u = m.unit in
    let f : (u - fee) * (1000 * u) / u ≡ (u - fee) * 1000 =
      ap (λ n. n / u) (omega arith) ∙ mul-div_cancel ((u - fee) * 1000) m.unit_pos in
    let g : r * (1000 * u) / u ≡ r * 1000 =
      ap (λ n. n / u) (omega arith) ∙ mul-div_cancel (r * 1000) m.unit_pos in
    let price = λ (rate : ℤ).
      let i = m.mul_truncate (pos x) rate in
      mul_and_quo m i (pos s) (m.mul_truncate (pos r) (thousand m) +ℤ i) in
    ap price (
      ap (λ n. m.mul_truncate n (thousand m)) (pos-sub u fee h)
      ∙ m.mul_truncate-pos (u - fee) (1000 * u)
      ∙ ap pos f)
    ∙ ap (λ i. mul_and_quo m i (pos s) (m.mul_truncate (pos r) (thousand m) +ℤ i))
        (m.mul_truncate-pos x ((u - fee) * 1000))
    ∙ ap (λ n. mul_and_quo m (pos (with_fee u fee x)) (pos s) (n +ℤ pos (with_fee u fee x)))
        (m.mul_truncate-pos r (1000 * u) ∙ ap pos g)
    ∙ ap (mul_and_quo m (pos (with_fee u fee x)) (pos s)) (pos-add (r * 1000) (with_fee u fee x))
    ∙ mul_and_quo-exact m (with_fee u fee x) s (r * 1000 + with_fee u fee x) (omega arith)

with_fee-le : (u fee x : ℕ) → 0 < u → with_fee u fee x ≤ 1000 * x
with_fee-le u fee x hu = div-le_of_le-mul u (omega (arith, mul-le-mul_left x (sub-mul-le u fee)))
  where
    sub-mul-le : (a b : ℕ) → (a - b) * 1000 ≤ a * 1000
    sub-mul-le a b = omega arith

    mul-le-mul_left : (a : ℕ) {b c : ℕ} → b ≤ c → a * b ≤ a * c
    mul-le-mul_left a h = grind arith

-- The numbers alone: `w` counts of a thousandfold input of `x` at most, and `y` is paid out.
product_grows :
    (w x r y z : ℕ) → w ≤ 1000 * x → y * (r * 1000 + w) ≤ w * (y + z) → r * (y + z) ≤ (r + x) * z
product_grows w x r y z h k = omega (arith, scale w (1000 * x) z h)
  where
    scale : (a b c : ℕ) → a ≤ b → a * c ≤ b * c
    scale a b c p = grind arith

output-lt : (u fee x r s : ℕ) → 0 < r → 0 < s → output u fee x r s < s
output-lt u fee x r s hr hs =
    (div-lt_iff_lt-mul (omega arith)).1 (strict (with_fee u fee x) (r * 1000) s (omega arith) hs)
  where
    strict : (w k n : ℕ) → 0 < k → 0 < n → w * n < n * (k + w)
    strict w k n hk hn = grind (arith, le_mul n k)
      where
        le_mul : (a b : ℕ) → 0 < b → a ≤ a * b
        le_mul a b h = grind arith

-- A swap against a pool with both reserves positive, at a fee rate of at most one, pays out less
-- than the reserve, and the product of the two reserves does not fall, whatever is rounded.
pub get_input_price-product :
    (m : DecMath) (x r s fee : ℕ)
    → fee ≤ m.unit
    → 0 < r
    → 0 < s
    → (y : ℕ) × (get_input_price m (pos x) (pos r) (pos s) (pos fee) ≡ pos y)
      × (y < s)
      × (r * s ≤ (r + x) * (s - y))
get_input_price-product m x r s fee h hr hs =
    let y = output m.unit fee x r s in
    let w = with_fee m.unit fee x in
    let below : y < s = output-lt m.unit fee x r s hr hs in
    let split : y + (s - y) ≡ s = omega arith in
    (
      y,
      get_input_price-output m x r s fee h hr,
      below,
      rw split at (
          product_grows w x r y (s - y) (with_fee-le m.unit fee x m.unit_pos)
            (rw split (div-mul-le_self (w * s) (r * 1000 + w)))),
    )
