-- ===== src/Common/Exact.antt =====
-- The rounding of MulAndQuo (x/common/util.go).
use native.Mathlib.Nat.{mul-div_cancel, div-div-eq-div-mul, mul-div-mul_right}
use okexchain.Base.{ℕ, ◌*◌, ◌/◌, ◌<◌, ◌≡◌, ◌∙◌, ap, pos, arith}
use okexchain.Sdk.{DecMath}
use okexchain.Common.{mul_and_quo}

one_rounding :
    (u a b c : ℕ) → 0 < u → 0 < c → a * (u * u) / u * b / u * u / c * u / (u * u) ≡ a * b / c
one_rounding u a b c hu hc =
    let first : a * (u * u) / u ≡ a * u =
      ap (λ n. n / u) (omega arith) ∙ mul-div_cancel (a * u) hu in
    let second : a * u * b / u ≡ a * b =
      ap (λ n. n / u) (omega arith) ∙ mul-div_cancel (a * b) hu in
    rw (first, second)
      (mul-div-mul_right (a * b * u / c) u hu
        ∙ div-div-eq-div-mul (a * b * u) c u
        ∙ mul-div-mul_right (a * b) c hu)

-- On numbers that are not negative, the divisor above zero, MulAndQuo is the product of two divided by the third, rounded
-- down once, at the smallest unit: the intermediate steps lose nothing.
pub mul_and_quo-exact :
    (m : DecMath) (a b c : ℕ) → 0 < c → mul_and_quo m (pos a) (pos b) (pos c) ≡ pos (a * b / c)
unfolding mul_and_quo
mul_and_quo-exact m a b c h =
    let u = m.unit in
    let squared : 0 < u * u = grind (arith, m.unit_pos) in
    let scaled = a * (u * u) / u in
    let aux = pos (u * u) in
    ap (λ n. m.quo_truncate (m.quo_truncate (m.mul_truncate n (pos b)) (pos c)) aux)
      (m.mul_truncate-pos a (u * u))
    ∙ ap (λ n. m.quo_truncate (m.quo_truncate n (pos c)) aux) (m.mul_truncate-pos scaled b)
    ∙ ap (λ n. m.quo_truncate n aux) (m.quo_truncate-pos (scaled * b / u) c h)
    ∙ m.quo_truncate-pos (scaled * b / u * u / c) (u * u) squared
    ∙ ap pos (one_rounding u a b c m.unit_pos h)
