-- ===== src/Sdk/Coins.antt =====
-- Coins: what the SDK's sums and differences of coins come to, denomination by denomination.
use Prim.Native.String.{String}
use text.Mathlib.Text.{◌==◌ as string_eq}
use text.Mathlib.TextEquality.{eq_iff}
use okexchain.Base.{
  ◌≡◌, ◌≢◌, ◌⊎◌, ◌<ℤ◌, sym, ap, ◌∙◌, inl, inr, ℤ, pos, ◌+ℤ◌, ◌-ℤ◌, ◌≤ℤ◌, +ℤ_zero, int_laws, true,
  false, Bool-cases, Option-cases, [], ◌∷◌, none, some, arith, if◌then◌else◌,
}
use okexchain.Sdk.{SdkDec, Coin, coin, CoinMath, amount_of}

-- What one coin holds of a denomination.
abbrev pub held : String → Coin → SdkDec
held d x = if string_eq x.denom d then x.amount else pos 0

module _ (c : CoinMath) where
  open c use {coin_add, coin_sub}

  at_denom : (x y : Coin) → string_eq x.denom y.denom ≡ true → y ≡ coin x.denom y.amount
  at_denom x y h =
      let e : x.denom ≡ y.denom = (eq_iff x.denom y.denom).0 h in
      λ i. record { denom = sym e i; amount = y.amount }

  differ : (x y : Coin) → string_eq x.denom y.denom ≡ false → x.denom ≢ y.denom
  differ x y h e = cc ((eq_iff x.denom y.denom).1 e)

  pub coin_add-some :
      (x y z : Coin)
      → coin_add x y ≡ some z
      → (y ≡ coin x.denom y.amount) × (z ≡ coin x.denom (x.amount +ℤ y.amount))
  coin_add-some x y z h = elim (Bool-cases (string_eq x.denom y.denom)) [
    | inl same ↦ let e = at_denom x y same in (e, cc (c.coin_add-same x.denom x.amount y.amount))
    | inr other ↦ cc (c.coin_add-ne x y (differ x y other))
  ]

  pub coin_add-held :
      (x y z : Coin) (d : String) → coin_add x y ≡ some z → held d z ≡ held d x +ℤ held d y
  coin_add-held x y z d h =
      let (e, f) = coin_add-some x y z h in
      rw (e, f)
        (elim (Bool-cases (string_eq x.denom d)) [ inl t ↦ rw t | inr t ↦ rw t (omega int_laws) ])

  leq_or_lt : (a b : ℤ) → (b ≤ℤ a) ⊎ (a <ℤ b)
  leq_or_lt a b = omega arith

  pub coin_sub-some :
      (x y z : Coin)
      → coin_sub x y ≡ some z
      → (y ≡ coin x.denom y.amount) × (z ≡ coin x.denom (x.amount -ℤ y.amount))
  coin_sub-some x y z h = elim (Bool-cases (string_eq x.denom y.denom)) [
    | inr other ↦ cc (c.coin_sub-ne x y (differ x y other))
    | inl same ↦
        let e = at_denom x y same in
        elim (leq_or_lt x.amount y.amount) [
          | inl le ↦ (e, cc (c.coin_sub-same x.denom x.amount y.amount le))
          | inr lt ↦ cc (c.coin_sub-short x.denom x.amount y.amount lt)
        ]
  ]

  pub coin_sub-le : (x y z : Coin) → coin_sub x y ≡ some z → y.amount ≤ℤ x.amount
  coin_sub-le x y z h =
      let (e, _) = coin_sub-some x y z h in
      elim (leq_or_lt x.amount y.amount) [
        | inl le ↦ le
        | inr lt ↦
            let short : coin_sub x y ≡ none =
              ap (coin_sub x) e ∙ c.coin_sub-short x.denom x.amount y.amount lt in
            cc
      ]

  pub coin_sub-held :
      (x y z : Coin) (d : String) → coin_sub x y ≡ some z → held d z ≡ held d x -ℤ held d y
  coin_sub-held x y z d h =
      let (e, f) = coin_sub-some x y z h in
      rw (e, f)
        (elim (Bool-cases (string_eq x.denom d)) [ inl t ↦ rw t | inr t ↦ rw t (omega int_laws) ])

pub amount_of-one : (d : String) (x : Coin) → amount_of d (x ∷ []) ≡ held d x
unfolding amount_of
amount_of-one d x = +ℤ_zero (held d x)

pub amount_of-two : (d : String) (x y : Coin) → amount_of d (x ∷ y ∷ []) ≡ held d x +ℤ held d y
unfolding amount_of
amount_of-two d x y = ap (◌+ℤ◌ (held d x)) (+ℤ_zero (held d y))

module _ (c : CoinMath) (d : String) (x y : Coin) where
  open c use {coin_add, coin_sub}

  -- A sum or a difference of coins panics, or is one of what they hold.
  pub coin_add-cases :
      (coin_add x y ≡ none)
      ⊎ ((z : Coin) × (coin_add x y ≡ some z) × (held d z ≡ held d x +ℤ held d y))
  coin_add-cases = elim (Option-cases (coin_add x y)) [
    | inl e ↦ inl e
    | inr (z, e) ↦ inr (z, e, coin_add-held c x y z d e)
  ]

  pub coin_sub-cases :
      (coin_sub x y ≡ none)
      ⊎ ((z : Coin) × (coin_sub x y ≡ some z) × (held d z ≡ held d x -ℤ held d y))
  coin_sub-cases = elim (Option-cases (coin_sub x y)) [
    | inl e ↦ inl e
    | inr (z, e) ↦ inr (z, e, coin_sub-held c x y z d e)
  ]
