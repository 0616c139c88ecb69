-- ===== src/Dex/Rank.antt =====
-- IsGT of x/dex/types/pair.go, by which GetTokenPairsOrdered sorts the pairs.

use okexchain.Base.{
  ◌≡◌, ◌↔◌, ◌⊎◌, refl, sym, ap, ◌∙◌, inl, inr, ℤ, ltb_ℤ, eqb_ℤ, arith, eq_of_parts, Bool, true,
  false, ◌||◌, Option, none, some, if◌then◌else◌, not, string_lt, string_lt_asym,
}
use okexchain.Sdk.{coin, CoinMath}
use okexchain.Dex.Types.{TokenPair}

-- The rest of IsGT, with the outcome of IsLT.
abbrev pub is_gt_unless_lt : TokenPair → TokenPair → Bool → Bool
is_gt_unless_lt x y true = false
is_gt_unless_lt x y false =
    if not (eqb_ℤ x.deposits.amount y.deposits.amount)
    then true
    else if ltb_ℤ x.block_height y.block_height
    then true
    else if ltb_ℤ y.block_height x.block_height
    then false
    else (string_lt x.base_asset_symbol y.base_asset_symbol
        || string_lt x.quote_asset_symbol y.quote_asset_symbol)

abbrev pub from_is_lt : TokenPair → TokenPair → Option Bool → Option Bool
from_is_lt x y none = none
from_is_lt x y (some is_lt) = some (is_gt_unless_lt x y is_lt)

-- IsGT; `none` where IsLT panics, and IsEqual would
unfoldable pub is_gt : CoinMath → TokenPair → TokenPair → Option Bool
is_gt c x y = from_is_lt x y (c.coin_is_lt x.deposits y.deposits)

-- The symbols of the two pairs are in opposite orders.
abbrev pub AreCrossed : TokenPair → TokenPair → Type 0
AreCrossed x y =
    ((string_lt x.base_asset_symbol y.base_asset_symbol ≡ true)
      × (string_lt y.quote_asset_symbol x.quote_asset_symbol ≡ true))
    ⊎ ((string_lt y.base_asset_symbol x.base_asset_symbol ≡ true)
        × (string_lt x.quote_asset_symbol y.quote_asset_symbol ≡ true))

unless : ℤ → ℤ → ℤ → ℤ → Bool → Bool → Bool
unless a b h g p true = false
unless a b h g p false =
    if not (eqb_ℤ a b) then true else if ltb_ℤ h g then true else if ltb_ℤ g h then false else p

both_greater :
    (a b h g : ℤ) (p q : Bool)
    → unless a b h g p (ltb_ℤ a b) ≡ true
    → unless b a g h q (ltb_ℤ b a) ≡ true
    → (a ≡ b) × (h ≡ g) × (p ≡ true) × (q ≡ true)
unfolding unless
both_greater a b h g p q e f = ground (arith, eq_of_parts a b, eq_of_parts h g)

equal_rank : (a h : ℤ) (p : Bool) → unless a a h h p (ltb_ℤ a a) ≡ p
unfolding unless
equal_rank a h p = ground arith

by_symbols :
    (a b h g : ℤ) (p : Bool) → a ≡ b → h ≡ g → p ≡ true → unless a b h g p (ltb_ℤ a b) ≡ true
by_symbols a b h g p e f t =
    ap (λ n. unless a n h g p (ltb_ℤ a n)) (sym e)
    ∙ ap (λ n. unless a a h n p (ltb_ℤ a a)) (sym f)
    ∙ equal_rank a h p
    ∙ t

either : (p q : Bool) → (p ≡ true) ⊎ (q ≡ true) → (p || q) ≡ true
either true q h = refl
either false q (inl h) = cc
either false q (inr h) = h

module _ (c : CoinMath) (x y : TokenPair) (same : x.deposits.denom ≡ y.deposits.denom) where
  is_gt-lt :
      (is_gt c x y ≡ some (is_gt_unless_lt x y (ltb_ℤ x.deposits.amount y.deposits.amount)))
      × (is_gt c y x ≡ some (is_gt_unless_lt y x (ltb_ℤ y.deposits.amount x.deposits.amount)))
  unfolding is_gt
  is_gt-lt =
      let d = x.deposits.denom in
      (
        ap (from_is_lt x y) (
            ap (λ e. c.coin_is_lt x.deposits (coin e y.deposits.amount)) (sym same)
            ∙ c.coin_is_lt-same d x.deposits.amount y.deposits.amount),
        ap (from_is_lt y x) (
            ap (λ e. c.coin_is_lt (coin e y.deposits.amount) x.deposits) (sym same)
            ∙ c.coin_is_lt-same d y.deposits.amount x.deposits.amount),
      )

  some-is : {a b : Bool} → some a ≡ some b → a ≡ b
  some-is h = cc

  crossed :
      (a a' b b' : Bool)
      → (a ≡ true → a' ≡ false)
      → (b ≡ true → b' ≡ false)
      → (a || b) ≡ true
      → (a' || b') ≡ true
      → ((a ≡ true) × (b' ≡ true)) ⊎ ((a' ≡ true) × (b ≡ true))
  crossed true true b b' p q h h' = cc (p refl)
  crossed true false b b' p q h h' = inl (refl, h')
  crossed false true b b' p q h h' = inr (refl, h)
  crossed false false true b' p q h h' = cc (q refl)
  crossed false false false b' p q h h' = cc

  -- Of two pairs whose deposits are in one denomination each counts as the greater exactly when their
  -- deposits and their heights are equal, and their base symbols are in the opposite order of their
  -- quote symbols.
  pub is_gt-both : ((is_gt c x y ≡ some true) × (is_gt c y x ≡ some true)) ↔ (
      (x.deposits.amount ≡ y.deposits.amount) × (x.block_height ≡ y.block_height) × AreCrossed x y)
  is_gt-both =
      let (xy, yx) = is_gt-lt in
      let a = x.deposits.amount in
      let b = y.deposits.amount in
      let p = string_lt x.base_asset_symbol y.base_asset_symbol in
      let p' = string_lt y.base_asset_symbol x.base_asset_symbol in
      let q = string_lt x.quote_asset_symbol y.quote_asset_symbol in
      let q' = string_lt y.quote_asset_symbol x.quote_asset_symbol in
      (
        λ (e, f).
            let (amounts, heights, first, second) =
              both_greater a b x.block_height y.block_height (p || q) (p' || q')
                (unfold unless in some-is (sym xy ∙ e)) (unfold unless in some-is (sym yx ∙ f)) in
            (
              amounts,
              heights,
              crossed p p' q q' (string_lt_asym _ _) (string_lt_asym _ _) first second,
            ),
        λ (amounts, heights, cross).
            let first = either p q (elim cross [ inl h ↦ inl h.0 | inr h ↦ inr h.1 ]) in
            let second = either p' q' (elim cross [ inl h ↦ inr h.1 | inr h ↦ inl h.0 ]) in
            (
              xy
                  ∙ ap some (
                      unfold unless in
                      by_symbols a b x.block_height y.block_height (p || q) amounts heights first),
              yx
                  ∙ ap some (
                      unfold unless in
                      by_symbols b a y.block_height x.block_height (p' || q') (sym amounts)
                        (sym heights) second),
            ),
      )
