-- ===== src/Swap/Handler/Liquidity.antt =====
-- handleMsgAddLiquidity and handleMsgRemoveLiquidity of x/ammswap/handler.go.
use Prim.Native.String.{String}
use okexchain.Base.{
  ℕ, ◌≡◌, ◌<ℤ◌, ◌<◌, refl, sym, ◌∙◌, ap, inl, inr, ℤ, pos, negsuc, ◌+ℤ◌, ◌-ℤ◌, ◌≤ℤ◌, ltb_ℤ,
  eq_of_parts, int_laws, false, Bool-cases, Option-cases, List, [], ◌∷◌, some, arith, ok, >>=-eq-ok,
  or_fail->>=-eq-ok, ok-eq, fail_if->>-eq-ok,
}
use okexchain.Common.{mul_and_quo}
use okexchain.Common.Exact.{mul_and_quo-exact}
use okexchain.Sdk.{SdkDec, DecMath, Coin, coin, CoinMath, SupplyKeeper, amount_of}
use okexchain.Sdk.Coins.{held, coin_add-held, coin_sub-held, amount_of-one}
use okexchain.Swap.{SwapTokenPair}
use okexchain.Swap.Handler.{
  MsgAddLiquidity, MsgRemoveLiquidity, State, update, add_pair_name, remove_pair_name,
  positive_coins, coin_sort, is_positive, is_lt, liquidity_quote, mint_pool_coins_to_user,
  burn_pool_coins_from_user, deposit, withdraw, handle_msg_add_liquidity,
  handle_msg_remove_liquidity,
}
use okexchain.Swap.Handler.Pools.{pooled, pooled-held}

-- Coins that are left out when they are sorted hold nothing.
positive_coins-amount :
    (d : String) (x : Coin) (rest : List Coin)
    → pos 0 ≤ℤ x.amount
    → amount_of d (positive_coins (x ∷ rest)) ≡ held d x +ℤ amount_of d (positive_coins rest)
unfolding amount_of positive_coins
positive_coins-amount d x rest hx = elim (Bool-cases (is_positive x)) [
  | inl t ↦ rw t
  | inr t ↦
      let zero : x.amount ≡ pos 0 = eq_of_parts _ _ (ground arith) in
      let nothing : held d x ≡ pos 0 = ground arith in rw (t, nothing) (omega int_laws)
]

module _ (m : DecMath) (c : CoinMath) (k : SupplyKeeper) (d : String) where
  coin_sort-two :
      (x y : Coin)
      → pos 0 ≤ℤ x.amount
      → pos 0 ≤ℤ y.amount
      → amount_of d (coin_sort m c k (x ∷ y ∷ [])) ≡ held d x +ℤ held d y
  unfolding coin_sort positive_coins amount_of
  coin_sort-two x y hx hy =
      c.amount_of-sort d (positive_coins (x ∷ y ∷ []))
      ∙ positive_coins-amount d x (y ∷ []) hx
      ∙ ap (◌+ℤ◌ (held d x)) (positive_coins-amount d y [] hy ∙ nil)
    where
      nil : held d y +ℤ amount_of d (positive_coins []) ≡ held d y
      nil = omega int_laws

  -- Pool tokens are made and destroyed outside the account of the module.
  mint_pool_coins_to_user-lem :
      (coins : List Coin) (u : String) (b b' : k.Bank)
      → mint_pool_coins_to_user m c k coins u b ≡ some b'
      → (k.module_balance b' d ≡ k.module_balance b d)
        × (k.supply_of b' d ≡ k.supply_of b d +ℤ amount_of d coins)
  unfolding mint_pool_coins_to_user
  mint_pool_coins_to_user-lem coins u b b' h = elim (Option-cases (k.mint_coins coins b)) [
    | inl e ↦ cc
    | inr (b1, e) ↦
        let sent : k.send_from_module u coins b1 ≡ some b' = cc in
        (
          rw (k.send_from_module-module u coins b1 b' d sent, k.mint_coins-module coins b b1 d e)
              (omega int_laws),
          k.send_from_module-supply u coins b1 b' d sent ∙ k.mint_coins-supply coins b b1 d e,
        )
  ]

  burn_pool_coins_from_user-lem :
      (coins : List Coin) (u : String) (b b' : k.Bank)
      → burn_pool_coins_from_user m c k coins u b ≡ some b'
      → (k.module_balance b' d ≡ k.module_balance b d)
        × (k.supply_of b' d ≡ k.supply_of b d -ℤ amount_of d coins)
  unfolding burn_pool_coins_from_user
  burn_pool_coins_from_user-lem coins u b b' h = elim (Option-cases (k.send_to_module u coins b)) [
    | inl e ↦ cc
    | inr (b1, e) ↦
        let burnt : k.burn_coins coins b1 ≡ some b' = cc in
        (
          rw (k.burn_coins-module coins b1 b' d burnt, k.send_to_module-module u coins b b1 d e)
              (omega int_laws),
          k.burn_coins-supply coins b1 b' d burnt
              ∙ ap (λ n. n -ℤ amount_of d coins) (k.send_to_module-supply u coins b b1 d e),
        )
  ]

some_pos : (a : ℤ) → pos 0 ≤ℤ a → (n : ℕ) × (a ≡ pos n)
some_pos (pos n) h = (n, refl)
some_pos (negsuc n) h = ground arith

mul_and_quo-nonneg :
    (m : DecMath) (a b c : ℤ) → pos 0 ≤ℤ a → pos 0 ≤ℤ b → pos 0 <ℤ c → pos 0 ≤ℤ mul_and_quo m a b c
mul_and_quo-nonneg m a b c ha hb hc =
    let (x, ea) = some_pos a ha in
    let (y, eb) = some_pos b hb in
    let (z, ec) = some_pos c (omega arith) in
    let z_pos : 0 < z = ground arith in
    rw (ea, eb, ec, mul_and_quo-exact m x y z z_pos) (omega arith)

module _ (m : DecMath) (c : CoinMath) (k : SupplyKeeper) where
  -- The base tokens that are asked for are not negative.
  liquidity_quote-nonneg :
      (msg : MsgAddLiquidity) (pair : SwapTokenPair) (supply base liquidity : SdkDec)
      → pos 0 ≤ℤ msg.max_base_amount.amount
      → pos 0 ≤ℤ msg.quote_amount.amount
      → liquidity_quote m c k msg pair supply ≡ ok (base, liquidity)
      → pos 0 ≤ℤ base
  unfolding liquidity_quote
  liquidity_quote-nonneg msg pair supply base liquidity hb hq h = ground (
    arith,
    mul_and_quo-nonneg m msg.quote_amount.amount pair.base_pooled_coin.amount
        pair.quote_pooled_coin.amount hq,
  )

-- Two quantities that change by the same amount.
same_change : (a a' p p' n : ℤ) → a' ≡ a +ℤ n → p' ≡ p +ℤ n → a' -ℤ a ≡ p' -ℤ p
same_change a a' p p' n h q = rw (h, q) (omega int_laws)

same_fall : (a a' p p' n : ℤ) → a ≡ a' +ℤ n → p ≡ p' +ℤ n → a' -ℤ a ≡ p' -ℤ p
same_fall a a' p p' n h q = rw (h, q) (omega int_laws)

put_back : (a a1 a2 n t : ℤ) → a2 ≡ a1 → a1 ≡ a -ℤ t → t ≡ n → a ≡ a2 +ℤ n
put_back a a1 a2 n t e f g = rw (e, f, g) (omega int_laws)

le_of_not_lt : (a b : ℤ) → ltb_ℤ a b ≡ false → b ≤ℤ a
le_of_not_lt a b h = ground arith

module _ (m : DecMath) (c : CoinMath) (k : SupplyKeeper) (d : String) where
  open k use {Bank, module_balance, supply_of, send_to_module, send_from_module}

  -- The transfers of a deposit and of a withdrawal.
  deposited :
      (x y p : Coin) (u : String) (b b1 b2 : Bank)
      → pos 0 ≤ℤ x.amount
      → pos 0 ≤ℤ y.amount
      → send_to_module u (coin_sort m c k (x ∷ y ∷ [])) b ≡ some b1
      → mint_pool_coins_to_user m c k (p ∷ []) u b1 ≡ some b2
      → (module_balance b2 d ≡ module_balance b d +ℤ (held d x +ℤ held d y))
        × (supply_of b2 d ≡ supply_of b d +ℤ held d p)
  deposited x y p u b b1 b2 hx hy e f =
      let coins = coin_sort m c k (x ∷ y ∷ []) in
      let (kept, minted) = mint_pool_coins_to_user-lem m c k d (p ∷ []) u b1 b2 f in
      (
        kept
            ∙ k.send_to_module-module u coins b b1 d e
            ∙ ap (◌+ℤ◌ (module_balance b d)) (coin_sort-two m c k d x y hx hy),
        minted
            ∙ ap (◌+ℤ◌ (supply_of b1 d)) (amount_of-one d p)
            ∙ ap (λ n. n +ℤ held d p) (k.send_to_module-supply u coins b b1 d e),
      )

  withdrawn :
      (x y p : Coin) (u : String) (b b1 b2 : Bank)
      → pos 0 ≤ℤ x.amount
      → pos 0 ≤ℤ y.amount
      → send_from_module u (coin_sort m c k (x ∷ y ∷ [])) b ≡ some b1
      → burn_pool_coins_from_user m c k (p ∷ []) u b1 ≡ some b2
      → (module_balance b d ≡ module_balance b2 d +ℤ (held d x +ℤ held d y))
        × (supply_of b2 d ≡ supply_of b d -ℤ held d p)
  withdrawn x y p u b b1 b2 hx hy e f =
      let coins = coin_sort m c k (x ∷ y ∷ []) in
      let (kept, burnt) = burn_pool_coins_from_user-lem m c k d (p ∷ []) u b1 b2 f in
      let sent = k.send_from_module-module u coins b b1 d e in
      let total = coin_sort-two m c k d x y hx hy in
      (
        put_back _ _ _ _ _ kept sent total,
        burnt
            ∙ ap (◌-ℤ◌ (supply_of b1 d)) (amount_of-one d p)
            ∙ ap (λ n. n -ℤ held d p) (k.send_from_module-supply u coins b b1 d e),
      )

  -- What the pair records of them.
  pooled-add :
      (pair : SwapTokenPair) (x y q b : Coin)
      → c.coin_add pair.quote_pooled_coin x ≡ some q
      → c.coin_add pair.base_pooled_coin y ≡ some b
      → pooled d (record pair { quote_pooled_coin = q; base_pooled_coin = b })
        ≡ pooled d pair +ℤ (held d x +ℤ held d y)
  pooled-add pair x y q b e f =
      rw
        (
          pooled-held d (record pair { quote_pooled_coin = q; base_pooled_coin = b }),
          pooled-held d pair,
          coin_add-held c _ _ _ d e,
          coin_add-held c _ _ _ d f,
        )
        (omega int_laws)

  pooled-sub :
      (pair : SwapTokenPair) (x y q b : Coin)
      → c.coin_sub pair.quote_pooled_coin x ≡ some q
      → c.coin_sub pair.base_pooled_coin y ≡ some b
      → pooled d pair
        ≡ pooled d (record pair { quote_pooled_coin = q; base_pooled_coin = b })
          +ℤ (held d y +ℤ held d x)
  pooled-sub pair x y q b e f =
      rw
        (
          pooled-held d (record pair { quote_pooled_coin = q; base_pooled_coin = b }),
          pooled-held d pair,
          coin_sub-held c _ _ _ d e,
          coin_sub-held c _ _ _ d f,
        )
        (omega int_laws)

  -- The state after some liquidity was added or removed: one pair changed as the account did.
  abbrev pub Moved : State m c k → State m c k → String → SwapTokenPair → Type 0
  Moved s s' name pair =
      (pair' : SwapTokenPair) × (s'.pairs ≡ update s.pairs name pair')
      × (module_balance s'.bank d -ℤ module_balance s.bank d ≡ pooled d pair' -ℤ pooled d pair)

  deposit-moves :
      (msg : MsgAddLiquidity) (pair : SwapTokenPair) (base : Coin) (liquidity : SdkDec)
      (s s' : State m c k)
      → pos 0 ≤ℤ base.amount
      → pos 0 ≤ℤ msg.quote_amount.amount
      → deposit m c k msg pair base liquidity s ≡ ok s'
      → Moved s s' (add_pair_name msg) pair
        × (supply_of s'.bank d ≡ supply_of s.bank d +ℤ held d (coin pair.pool_token_name liquidity))
  unfolding deposit
  deposit-moves msg pair base liquidity s s' hb hq h =
      let quote = msg.quote_amount in
      let coins = coin_sort m c k (quote ∷ base ∷ []) in
      let pool_coin = coin pair.pool_token_name liquidity in
      let (b1, e1, h1) = or_fail->>=-eq-ok (send_to_module msg.sender coins s.bank) _ _ h in
      let (q, e2, h2) = or_fail->>=-eq-ok (c.coin_add pair.quote_pooled_coin quote) _ _ h1 in
      let (b, e3, h3) = or_fail->>=-eq-ok (c.coin_add pair.base_pooled_coin base) _ _ h2 in
      let (b2, e4, h4) =
        or_fail->>=-eq-ok (mint_pool_coins_to_user m c k (pool_coin ∷ []) msg.sender b1) _ _ h3 in
      let after = sym (ok-eq h4) in
      let (moved, minted) = deposited quote base pool_coin msg.sender s.bank b1 b2 hq hb e1 e4 in
      (
        (
          record pair { quote_pooled_coin = q; base_pooled_coin = b },
          ap (λ t. t.pairs) after,
          same_change _ _ _ _ (held d quote +ℤ held d base)
              (ap (λ t. module_balance t.bank d) after ∙ moved)
              (pooled-add pair quote base q b e2 e3),
        ),
        ap (λ t. supply_of t.bank d) after ∙ minted,
      )

  withdraw-moves :
      (msg : MsgRemoveLiquidity) (pair : SwapTokenPair) (base quote : Coin) (s s' : State m c k)
      → pos 0 ≤ℤ base.amount
      → pos 0 ≤ℤ quote.amount
      → withdraw m c k msg pair base quote s ≡ ok s'
      → Moved s s' (remove_pair_name msg) pair
        × (supply_of s'.bank d
            ≡ supply_of s.bank d -ℤ held d (coin pair.pool_token_name msg.liquidity))
  unfolding withdraw
  withdraw-moves msg pair base quote s s' hb hq h =
      let coins = coin_sort m c k (base ∷ quote ∷ []) in
      let pool_coin = coin pair.pool_token_name msg.liquidity in
      let (b1, e1, h1) = or_fail->>=-eq-ok (send_from_module msg.sender coins s.bank) _ _ h in
      let (q, e2, h2) = or_fail->>=-eq-ok (c.coin_sub pair.quote_pooled_coin quote) _ _ h1 in
      let (b, e3, h3) = or_fail->>=-eq-ok (c.coin_sub pair.base_pooled_coin base) _ _ h2 in
      let (b2, e4, h4) =
        or_fail->>=-eq-ok (burn_pool_coins_from_user m c k (pool_coin ∷ []) msg.sender b1) _ _ h3 in
      let after = ok-eq h4 in
      let (moved, burnt) = withdrawn base quote pool_coin msg.sender s.bank b1 b2 hb hq e1 e4 in
      (
        (
          record pair { quote_pooled_coin = q; base_pooled_coin = b },
          ap (λ t. t.pairs) (sym after),
          same_fall _ _ _ _ (held d base +ℤ held d quote)
              (moved ∙ ap (λ t. module_balance t.bank d +ℤ (held d base +ℤ held d quote)) after)
              (pooled-sub pair quote base q b e2 e3),
        ),
        ap (λ t. supply_of t.bank d) (sym after) ∙ burnt,
      )

  -- Where handleMsgAddLiquidity succeeds on amounts that are not negative, the pair existed and the
  -- liquidity is at least the minimum asked for. Of each denomination the pool then holds more by
  -- what the account of the module has received, no other pair has changed, and the supply has
  -- grown by the liquidity, in the pool's own token alone.
  pub handle_msg_add_liquidity-moves :
      (msg : MsgAddLiquidity) (s s' : State m c k)
      → pos 0 ≤ℤ msg.max_base_amount.amount
      → pos 0 ≤ℤ msg.quote_amount.amount
      → handle_msg_add_liquidity m c k msg s ≡ ok s'
      → (pair : SwapTokenPair) × (liquidity : SdkDec) × (s.pairs (add_pair_name msg) ≡ some pair)
        × (msg.min_liquidity ≤ℤ liquidity)
        × Moved s s' (add_pair_name msg) pair
        × (supply_of s'.bank d ≡ supply_of s.bank d +ℤ held d (coin pair.pool_token_name liquidity))
  unfolding handle_msg_add_liquidity
  handle_msg_add_liquidity-moves msg s s' hb hq h =
      let (_, h1) = fail_if->>-eq-ok (ltb_ℤ msg.deadline s.block_time) _ _ h in
      let (pair, e2, h2) = or_fail->>=-eq-ok (s.pairs (add_pair_name msg)) _ _ h1 in
      let (_, _, h3) = or_fail->>=-eq-ok (s.tokens pair.pool_token_name) _ _ h2 in
      let supply = supply_of s.bank pair.pool_token_name in
      let ((base, liquidity), e4, h4) = >>=-eq-ok (liquidity_quote m c k msg pair supply) _ h3 in
      let (_, h5) = fail_if->>-eq-ok (ltb_ℤ msg.max_base_amount.amount base) _ _ h4 in
      let (e6, h6) = fail_if->>-eq-ok (ltb_ℤ liquidity msg.min_liquidity) _ _ h5 in
      let base_le = liquidity_quote-nonneg m c k msg pair supply base liquidity hb hq e4 in
      let base_tokens = coin msg.max_base_amount.denom base in
      let (moved, minted) = deposit-moves msg pair base_tokens liquidity s s' base_le hq h6 in
      (pair, liquidity, e2, le_of_not_lt liquidity msg.min_liquidity e6, moved, minted)

  -- Where handleMsgRemoveLiquidity succeeds on a pair with reserves that are not negative, for a
  -- liquidity above zero, the pool of each denomination has lost what the account of the module has
  -- paid out, no other pair has changed, and the supply has fallen by the liquidity, in the pool's
  -- own token alone.
  pub handle_msg_remove_liquidity-moves :
      (msg : MsgRemoveLiquidity) (s s' : State m c k) (pair : SwapTokenPair)
      → s.pairs (remove_pair_name msg) ≡ some pair
      → pos 0 ≤ℤ pair.base_pooled_coin.amount
      → pos 0 ≤ℤ pair.quote_pooled_coin.amount
      → pos 0 <ℤ msg.liquidity
      → handle_msg_remove_liquidity m c k msg s ≡ ok s'
      → Moved s s' (remove_pair_name msg) pair
        × (supply_of s'.bank d
            ≡ supply_of s.bank d -ℤ held d (coin pair.pool_token_name msg.liquidity))
  unfolding handle_msg_remove_liquidity
  handle_msg_remove_liquidity-moves msg s s' pair found hb hq hl h =
      let (_, h1) = fail_if->>-eq-ok (ltb_ℤ msg.deadline s.block_time) _ _ h in
      let h2 = rw found at h1 in
      let total = supply_of s.bank pair.pool_token_name in
      let share = λ (pooled_coin : Coin).
        coin pooled_coin.denom (mul_and_quo m pooled_coin.amount msg.liquidity total) in
      let base = share pair.base_pooled_coin in
      let quote = share pair.quote_pooled_coin in
      let (e3, h3) = fail_if->>-eq-ok (ltb_ℤ total msg.liquidity) _ _ h2 in
      let (low_base, _, h4) = >>=-eq-ok (is_lt base msg.min_base_amount) _ h3 in
      let (_, h5) = fail_if->>-eq-ok low_base _ _ h4 in
      let (low_quote, _, h6) = >>=-eq-ok (is_lt quote msg.min_quote_amount) _ h5 in
      let (_, h7) = fail_if->>-eq-ok low_quote _ _ h6 in
      withdraw-moves msg pair base quote s s'
        (share-nonneg total e3 pair.base_pooled_coin.amount hb)
        (share-nonneg total e3 pair.quote_pooled_coin.amount hq) h7
    where
      share-nonneg :
          (total : ℤ)
          → ltb_ℤ total msg.liquidity ≡ false
          → (a : ℤ) → pos 0 ≤ℤ a
          → pos 0 ≤ℤ mul_and_quo m a msg.liquidity total
      share-nonneg total e a ha =
          mul_and_quo-nonneg m a msg.liquidity total ha (omega arith) (ground arith)
