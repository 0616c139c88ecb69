-- ===== src/Farm/Yield.antt =====
-- CalculateAmountYieldedBetween of x/farm/keeper/calc.go: what a pool has yielded since its period
-- began.
pub mod Laws
use okexchain.Base.{
  ℤ, pos, ◌-ℤ◌, ltb_ℤ, leb_ℤ, eqb_ℤ, ◌||◌, List, [], ◌∷◌, Option, none, some, if◌then◌else◌, Result,
  ok, ◌>>=◌, or_fail,
}
use okexchain.Sdk.{SdkDec, DecMath, Coin, coin}
use okexchain.Sdk.Sets.{CoinSets, ModuleBank}
use okexchain.Farm.Types.{
  YieldedTokenInfo, FarmPool, FarmError, panic, PoolCurrentRewards, State, new_dec,
}

module _ {m : DecMath} (s : CoinSets m) where
  open s use {Coins, empty, of_amount, add2}

  -- One round of the loop; `none` where nothing is to be yielded.
  unfoldable pub yield_token : ℤ → ℤ → YieldedTokenInfo → Option (YieldedTokenInfo × Coins)
  yield_token period_start end info =
      let to_yield = info.start_block_height_to_yield in
      let start = if leb_ℤ period_start to_yield then to_yield else period_start in
      let amount = m.mul_truncate (new_dec m (end -ℤ start)) info.amount_yielded_per_block in
      let remaining = info.remaining_amount in
      if eqb_ℤ to_yield (pos 0) || leb_ℤ end start
      then none
      else if ltb_ℤ amount remaining.amount
      then some (
        record info { remaining_amount = coin remaining.denom (remaining.amount -ℤ amount) },
        of_amount remaining.denom amount,
      )
      else some (
        record {
          remaining_amount = coin remaining.denom (pos 0);
          start_block_height_to_yield = pos 0;
          amount_yielded_per_block = pos 0;
        },
        of_amount remaining.denom remaining.amount,
      )

  -- The loop: the tokens after it, the accumulated rewards and the total.
  unfoldable pub yield_tokens :
      ℤ → ℤ → List YieldedTokenInfo → Coins → Coins → List YieldedTokenInfo × Coins × Coins
  yield_tokens period_start end [] accumulated total = ([], accumulated, total)
  yield_tokens period_start end (info ∷ infos) accumulated total =
      elim (yield_token period_start end info) [
        | none ↦
            let (infos', accumulated', total') =
              yield_tokens period_start end infos accumulated total in
            (info ∷ infos', accumulated', total')
        | some (info', yielded) ↦
            let (infos', accumulated', total') =
              yield_tokens period_start end infos (add2 accumulated yielded) (add2 total yielded) in
            (info' ∷ infos', accumulated', total')
      ]

  module _ (k : ModuleBank s) where
    -- CalculateAmountYieldedBetween. Reading a period that the store does not have panics.
    unfoldable pub calculate_amount_yielded_between :
        FarmPool s → State s k → Result FarmError (FarmPool s × Coins)
    calculate_amount_yielded_between pool st = do
      current ← or_fail (st.current pool.name) panic
      let (infos, accumulated, total) =
          yield_tokens current.start_block_height st.height pool.yielded_token_infos
            pool.total_accumulated_rewards empty
      ok (
        record pool { yielded_token_infos = infos; total_accumulated_rewards = accumulated },
        total,
      )
