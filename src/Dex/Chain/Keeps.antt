-- ===== src/Dex/Chain/Keeps.antt =====
-- The account of x/dex against what the module owes, through each message.
use Prim.Native.String.{String}
use text.Mathlib.Text.{◌==◌ as string_eq}
use okexchain.Base.{
  ◌≡◌, refl, sym, ap, ◌∙◌, subst, inl, inr, ℤ, pos, ◌+ℤ◌, ◌-ℤ◌, ◌≤ℤ◌, ltb_ℤ, int_laws, arith,
  +ℤ_zero, -ℤ_self, false, Bool-cases, none, some, if◌then◌else◌, ok, or_fail->>=-eq-ok,
  failing-eq-ok, ok-eq, get, total, at_option, total-put, get-put_self,
}
use okexchain.Sdk.{DecMath, SdkDec, Coin, CoinMath}
use okexchain.Sdk.Coins.{held, coin_sub-held}
use okexchain.Sdk.Sets.{CoinSets, ModuleBank}
use okexchain.Dex.Types
use okexchain.Dex.Types.{
  Time, TokenPair, pair_name, pair_key, DexParams, Context, DexState, dex_account, DexError,
  MsgList, MsgTransferOwnership, MsgConfirmOwnership, ConfirmOwnership,
}
use okexchain.Dex.Keeper.{to_coins, update_token_pair, save_token_pair, token_pair_id, withdraw}
use okexchain.Dex.Handler.{charge_fee, withdraw_deposits}
use okexchain.Dex.Sound.{put-ArePairs}
use okexchain.Dex.Backed.{IsSound, surplus, deposited, withdrawing, Keeps}
use okexchain.Dex.Backed.Withdraw.{LeavesPair, withdraw-Keeps}

module _ {m : DecMath} (s : CoinSets m) (k : ModuleBank s) (c : CoinMath) (params : DexParams)
    (apart : string_eq params.fee_collector dex_account ≡ false) where
  open k use {balance}

  State : Type 0
  State = DexState s k

  Sound : DexState s k → Type 0
  Sound = IsSound s k c params

  abbrev Kept : DexState s k → DexState s k → Type 0
  Kept st st' = Keeps s k c params st st'

  of_pair : String → TokenPair → SdkDec
  of_pair d pair = held d pair.deposits

  -- A pair is written over with the same name and the same deposits.
  pub update_token_pair-Keeps :
      (product : String) (pair pair' : TokenPair) (st : DexState s k)
      → get product st.pairs ≡ some pair
      → pair_name pair' ≡ pair_name pair
      → pair'.deposits ≡ pair.deposits
      → IsSound s k c params st
      → Kept st (update_token_pair s k c params product pair' st)
  unfolding of_pair
  update_token_pair-Keeps product pair pair' st found name same sound = (
    record {
      pairs =
          put-ArePairs product pair' st.pairs (name ∙ sound.pairs.named product pair found)
            (subst (λ (x : Coin). pos 0 ≤ℤ x.amount) (sym same)
              (sound.pairs.not_negative product pair found))
            sound.pairs;
      withdraws = sound.withdraws;
    },
    λ d.
        ap (λ n. balance st.bank dex_account d -ℤ n -ℤ withdrawing s k c params d st)
          (total-put (of_pair d) product pair' st.pairs
            ∙ ap (λ o. total (of_pair d) st.pairs -ℤ at_option (of_pair d) o +ℤ of_pair d pair')
                found
            ∙ ap (λ x. total (of_pair d) st.pairs -ℤ of_pair d pair +ℤ held d x) same
            ∙ back (total (of_pair d) st.pairs) (of_pair d pair)),
  )
    where
      back : (t p : ℤ) → t -ℤ p +ℤ p ≡ t
      back t p = omega int_laws

  pub charge_fee-Keeps :
      (owner : String) (fee : Coin) (stop : DexError) (st st' : DexState s k)
      → IsSound s k c params st
      → charge_fee s k c params owner fee stop st ≡ ok st'
      → Kept st st' × (st'.pairs ≡ st.pairs)
  unfolding charge_fee
  charge_fee-Keeps owner fee stop st st' sound h =
      let (bank, sent, h1) =
        or_fail->>=-eq-ok
          (k.account_to_module owner params.fee_collector (to_coins s k c params fee) st.bank) _ _
          h in
      let e = ok-eq h1 in
      (
        (
          subst (IsSound s k c params) e
              (record { pairs = sound.pairs; withdraws = sound.withdraws }),
          λ d.
              ap (surplus s k c params d) (sym e)
              ∙ ap (λ n. n -ℤ deposited s k c params d st -ℤ withdrawing s k c params d st)
                  (k.account_to_module-balance owner params.fee_collector dex_account d
                      (to_coins s k c params fee) st.bank bank sent
                    ∙ ap
                        (λ t.
                          balance st.bank dex_account d
                          +ℤ (if t then s.amount d (to_coins s k c params fee) else pos 0))
                        apart
                    ∙ +ℤ_zero (balance st.bank dex_account d)),
        ),
        ap (λ (x : DexState s k). x.pairs) (sym e),
      )

  held-nothing : (d : String) (x : Coin) → x.amount ≡ pos 0 → held d x ≡ pos 0
  held-nothing d x h = elim (Bool-cases (string_eq x.denom d)) [ inl t ↦ rw t h | inr t ↦ rw t ]

  pub save_token_pair-Keeps :
      (pair : TokenPair) (st : DexState s k)
      → get (pair_name pair) st.pairs ≡ none
      → pair.deposits.amount ≡ pos 0
      → IsSound s k c params st
      → Kept st (save_token_pair s k c params pair st)
  unfolding save_token_pair of_pair
  save_token_pair-Keeps pair st free nothing sound =
      let id = token_pair_id s k c params pair.id st.max_token_pair_id in
      let pair' : TokenPair = record pair { id = id } in
      (
        record {
          pairs =
              put-ArePairs (pair_name pair) pair' st.pairs refl
                (subst (λ n. pos 0 ≤ℤ n) (sym nothing) (omega arith)) sound.pairs;
          withdraws = sound.withdraws;
        },
        λ d.
            ap (λ n. balance st.bank dex_account d -ℤ n -ℤ withdrawing s k c params d st)
              (total-put (of_pair d) (pair_name pair) pair' st.pairs
                ∙ ap
                    (λ o.
                      total (of_pair d) st.pairs -ℤ at_option (of_pair d) o +ℤ held d pair.deposits)
                    free
                ∙ ap (λ n. total (of_pair d) st.pairs -ℤ pos 0 +ℤ n)
                    (held-nothing d pair.deposits nothing)
                ∙ same (total (of_pair d) st.pairs)),
      )
    where
      same : (t : ℤ) → t -ℤ pos 0 +ℤ pos 0 ≡ t
      same t = omega int_laws

  -- Nothing is deposited for the pair.
  abbrev IsDrained : String → DexState s k → Type 0
  IsDrained product st =
      (pair : TokenPair) × (get product st.pairs ≡ some pair)
      × ((d : String) → held d pair.deposits ≡ pos 0)

  some-is : {v w : TokenPair} → some v ≡ some w → v ≡ w
  some-is h = cc

  drained :
      (product : String) (pair : TokenPair) (st st' : DexState s k)
      → get product st.pairs ≡ some pair
      → LeavesPair s k c params product pair.deposits st st'
      → IsDrained product st'
  drained product pair st st' found (pair1, deposits, found1, left, pairs) =
      let pair' : TokenPair = record pair1 { deposits = deposits } in
      let same : pair1 ≡ pair = some-is (sym found1 ∙ found) in
      (
        pair',
        ap (get product) pairs ∙ get-put_self product pair' st.pairs,
        λ d.
            coin_sub-held c pair1.deposits pair.deposits deposits d left
            ∙ ap (λ (p : TokenPair). held d pair1.deposits -ℤ held d p.deposits) (sym same)
            ∙ -ℤ_self (held d pair1.deposits),
      )

  pub withdraw_deposits-Keeps :
      (ctx : Context) (product to : String) (pair : TokenPair) (st st' : DexState s k)
      → get product st.pairs ≡ some pair
      → IsSound s k c params st
      → withdraw_deposits s k c params ctx product to pair.deposits st ≡ ok st'
      → Kept st st' × IsDrained product st'
  unfolding withdraw_deposits
  withdraw_deposits-Keeps ctx product to pair st st' found sound h =
      elim (Bool-cases (ltb_ℤ (pos 0) pair.deposits.amount)) [
        | inl t ↦
            let (kept, leaves) =
              withdraw-Keeps s k c params ctx product to pair.deposits st st'
                (sound.pairs.not_negative product pair found) sound
                (failing-eq-ok Types.withdraw_failed
                  (withdraw s k c params ctx product to pair.deposits st) (rw t at h)) in
            (kept, drained product pair st st' found leaves)
        | inr t ↦
            let e = ok-eq (rw t at h) in
            let nothing =
              zero pair.deposits.amount t (sound.pairs.not_negative product pair found) in
            (
              (subst (IsSound s k c params) e sound, λ d. ap (surplus s k c params d) (sym e)),
              (
                pair,
                ap (λ (x : DexState s k). get product x.pairs) (sym e) ∙ found,
                λ d. held-nothing d pair.deposits nothing,
              ),
            )
      ]
    where
      zero : (a : ℤ) → ltb_ℤ (pos 0) a ≡ false → pos 0 ≤ℤ a → a ≡ pos 0
      zero a t h = ground arith
