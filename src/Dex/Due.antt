-- ===== src/Dex/Due.antt =====
-- EndBlocker of x/dex/endblocker.go: which withdrawals it completes.
pub mod Paid
use Prim.Native.String.{String}
use text.Mathlib.Text.{◌==◌ as string_eq}
use okexchain.Base.{
  ◌≡◌, refl, sym, ap, ◌∙◌, subst, inl, inr, pos, ℤ, ◌+ℤ◌, ◌-ℤ◌, ◌≤ℤ◌, leb_ℤ, int_laws, arith, Bool,
  true, false, ◌||◌, Bool-cases, Option-cases, List, [], ◌∷◌, Option, none, some, if◌then◌else◌,
  Result, ok, err, or_fail, ◌>>=◌, get, delete, HasOneEach, get-delete-some, get-delete_self,
  get-delete_other, total, get-le-total,
}
use okexchain.Sdk.{DecMath, Coin, CoinMath}
use okexchain.Sdk.Coins.{held}
use okexchain.Sdk.Sets.{CoinSets, ModuleBank}
use okexchain.Dex.Types.{Time, TokenPair, WithdrawInfo, DexParams, DexState, dex_account, DexError}
use okexchain.Dex.Keeper.{to_coins, same_time_key, due_keys, complete_withdraw}
use okexchain.Dex.Keys.{has_withdraw_time, same_time_key-eq, same_key_refl, or_true}
use okexchain.Dex.Handler.{after_complete, complete_all, end_blocker}
use okexchain.Dex.Backed.{
  IsSound, surplus, deposited, withdrawing, Keeps, trans-Keeps, amount-to_coins,
}
use okexchain.Dex.Backed.Withdraw.{complete_withdraw-Keeps}

-- Each key stands for the withdrawal of its account, where there is one.
abbrev pub AreKeys : List (Time × String) → List (String × WithdrawInfo) → Type 0
AreKeys [] withdraws = Unit
AreKeys ((time, addr) ∷ keys) withdraws =
    ((info : WithdrawInfo) → get addr withdraws ≡ some info → info.complete_time ≡ time)
    × AreKeys keys withdraws

AreKeys-delete :
    (keys : List (Time × String)) (addr : String) (withdraws : List (String × WithdrawInfo))
    → HasOneEach withdraws
    → AreKeys keys withdraws
    → AreKeys keys (delete addr withdraws)
AreKeys-delete [] addr withdraws one h = tt
AreKeys-delete ((time, a) ∷ keys) addr withdraws one (here, rest) = (
  λ info e. here info (get-delete-some addr a info withdraws one e).1,
  AreKeys-delete keys addr withdraws one rest,
)

some-is : {v w : WithdrawInfo} → some v ≡ some w → v ≡ w
some-is h = cc

pub due_keys-AreKeys :
    (now : Time) (keys : List (Time × String)) (withdraws : List (String × WithdrawInfo))
    → ((time : Time) (addr : String)
        → has_withdraw_time time addr keys ≡ true
        → (info : WithdrawInfo) × (get addr withdraws ≡ some info) × (info.complete_time ≡ time))
    → AreKeys (due_keys now keys) withdraws
unfolding due_keys has_withdraw_time
due_keys-AreKeys now [] withdraws h = tt
due_keys-AreKeys now ((time, addr) ∷ keys) withdraws h =
    let rest =
      due_keys-AreKeys now keys withdraws
        (λ t a e. h t a (or_true (same_time_key t a time addr) _ e)) in
    elim (Bool-cases (leb_ℤ time now)) [
      | inr later ↦ rw later rest
      | inl due ↦ rw due (
        λ info e.
            let (i, found, at) = h time addr (rw (same_key_refl time addr)) in
            ap (λ (w : WithdrawInfo). w.complete_time) (some-is (sym e ∙ found)) ∙ at,
        rest,
      )
    ]

module _ {m : DecMath} (s : CoinSets m) (k : ModuleBank s) (c : CoinMath) (params : DexParams) where
  open k use {balance}

  abbrev Sound : DexState s k → Type 0
  Sound st = IsSound s k c params st

  pub after_complete-Keeps :
      (time : Time) (addr : String) (keys : List (Time × String)) (st : DexState s k)
      (o : Result DexError (DexState s k))
      → complete_withdraw s k c params addr st ≡ o
      → AreKeys ((time, addr) ∷ keys) st.withdraws
      → Sound st
      → Keeps s k c params st (after_complete s k c params time addr st o)
        × AreKeys keys (after_complete s k c params time addr st o).withdraws
  after_complete-Keeps time addr keys st (err e) h (here, rest) sound = ((sound, λ d. refl), rest)
  after_complete-Keeps time addr keys st (ok st') h (here, rest) sound =
      let (kept, withdraws, _) =
        complete_withdraw-Keeps s k c params time addr st st' sound here h in
      (
        kept,
        subst (AreKeys keys) (sym withdraws)
            (AreKeys-delete keys addr st.withdraws sound.withdraws.one_each rest),
      )

  complete_all-Keeps :
      (keys : List (Time × String)) (st : DexState s k)
      → AreKeys keys st.withdraws
      → Sound st
      → Keeps s k c params st (complete_all s k c params keys st)
  unfolding complete_all
  complete_all-Keeps [] st are sound = (sound, λ d. refl)
  complete_all-Keeps ((time, addr) ∷ keys) st are sound =
      let outcome = complete_withdraw s k c params addr st in
      let st1 = after_complete s k c params time addr st outcome in
      let (kept, are1) = after_complete-Keeps time addr keys st outcome refl are sound in
      trans-Keeps s k c params st st1 _ kept (complete_all-Keeps keys st1 are1 kept.0)

  pub end_blocker-Keeps :
      (now : Time) (st : DexState s k)
      → Sound st
      → Keeps s k c params st (end_blocker s k c params now st)
  unfolding end_blocker
  end_blocker-Keeps now st sound =
      complete_all-Keeps (due_keys now st.withdraw_times) st
        (due_keys-AreKeys now st.withdraw_times st.withdraws sound.withdraws.keyed) sound
