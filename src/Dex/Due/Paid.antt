-- ===== src/Dex/Due/Paid.antt =====
-- EndBlocker of x/dex/endblocker.go: the withdrawals that are due are completed, and no other.
use Prim.Native.String.{String}
use text.Mathlib.Text.{◌==◌ as string_eq}
use okexchain.Base.{
  ◌≡◌, refl, sym, ap, ◌∙◌, subst, inl, inr, pos, ℤ, ◌-ℤ◌, ◌≤ℤ◌, leb_ℤ, int_laws, arith, Bool, true,
  false, ◌||◌, Bool-cases, Option-cases, List, [], ◌∷◌, Option, none, some, if◌then◌else◌, get,
  delete, get-delete_self, get-delete_other, total, get-le-total, same_text, string_eq_refl,
}
use okexchain.Sdk.{DecMath, Coin, CoinMath}
use okexchain.Sdk.Coins.{held}
use okexchain.Sdk.Sets.{CoinSets, ModuleBank, PaysWhatItHolds}
use okexchain.Dex.Types.{Time, TokenPair, WithdrawInfo, DexParams, DexState, dex_account}
use okexchain.Dex.Keeper.{to_coins, same_time_key, due_keys, complete_withdraw}
use okexchain.Dex.Keys.{has_withdraw_time, same_time_key-eq, same_key_refl, or_true}
use okexchain.Dex.Handler.{after_complete, complete_all, end_blocker}
use okexchain.Dex.Backed.{IsSound, surplus, amount-to_coins}
use okexchain.Dex.Due.{AreKeys, due_keys-AreKeys, after_complete-Keeps}

-- What is left of a withdrawal at the end of a block.
abbrev pub still_waiting : Time → Option WithdrawInfo → Option WithdrawInfo
still_waiting now none = none
still_waiting now (some info) = if leb_ℤ info.complete_time now then none else some info

-- Some key is that of the account.
names : String → List (Time × String) → Bool
names addr [] = false
names addr ((time, a) ∷ keys) = string_eq a addr || names addr keys

names-due_keys :
    (now time : Time) (addr : String) (keys : List (Time × String))
    → has_withdraw_time time addr keys ≡ true
    → leb_ℤ time now ≡ true
    → names addr (due_keys now keys) ≡ true
unfolding names due_keys has_withdraw_time
names-due_keys now time addr [] h due = cc
names-due_keys now time addr ((t, a) ∷ keys) h due =
    elim (Bool-cases (same_time_key time addr t a)) [
      | inl same ↦
          let (e, f) = same_time_key-eq time addr t a same in
          let due' : leb_ℤ t now ≡ true = ap (λ x. leb_ℤ x now) (sym e) ∙ due in
          rw due' (rw (names, ap (λ x. string_eq x addr) (sym f) ∙ string_eq_refl addr))
      | inr other ↦
          let rest = names-due_keys now time addr keys (rw other at h) due in
          elim (Bool-cases (leb_ℤ t now)) [
            | inl early ↦ rw early (or_true (string_eq a addr) _ rest)
            | inr later ↦ rw later rest
          ]
    ]

due_keys-names :
    (now : Time) (addr : String) (keys : List (Time × String))
    → names addr (due_keys now keys) ≡ true
    → (time : Time) × (leb_ℤ time now ≡ true) × (has_withdraw_time time addr keys ≡ true)
unfolding names due_keys has_withdraw_time
due_keys-names now addr [] h = cc
due_keys-names now addr ((t, a) ∷ keys) h = elim (Bool-cases (leb_ℤ t now)) [
  | inr later ↦
      let (time, due, has) = due_keys-names now addr keys (rw later at h) in
      (time, due, or_true (same_time_key time addr t a) _ has)
  | inl early ↦ elim (Bool-cases (string_eq a addr)) [
    | inl same ↦ (
      t,
      early,
      ap (λ x. same_time_key t x t a || has_withdraw_time t x keys) (sym (same_text same))
          ∙ ap (λ b. b || has_withdraw_time t a keys) (same_key_refl t a),
    )
    | inr other ↦
        let h1 = rw early at h in
        let (time, due, has) = due_keys-names now addr keys (rw other at h1) in
        (time, due, or_true (same_time_key time addr t a) _ has)
  ]
]

held_not_negative : (d : String) (x : Coin) → pos 0 ≤ℤ x.amount → pos 0 ≤ℤ held d x
held_not_negative d x h = elim (Bool-cases (string_eq x.denom d)) [
  | inl t ↦ rw t h
  | inr t ↦ rw t (omega arith)
]

module _ {m : DecMath} (s : CoinSets m) (k : ModuleBank s) (c : CoinMath) (params : DexParams)
    (pays : PaysWhatItHolds s k) where
  open k use {balance}

  abbrev Sound : DexState s k → Type 0
  Sound st = IsSound s k c params st

  abbrev IsCovered : DexState s k → Type 0
  IsCovered st = (d : String) → pos 0 ≤ℤ surplus s k c params d st

  enough :
      (addr : String) (info : WithdrawInfo) (st : DexState s k)
      → get addr st.withdraws ≡ some info
      → Sound st
      → IsCovered st
      → (d : String)
      → s.amount d (to_coins s k c params info.deposits) ≤ℤ balance st.bank dex_account d
  enough addr info st found sound covered d =
      let of_info = λ (w : WithdrawInfo). held d w.deposits in
      let of_pair = λ (p : TokenPair). held d p.deposits in
      let (_, each) =
        get-le-total of_info st.withdraws sound.withdraws.one_each
          (λ j w e. held_not_negative d w.deposits (sound.withdraws.not_negative j w e)) in
      let (rich, _) =
        get-le-total of_pair st.pairs sound.pairs.one_each
          (λ j p e. held_not_negative d p.deposits (sound.pairs.not_negative j p e)) in
      subst (λ n. n ≤ℤ balance st.bank dex_account d)
        (sym (amount-to_coins s k c params d info.deposits))
        (below (held d info.deposits) (balance st.bank dex_account d) (total of_pair st.pairs)
          (total of_info st.withdraws) (each addr info found) rich (covered d))
    where
      below : (x b t w : ℤ) → x ≤ℤ w → pos 0 ≤ℤ t → pos 0 ≤ℤ b -ℤ t -ℤ w → x ≤ℤ b
      below x b t w h h' h'' = omega int_laws

  -- The withdrawal of the account is completed, where it has one.
  after_complete-get :
      (time : Time) (addr x : String) (st : DexState s k)
      → Sound st
      → IsCovered st
      → get x
          (after_complete s k c params time addr st
            (complete_withdraw s k c params addr st)).withdraws
        ≡ (if string_eq addr x then none else get x st.withdraws)
  unfolding complete_withdraw
  after_complete-get time addr x st sound covered = elim (Option-cases (get addr st.withdraws)) [
    | inl e ↦ rw e (elim (Bool-cases (string_eq addr x)) [
      | inl t ↦ rw t (ap (λ a. get a st.withdraws) (sym (same_text t)) ∙ e)
      | inr t ↦ rw t
    ])
    | inr (info, e) ↦
        let (bank, sent) =
          pays dex_account info.owner (to_coins s k c params info.deposits) st.bank
            (enough addr info st e sound covered) in
        rw e (
          rw sent (elim (Bool-cases (string_eq addr x)) [
            | inl t ↦ rw t (
                ap (λ a. get a (delete addr st.withdraws)) (sym (same_text t))
                ∙ get-delete_self addr st.withdraws sound.withdraws.one_each)
            | inr t ↦ rw t (get-delete_other addr x st.withdraws t)
          ]))
  ]

  complete_all-get :
      (keys : List (Time × String)) (x : String) (st : DexState s k)
      → AreKeys keys st.withdraws
      → Sound st
      → IsCovered st
      → get x (complete_all s k c params keys st).withdraws
        ≡ (if names x keys then none else get x st.withdraws)
  unfolding complete_all names
  complete_all-get [] x st are sound covered = refl
  complete_all-get ((time, addr) ∷ keys) x st are sound covered =
      let outcome = complete_withdraw s k c params addr st in
      let st1 = after_complete s k c params time addr st outcome in
      let ((sound1, same), are1) =
        after_complete-Keeps s k c params time addr keys st outcome refl are sound in
      complete_all-get keys x st1 are1 sound1
        (λ d. subst (λ n. pos 0 ≤ℤ n) (sym (same d)) (covered d))
      ∙ ap (λ o. if names x keys then none else o) (after_complete-get time addr x st sound covered)
      ∙ both (string_eq addr x) (names x keys) (get x st.withdraws)
    where
      both :
          (a b : Bool) (o : Option WithdrawInfo)
          → (if b then none else if a then none else o) ≡ (if a || b then none else o)
      both true true o = refl
      both true false o = refl
      both false b o = refl

  waits :
      (now : Time) (addr : String) (st : DexState s k) (o : Option WithdrawInfo)
      → get addr st.withdraws ≡ o
      → Sound st
      → (if names addr (due_keys now st.withdraw_times) then none else o) ≡ still_waiting now o
  waits now addr st none found sound = either (names addr (due_keys now st.withdraw_times))
    where
      either : (b : Bool) → ◌≡◌ {A = Option WithdrawInfo} (if b then none else none) none
      either true = refl
      either false = refl
  waits now addr st (some info) found sound = elim (Bool-cases (leb_ℤ info.complete_time now)) [
    | inl due ↦ rw (
      due,
      names-due_keys now info.complete_time addr st.withdraw_times
          (sound.withdraws.timed addr info found) due,
    )
    | inr later ↦ elim (Bool-cases (names addr (due_keys now st.withdraw_times))) [
      | inr e ↦ rw (later, e)
      | inl e ↦
          let (time, due, has) = due_keys-names now addr st.withdraw_times e in
          let (i, there, at) = sound.withdraws.keyed time addr has in
          let same : info ≡ i = some-is (sym found ∙ there) in
          cc (
            sym later
            ∙ ap (λ (w : WithdrawInfo). leb_ℤ w.complete_time now) same
            ∙ ap (λ t. leb_ℤ t now) at
            ∙ due)
    ]
  ]
    where
      some-is : {v w : WithdrawInfo} → some v ≡ some w → v ≡ w
      some-is h = cc

  -- Where the stores are sound, the module's account holds at least the deposits and the withdrawals
  -- in every denomination, and the bank pays from an account whatever it holds enough for, the end of
  -- a block completes every withdrawal whose time has come, and leaves every other as it was.
  pub end_blocker-withdraws :
      (now : Time) (addr : String) (st : DexState s k)
      → Sound st
      → IsCovered st
      → get addr (end_blocker s k c params now st).withdraws
        ≡ still_waiting now (get addr st.withdraws)
  unfolding end_blocker
  end_blocker-withdraws now addr st sound covered =
      complete_all-get (due_keys now st.withdraw_times) addr st
        (due_keys-AreKeys now st.withdraw_times st.withdraws sound.withdraws.keyed) sound covered
      ∙ waits now addr st (get addr st.withdraws) refl sound
