-- ===== src/Farm/Yield/Laws.antt =====
-- The accounts of a pool: what it has yielded is what its tokens have lost.
use Prim.Native.String.{String}
use text.Mathlib.Text.{◌==◌ as string_eq}
use okexchain.Base.{
  ◌≡◌, refl, sym, ap, ◌∙◌, inl, inr, ℤ, pos, ◌+ℤ◌, ◌-ℤ◌, ltb_ℤ, leb_ℤ, eqb_ℤ, int_laws, -ℤ_parts,
  +ℤ_zero, +ℤ_cancel, Bool, true, false, Bool-cases, Option-cases, ◌||◌, ◌&&◌, List, [], ◌∷◌,
  Option, some, arith, if◌then◌else◌, ok, or_fail->>=-eq-ok, ok-eq,
}
use okexchain.Sdk.{SdkDec, DecMath}
use okexchain.Sdk.Coins.{held}
use okexchain.Sdk.Sets.{CoinSets, ModuleBank}
use okexchain.Farm.Types.{YieldedTokenInfo, FarmPool, State, new_dec}
use okexchain.Farm.Yield.{yield_token, yield_tokens, calculate_amount_yielded_between}

-- What is still to be yielded of a denomination.
unfoldable pub to_yield : String → List YieldedTokenInfo → SdkDec
to_yield d [] = pos 0
to_yield d (info ∷ infos) = held d info.remaining_amount +ℤ to_yield d infos

-- No token owes a negative amount.
unfoldable pub none_negative : List YieldedTokenInfo → Bool
none_negative [] = true
none_negative (info ∷ infos) = leb_ℤ (pos 0) info.remaining_amount.amount && none_negative infos

and_true : {a b : Bool} → (a && b) ≡ true → (a ≡ true) × (b ≡ true)
and_true {a = false} h = cc
and_true {a = true} h = (refl, h)

and_intro : {a b : Bool} → a ≡ true → b ≡ true → (a && b) ≡ true
and_intro e f = rw (e, f) refl

left_over : (a b : ℤ) → ltb_ℤ a b ≡ true → leb_ℤ (pos 0) (b -ℤ a) ≡ true
left_over a b h = ground (arith, -ℤ_parts b a)

across : (a l a' l' h : ℤ) → a' +ℤ l' ≡ a +ℤ l → a' +ℤ (h +ℤ l') ≡ a +ℤ (h +ℤ l)
across a l a' l' h e = swap_in a' l' h ∙ ap (◌+ℤ◌ h) e ∙ sym (swap_in a l h)
  where
    swap_in : (x y z : ℤ) → x +ℤ (z +ℤ y) ≡ z +ℤ (x +ℤ y)
    swap_in x y z = omega int_laws

yields :
    (a l a' l' y h h' ay : ℤ)
    → a' +ℤ l' ≡ ay +ℤ l
    → ay ≡ a +ℤ y
    → h ≡ y +ℤ h'
    → a' +ℤ (h' +ℤ l') ≡ a +ℤ (h +ℤ l)
yields a l a' l' y h h' ay e f g =
    across ay l a' l' h' e
    ∙ ap (λ n. n +ℤ (h' +ℤ l)) f
    ∙ regroup a y h' l
    ∙ ap (λ n. a +ℤ (n +ℤ l)) (sym g)
  where
    regroup : (w x z v : ℤ) → w +ℤ x +ℤ (z +ℤ v) ≡ w +ℤ (x +ℤ z +ℤ v)
    regroup w x z v = omega int_laws

totals :
    (a t a' t' y ay ty : ℤ) → a' +ℤ ty ≡ ay +ℤ t' → ay ≡ a +ℤ y → ty ≡ t +ℤ y → a' +ℤ t ≡ a +ℤ t'
totals a t a' t' y ay ty e f g =
    cancel y (shift a' t y ∙ ap (◌+ℤ◌ a') (sym g) ∙ e ∙ ap (λ n. n +ℤ t') f ∙ turn a y t')
  where
    shift : (x z w : ℤ) → x +ℤ z +ℤ w ≡ x +ℤ (z +ℤ w)
    shift x z w = omega int_laws

    turn : (x w z : ℤ) → x +ℤ w +ℤ z ≡ x +ℤ z +ℤ w
    turn x w z = omega int_laws

    cancel : {x z : ℤ} (w : ℤ) → x +ℤ w ≡ z +ℤ w → x ≡ z
    cancel {x} {z} w e = sym (+ℤ_cancel x w) ∙ ap (λ n. n -ℤ w) e ∙ +ℤ_cancel z w

from_empty : (a' z a t' : ℤ) → a' +ℤ z ≡ a +ℤ t' → z ≡ pos 0 → a' ≡ a +ℤ t'
from_empty a' z a t' e f = sym (+ℤ_zero a') ∙ ap (◌+ℤ◌ a') (sym f) ∙ e

some_pair :
    {A B : Type 0} {a a' : A} {b b' : B}
    → ◌≡◌ {A = Option (A × B)} (some (a, b)) (some (a', b'))
    → (a ≡ a') × (b ≡ b')
some_pair h = (cc, cc)

module _ {m : DecMath} (s : CoinSets m) (d : String) where
  open s use {Coins, amount, empty, of_amount, add2}

  -- What the yield farming account holds for a pool.
  abbrev pub accounted : FarmPool s → SdkDec
  accounted pool = amount d pool.total_accumulated_rewards +ℤ to_yield d pool.yielded_token_infos

  held_split :
      (e : String) (a b : SdkDec)
      → (if string_eq e d then a else pos 0)
        ≡ (if string_eq e d then b else pos 0) +ℤ (if string_eq e d then (a -ℤ b) else pos 0)
  held_split e a b = elim (Bool-cases (string_eq e d)) [
    | inl t ↦ rw t (omega int_laws)
    | inr t ↦ rw t (omega int_laws)
  ]

  zero_held :
      (e : String) (a : SdkDec)
      → (if string_eq e d then a else pos 0)
        ≡ (if string_eq e d then a else pos 0) +ℤ (if string_eq e d then pos 0 else pos 0)
  zero_held e a = elim (Bool-cases (string_eq e d)) [
    | inl t ↦ rw t (omega int_laws)
    | inr t ↦ rw t (omega int_laws)
  ]

  yield_token-keeps :
      (start end : ℤ) (info info' : YieldedTokenInfo) (yielded : Coins)
      → yield_token s start end info ≡ some (info', yielded)
      → held d info.remaining_amount ≡ amount d yielded +ℤ held d info'.remaining_amount
  unfolding yield_token
  yield_token-keeps start end info info' yielded h =
      let r = info.remaining_amount in
      let from = info.start_block_height_to_yield in
      let begin = if leb_ℤ start from then from else start in
      let a = m.mul_truncate (new_dec m (end -ℤ begin)) info.amount_yielded_per_block in
      elim (Bool-cases (eqb_ℤ from (pos 0) || leb_ℤ end begin)) [
        | inl idle ↦ let h' = rw idle at h in cc
        | inr runs ↦ elim (Bool-cases (ltb_ℤ a r.amount)) [
          | inl part ↦
              let (e, f) = some_pair (rw (runs, part) at h) in
              held_split r.denom r.amount a
              ∙ ap (λ n. n +ℤ (if string_eq r.denom d then (r.amount -ℤ a) else pos 0))
                  (sym (s.amount-of_amount d r.denom a))
              ∙ ap (λ (p : YieldedTokenInfo × Coins). amount d p.1 +ℤ held d p.0.remaining_amount)
                  (λ i. (e i, f i))
          | inr all ↦
              let (e, f) = some_pair (rw (runs, all) at h) in
              zero_held r.denom r.amount
              ∙ ap (λ n. n +ℤ (if string_eq r.denom d then pos 0 else pos 0))
                  (sym (s.amount-of_amount d r.denom r.amount))
              ∙ ap (λ (p : YieldedTokenInfo × Coins). amount d p.1 +ℤ held d p.0.remaining_amount)
                  (λ i. (e i, f i))
        ]
      ]

  yield_token-none_negative :
      (start end : ℤ) (info info' : YieldedTokenInfo) (yielded : Coins)
      → yield_token s start end info ≡ some (info', yielded)
      → leb_ℤ (pos 0) info'.remaining_amount.amount ≡ true
  unfolding yield_token
  yield_token-none_negative start end info info' yielded h =
      let r = info.remaining_amount in
      let from = info.start_block_height_to_yield in
      let begin = if leb_ℤ start from then from else start in
      let a = m.mul_truncate (new_dec m (end -ℤ begin)) info.amount_yielded_per_block in
      let remains = λ (x : YieldedTokenInfo). leb_ℤ (pos 0) x.remaining_amount.amount in
      elim (Bool-cases (eqb_ℤ from (pos 0) || leb_ℤ end begin)) [
        | inl idle ↦ let h' = rw idle at h in cc
        | inr runs ↦ elim (Bool-cases (ltb_ℤ a r.amount)) [
          | inl part ↦
              let (e, _) = some_pair (rw (runs, part) at h) in
              ap remains (sym e) ∙ left_over a r.amount part
          | inr all ↦ let (e, _) = some_pair (rw (runs, all) at h) in ap remains (sym e)
        ]
      ]

  yield_tokens-none_negative :
      (start end : ℤ) (infos : List YieldedTokenInfo) (accumulated total : Coins)
      → none_negative infos ≡ true
      → none_negative (yield_tokens s start end infos accumulated total).0 ≡ true
  unfolding yield_tokens none_negative
  yield_tokens-none_negative start end [] accumulated total h = refl
  yield_tokens-none_negative start end (info ∷ infos) accumulated total h =
      let (h1, h2) = and_true h in
      elim (Option-cases (yield_token s start end info)) [
        | inl e ↦
            rw (yield_tokens, e)
              (and_intro h1 (yield_tokens-none_negative start end infos accumulated total h2))
        | inr ((info', yielded), e) ↦
            rw (yield_tokens, e)
              (and_intro (yield_token-none_negative start end info info' yielded e) (
                yield_tokens-none_negative start end infos (add2 accumulated yielded)
                  (add2 total yielded) h2))
      ]

  yield_tokens-keeps :
      (start end : ℤ) (infos : List YieldedTokenInfo) (accumulated total : Coins)
      → let (infos', accumulated', total') = yield_tokens s start end infos accumulated total in
        (amount d accumulated' +ℤ to_yield d infos' ≡ amount d accumulated +ℤ to_yield d infos)
        × (amount d accumulated' +ℤ amount d total ≡ amount d accumulated +ℤ amount d total')
  unfolding yield_tokens to_yield
  yield_tokens-keeps start end [] accumulated total = (refl, refl)
  yield_tokens-keeps start end (info ∷ infos) accumulated total =
      elim (Option-cases (yield_token s start end info)) [
        | inl e ↦
            let (ih1, ih2) = yield_tokens-keeps start end infos accumulated total in
            rw (yield_tokens, e) (across _ _ _ _ _ ih1, ih2)
        | inr ((info', yielded), e) ↦
            let (ih1, ih2) =
              yield_tokens-keeps start end infos (add2 accumulated yielded) (add2 total yielded) in
            let one = yield_token-keeps start end info info' yielded e in
            let acc = s.amount-add2 d accumulated yielded in
            let tot = s.amount-add2 d total yielded in
            rw (yield_tokens, e)
              (yields _ _ _ _ _ _ _ _ ih1 acc one, totals _ _ _ _ _ _ _ ih2 acc tot)
      ]

  -- CalculateAmountYieldedBetween moves rewards within a pool and changes nothing else of it.
  pub calculate_amount_yielded_between-keeps :
      (k : ModuleBank s) (pool updated : FarmPool s) (yielded : Coins) (st : State s k)
      → calculate_amount_yielded_between s k pool st ≡ ok (updated, yielded)
      → (accounted updated ≡ accounted pool)
        × (amount d updated.total_accumulated_rewards
            ≡ amount d pool.total_accumulated_rewards +ℤ amount d yielded)
        × (updated.name ≡ pool.name)
        × (updated.total_value_locked ≡ pool.total_value_locked)
        × (updated.deposit_amount ≡ pool.deposit_amount)
        × (none_negative pool.yielded_token_infos ≡ true
            → none_negative updated.yielded_token_infos ≡ true)
  unfolding calculate_amount_yielded_between
  calculate_amount_yielded_between-keeps k pool updated yielded st h =
      let (current, _, h1) = or_fail->>=-eq-ok (st.current pool.name) _ _ h in
      let (keeps, adds) =
        yield_tokens-keeps current.start_block_height st.height pool.yielded_token_infos
          pool.total_accumulated_rewards empty in
      let after = ok-eq h1 in
      (
        ap (λ (p : FarmPool s × Coins). accounted p.0) (sym after) ∙ keeps,
        ap (λ (p : FarmPool s × Coins). amount d p.0.total_accumulated_rewards) (sym after)
            ∙ from_empty _ _ _ _ adds (s.amount-empty d)
            ∙ ap
                (λ (p : FarmPool s × Coins).
                  amount d pool.total_accumulated_rewards +ℤ amount d p.1)
                after,
        ap (λ (p : FarmPool s × Coins). p.0.name) (sym after),
        ap (λ (p : FarmPool s × Coins). p.0.total_value_locked) (sym after),
        ap (λ (p : FarmPool s × Coins). p.0.deposit_amount) (sym after),
        λ n.
            ap (λ (p : FarmPool s × Coins). none_negative p.0.yielded_token_infos) (sym after)
            ∙ yield_tokens-none_negative current.start_block_height st.height
                pool.yielded_token_infos pool.total_accumulated_rewards empty n,
      )
