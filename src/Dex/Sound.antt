-- ===== src/Dex/Sound.antt =====
-- What holds of the stores of x/dex: a pair stands under its name, a withdrawal under its owner and
-- with a key at its time, and no amount is negative.
use Prim.Native.String.{String}
use text.Mathlib.Text.{◌==◌ as string_eq}
use okexchain.Base.{
  ◌≡◌, refl, sym, ap, ◌∙◌, subst, inl, inr, pos, ◌≤ℤ◌, true, false, Bool-cases, List, Option, none,
  some, get, put, delete, HasOneEach, put-HasOneEach, delete-HasOneEach, get-put-cases,
  get-delete-some, get-put_self, get-put_other, get-delete_other, same_text,
}
use okexchain.Dex.Types.{Time, TokenPair, pair_name, WithdrawInfo}
use okexchain.Dex.Keys.{
  has_withdraw_time, same_time_key-eq, same_key_refl, has-set_withdraw_time,
  has-set_withdraw_time_other, has-set_withdraw_time_from, has-delete_withdraw_time_other,
  has-delete_withdraw_time_from, has-without_withdraw_time,
}
use okexchain.Dex.Keeper.{
  same_time_key, set_withdraw_time, delete_withdraw_time, without_withdraw_time,
}

pub record ArePairs (pairs : List (String × TokenPair)) : Type 0 where
  pub one_each : HasOneEach pairs
  pub named :
      (product : String) (pair : TokenPair)
      → get product pairs ≡ some pair
      → pair_name pair ≡ product
  pub not_negative :
      (product : String) (pair : TokenPair)
      → get product pairs ≡ some pair
      → pos 0 ≤ℤ pair.deposits.amount

pub record AreWithdraws (withdraws : List (String × WithdrawInfo)) (keys : List (Time × String))
    : Type 0 where
  pub one_each : HasOneEach withdraws
  pub owned :
      (addr : String) (info : WithdrawInfo) → get addr withdraws ≡ some info → info.owner ≡ addr
  pub not_negative :
      (addr : String) (info : WithdrawInfo)
      → get addr withdraws ≡ some info
      → pos 0 ≤ℤ info.deposits.amount
  pub timed :
      (addr : String) (info : WithdrawInfo)
      → get addr withdraws ≡ some info
      → has_withdraw_time info.complete_time addr keys ≡ true
  pub keyed :
      (time : Time) (addr : String)
      → has_withdraw_time time addr keys ≡ true
      → (info : WithdrawInfo) × (get addr withdraws ≡ some info) × (info.complete_time ≡ time)

pub put-ArePairs :
    (product : String) (pair : TokenPair) (pairs : List (String × TokenPair))
    → pair_name pair ≡ product
    → pos 0 ≤ℤ pair.deposits.amount
    → ArePairs pairs
    → ArePairs (put product pair pairs)
put-ArePairs product pair pairs name rich h = record {
  one_each = put-HasOneEach product pair pairs h.one_each;
  named = λ j v e. elim (get-put-cases product j pair v pairs e) [
    | inl (same, e') ↦ ap pair_name (sym e') ∙ name ∙ same
    | inr (other, e') ↦ h.named j v e'
  ];
  not_negative = λ j v e. elim (get-put-cases product j pair v pairs e) [
    | inl (same, e') ↦ subst (λ (p : TokenPair). pos 0 ≤ℤ p.deposits.amount) e' rich
    | inr (other, e') ↦ h.not_negative j v e'
  ];
}

pub delete-ArePairs :
    (product : String) (pairs : List (String × TokenPair))
    → ArePairs pairs
    → ArePairs (delete product pairs)
delete-ArePairs product pairs h = record {
  one_each = delete-HasOneEach product pairs h.one_each;
  named = λ j v e. h.named j v (get-delete-some product j v pairs h.one_each e).1;
  not_negative = λ j v e. h.not_negative j v (get-delete-some product j v pairs h.one_each e).1;
}

some-is : {v w : WithdrawInfo} → some v ≡ some w → v ≡ w
some-is h = cc

-- Another key than the new one is an old one of another account.
older :
    (addr : String) (o : Option WithdrawInfo) (withdraws : List (String × WithdrawInfo))
    (keys : List (Time × String)) (v : Time) (d : String)
    → get addr withdraws ≡ o
    → AreWithdraws withdraws keys
    → has_withdraw_time v d (without_withdraw_time addr o keys) ≡ true
    → (string_eq addr d ≡ false) × (has_withdraw_time v d keys ≡ true)
older addr none withdraws keys v d found h e = elim (Bool-cases (string_eq addr d)) [
  | inr t ↦ (t, e)
  | inl t ↦
      let (info, there, at) = h.keyed v d e in
      let same : none ≡ some info = sym found ∙ ap (λ a. get a withdraws) (same_text t) ∙ there in
      cc
]
older addr (some i) withdraws keys v d found h e =
    let (ne, old) = has-delete_withdraw_time_from i.complete_time addr v d keys e in
    elim (Bool-cases (string_eq addr d)) [
      | inr t ↦ (t, old)
      | inl t ↦
          let (info, there, at) = h.keyed v d old in
          let d_eq : addr ≡ d = same_text t in
          let same : i ≡ info = some-is (sym found ∙ ap (λ a. get a withdraws) d_eq ∙ there) in
          let time : i.complete_time ≡ v = ap (λ (w : WithdrawInfo). w.complete_time) same ∙ at in
          cc (
            sym (same_key_refl i.complete_time addr)
            ∙ ap (λ x. same_time_key i.complete_time addr x addr) time
            ∙ ap (same_time_key i.complete_time addr v) d_eq
            ∙ ne)
    ]

put-keyed :
    (addr : String) (info : WithdrawInfo) (withdraws : List (String × WithdrawInfo))
    (keys : List (Time × String))
    → AreWithdraws withdraws keys
    → (v : Time) (d : String)
    → has_withdraw_time v d (
        set_withdraw_time info.complete_time addr
          (without_withdraw_time addr (get addr withdraws) keys))
      ≡ true
    → (i : WithdrawInfo) × (get d (put addr info withdraws) ≡ some i) × (i.complete_time ≡ v)
put-keyed addr info withdraws keys h v d e =
    elim (Bool-cases (same_time_key info.complete_time addr v d)) [
      | inl same ↦
          let (time, d_eq) = same_time_key-eq info.complete_time addr v d same in
          (
            info,
            ap (λ a. get a (put addr info withdraws)) (sym d_eq) ∙ get-put_self addr info withdraws,
            time,
          )
      | inr other ↦
          let (ne, old) =
            older addr (get addr withdraws) withdraws keys v d refl h
              (has-set_withdraw_time_from info.complete_time addr v d _ e other) in
          let (i, found, at) = h.keyed v d old in
          (i, get-put_other addr d info withdraws ne ∙ found, at)
    ]

pub put-AreWithdraws :
    (addr : String) (info : WithdrawInfo) (withdraws : List (String × WithdrawInfo))
    (keys : List (Time × String))
    → info.owner ≡ addr
    → pos 0 ≤ℤ info.deposits.amount
    → AreWithdraws withdraws keys
    → AreWithdraws (put addr info withdraws) (
        set_withdraw_time info.complete_time addr
          (without_withdraw_time addr (get addr withdraws) keys))
put-AreWithdraws addr info withdraws keys own rich h =
    let o = get addr withdraws in
    let later = set_withdraw_time info.complete_time addr (without_withdraw_time addr o keys) in
    record {
      one_each = put-HasOneEach addr info withdraws h.one_each;
      owned = λ j v e. elim (get-put-cases addr j info v withdraws e) [
        | inl (same, e') ↦ ap (λ (w : WithdrawInfo). w.owner) (sym e') ∙ own ∙ same
        | inr (other, e') ↦ h.owned j v e'
      ];
      not_negative = λ j v e. elim (get-put-cases addr j info v withdraws e) [
        | inl (same, e') ↦ subst (λ (w : WithdrawInfo). pos 0 ≤ℤ w.deposits.amount) e' rich
        | inr (other, e') ↦ h.not_negative j v e'
      ];
      timed = λ j v e. elim (get-put-cases addr j info v withdraws e) [
        | inl (same, e') ↦
            ap (λ (w : WithdrawInfo). has_withdraw_time w.complete_time j later) (sym e')
            ∙ ap (λ a. has_withdraw_time info.complete_time a later) (sym same)
            ∙ has-set_withdraw_time info.complete_time addr (without_withdraw_time addr o keys)
        | inr (other, e') ↦
            has-set_withdraw_time_other info.complete_time addr v.complete_time j _
              (has-without_withdraw_time addr o v.complete_time j keys other (h.timed j v e'))
      ];
      keyed = put-keyed addr info withdraws keys h;
    }

-- The key is that of the withdrawal which is deleted, where there is one.
pub delete-AreWithdraws :
    (addr : String) (time : Time) (withdraws : List (String × WithdrawInfo))
    (keys : List (Time × String))
    → ((info : WithdrawInfo) → get addr withdraws ≡ some info → info.complete_time ≡ time)
    → AreWithdraws withdraws keys
    → AreWithdraws (delete addr withdraws) (delete_withdraw_time time addr keys)
delete-AreWithdraws addr time withdraws keys due h =
    let from = λ (j : String) (v : WithdrawInfo) (e : get j (delete addr withdraws) ≡ some v).
      get-delete-some addr j v withdraws h.one_each e in
    record {
      one_each = delete-HasOneEach addr withdraws h.one_each;
      owned = λ j v e. h.owned j v (from j v e).1;
      not_negative = λ j v e. h.not_negative j v (from j v e).1;
      timed = λ j v e.
          has-delete_withdraw_time_other time addr v.complete_time j keys (from j v e).0
            (h.timed j v (from j v e).1);
      keyed = λ v d e.
          let (ne, old) = has-delete_withdraw_time_from time addr v d keys e in
          let (info, found, at) = h.keyed v d old in
          (info, get-delete_other addr d withdraws (apart v d info ne found at) ∙ found, at);
    }
  where
    apart :
        (v : Time) (d : String) (info : WithdrawInfo)
        → same_time_key time addr v d ≡ false
        → get d withdraws ≡ some info
        → info.complete_time ≡ v
        → string_eq addr d ≡ false
    apart v d info ne found at = elim (Bool-cases (string_eq addr d)) [
      | inr t ↦ t
      | inl t ↦
          let e : addr ≡ d = same_text t in
          let at' : time ≡ v = sym (due info (ap (λ a. get a withdraws) e ∙ found)) ∙ at in
          cc (
            sym (same_key_refl time addr)
            ∙ ap (λ x. same_time_key time addr x addr) at'
            ∙ ap (same_time_key time addr v) e
            ∙ ne)
    ]
