-- ===== src/Gov/Decides.antt =====
-- tallyStatusInVotePeriod and tallyStatusExpireVotePeriod of x/gov/keeper/tally.go: their divisions.
use okexchain.Base.{
  ◌≡◌, ◌≢◌, ℕ, ◌==◌, refl, ap, inl, inr, ℤ, pos, pos_part, neg_part, ◌+ℤ◌, ◌-ℤ◌, ◌≤ℤ◌, ltb_ℤ, leb_ℤ,
  eqb_ℤ, int_laws, arith, Bool, true, false, Bool-cases, Result, ok,
}
use okexchain.Sdk.{SdkDec, DecMath}
use okexchain.Gov.Tally.{ProposalStatus, TallyParams, TallyResult, TallyError}
use okexchain.Gov.Outcome.{
  quo_by, majority_in_period, tally_status_in_vote_period, majority_after_period,
  tally_status_expire_vote_period, tally_status,
}

-- The result is a status and a flag.
record Returns (r : Result TallyError (ProposalStatus × Bool)) : Type 0 where
  out : ProposalStatus × Bool
  returned : r ≡ ok out

ok_of : (out : ProposalStatus × Bool) → Returns (ok out)
ok_of out = record { out = out; returned = refl }

module _ (m : DecMath) where
  divides : (a b : SdkDec) → eqb_ℤ b (pos 0) ≡ false → quo_by m a b ≡ ok (m.quo a b)
  unfolding quo_by
  divides a b h = rw h

  majority_in_period-Returns :
      (params : TallyParams) (res : TallyResult)
      → eqb_ℤ res.total_power (pos 0) ≡ false
      → eqb_ℤ (res.total_power -ℤ res.votes.abstain) (pos 0) ≡ false
      → Returns (majority_in_period m params res)
  unfolding majority_in_period
  majority_in_period-Returns params res h h' =
      let against = res.votes.no_with_veto +ℤ res.votes.no in
      let others = res.total_power -ℤ res.votes.abstain in
      rw (divides against others h')
        (elim (Bool-cases (leb_ℤ params.threshold (m.quo against others))) [
          | inl t ↦ rw t (ok_of _)
          | inr t ↦ rw t (rw (divides res.votes.yes res.total_power h) (ok_of _))
        ])

  majority_after_period-Returns :
      (params : TallyParams) (res : TallyResult)
      → (eqb_ℤ (res.total_voted_power -ℤ res.votes.abstain) (pos 0) ≡ false
          → eqb_ℤ res.total_voted_power (pos 0) ≡ false)
      → Returns (majority_after_period m params res)
  unfolding majority_after_period
  majority_after_period-Returns params res some_voted =
      let others = res.total_voted_power -ℤ res.votes.abstain in
      let vetoed = m.quo res.votes.no_with_veto res.total_voted_power in
      elim (Bool-cases (eqb_ℤ others (pos 0))) [
        | inl t ↦ rw t (ok_of _)
        | inr t ↦ rw t (
            rw (divides res.votes.no_with_veto res.total_voted_power (some_voted t))
              (elim (Bool-cases (ltb_ℤ params.veto vetoed)) [
                | inl u ↦ rw u (ok_of _)
                | inr u ↦ rw u (rw (divides res.votes.yes others t) (ok_of _))
              ]))
      ]

  tally_status_in_vote_period-Returns :
      (params : TallyParams) (res : TallyResult)
      → Returns (tally_status_in_vote_period m params res)
  unfolding tally_status_in_vote_period
  tally_status_in_vote_period-Returns params res =
      let others = res.total_power -ℤ res.votes.abstain in
      let vetoed = m.quo res.votes.no_with_veto res.total_power in
      elim (Bool-cases (eqb_ℤ res.total_power (pos 0))) [
        | inl t ↦ rw t (ok_of _)
        | inr t ↦ rw t (elim (Bool-cases (eqb_ℤ others (pos 0))) [
          | inl u ↦ rw u (ok_of _)
          | inr u ↦ rw u (
              rw (divides res.votes.no_with_veto res.total_power t)
                (elim (Bool-cases (ltb_ℤ params.veto vetoed)) [
                  | inl v ↦ rw v (ok_of _)
                  | inr v ↦ rw v (majority_in_period-Returns params res t u)
                ]))
        ])
      ]

  tally_status_expire_vote_period-Returns :
      (params : TallyParams) (res : TallyResult)
      → (eqb_ℤ (res.total_voted_power -ℤ res.votes.abstain) (pos 0) ≡ false
          → eqb_ℤ res.total_voted_power (pos 0) ≡ false)
      → Returns (tally_status_expire_vote_period m params res)
  unfolding tally_status_expire_vote_period
  tally_status_expire_vote_period-Returns params res some_voted =
      let voting = m.quo res.total_voted_power res.total_power in
      elim (Bool-cases (eqb_ℤ res.total_power (pos 0))) [
        | inl t ↦ rw t (ok_of _)
        | inr t ↦ rw t (
            rw (divides res.total_voted_power res.total_power t)
              (elim (Bool-cases (ltb_ℤ voting params.quorum)) [
                | inl u ↦ rw u (ok_of _)
                | inr u ↦ rw u (majority_after_period-Returns params res some_voted)
              ]))
      ]

  -- Where no option has a negative number and the four numbers add up to the voted power, both
  -- functions return a status, whatever the parameters are: no division is by zero.
  pub tally_status-Returns :
      (expired : Bool) (params : TallyParams) (res : TallyResult)
      → pos 0 ≤ℤ res.votes.yes
      → pos 0 ≤ℤ res.votes.abstain
      → pos 0 ≤ℤ res.votes.no
      → pos 0 ≤ℤ res.votes.no_with_veto
      → res.votes.yes +ℤ res.votes.abstain +ℤ res.votes.no +ℤ res.votes.no_with_veto
        ≡ res.total_voted_power
      → (out : ProposalStatus × Bool) × (tally_status m expired params res ≡ ok out)
  tally_status-Returns false params res hy ha hn hv sums =
      let returns = tally_status_in_vote_period-Returns params res in
      (returns.out, returns.returned)
  tally_status-Returns true params res hy ha hn hv sums =
      let returns = tally_status_expire_vote_period-Returns params res (
        not_all_abstain res.votes.yes res.votes.abstain res.votes.no res.votes.no_with_veto
          res.total_voted_power hy ha hn hv sums) in
      (returns.out, returns.returned)
    where
      same : (x y : ℕ) → (x == y) ≡ true → x ≡ y
      same x y t = ground arith

      differ : (x y : ℕ) → (x == y) ≡ false → x ≢ y
      differ x y t = ground arith

      not_all_abstain :
          (y a n v w : ℤ)
          → pos 0 ≤ℤ y
          → pos 0 ≤ℤ a
          → pos 0 ≤ℤ n
          → pos 0 ≤ℤ v
          → y +ℤ a +ℤ n +ℤ v ≡ w
          → eqb_ℤ (w -ℤ a) (pos 0) ≡ false
          → eqb_ℤ w (pos 0) ≡ false
      not_all_abstain y a n v w hy ha hn hv sums h = elim (Bool-cases (eqb_ℤ w (pos 0))) [
        | inl t ↦
            absurd (differ _ _ h (omega (int_laws, same _ _ t, ap pos_part sums, ap neg_part sums)))
        | inr t ↦ t
      ]
