-- ===== src/Gov/Outcome.antt =====
-- x/gov/keeper/tally.go: the status that the votes on a proposal lead to, while they are taken and
-- afterwards. The flag beside a status says whether the deposits are distributed.
use Prim.Native.String.{String}
use okexchain.Base.{
  pos, ◌+ℤ◌, ◌-ℤ◌, ltb_ℤ, leb_ℤ, eqb_ℤ, Bool, true, false, List, [], ◌∷◌, none, if◌then◌else◌,
  Result, ok, err, ◌>>=◌,
}
use okexchain.Sdk.{SdkDec, DecMath}
use okexchain.Gov.Tally.{
  Vote, Votes, ProposalStatus, passed, rejected, voting_period, TallyParams, TallyResult,
  TallyError, panicked, Staking, pre_tally,
}

-- Keeper.totalPower
unfoldable pub shares_of : List (String × SdkDec) → SdkDec
shares_of [] = pos 0
shares_of ((key, shares) ∷ bonded) = shares +ℤ shares_of bonded

module _ (m : DecMath) where
  -- Quo, which panics on zero
  unfoldable pub quo_by : SdkDec → SdkDec → Result TallyError SdkDec
  quo_by a b = if eqb_ℤ b (pos 0) then err panicked else ok (m.quo a b)

  -- The last two tests of tallyStatusInVotePeriod
  unfoldable pub majority_in_period :
      TallyParams → TallyResult → Result TallyError (ProposalStatus × Bool)
  majority_in_period params res = do
    against ← quo_by (res.votes.no_with_veto +ℤ res.votes.no) (res.total_power -ℤ res.votes.abstain)
    if leb_ℤ params.threshold against then ok (rejected, false) else do
      in_favour ← quo_by res.votes.yes res.total_power
      ok (
          if ltb_ℤ params.yes_in_vote_period in_favour
          then (passed, false)
          else (voting_period, false))

  -- tallyStatusInVotePeriod
  unfoldable pub tally_status_in_vote_period :
      TallyParams → TallyResult → Result TallyError (ProposalStatus × Bool)
  tally_status_in_vote_period params res =
      if eqb_ℤ res.total_power (pos 0)
      then ok (rejected, false)
      else if eqb_ℤ (res.total_power -ℤ res.votes.abstain) (pos 0)
      then ok (rejected, false)
      else do
        vetoed ← quo_by res.votes.no_with_veto res.total_power
        if ltb_ℤ params.veto vetoed then ok (rejected, true) else majority_in_period params res

  -- The tests of tallyStatusExpireVotePeriod after the quorum
  unfoldable pub majority_after_period :
      TallyParams → TallyResult → Result TallyError (ProposalStatus × Bool)
  majority_after_period params res =
      if eqb_ℤ (res.total_voted_power -ℤ res.votes.abstain) (pos 0)
      then ok (rejected, false)
      else do
        vetoed ← quo_by res.votes.no_with_veto res.total_voted_power
        if ltb_ℤ params.veto vetoed then ok (rejected, true) else do
          in_favour ← quo_by res.votes.yes (res.total_voted_power -ℤ res.votes.abstain)
          ok (if ltb_ℤ params.threshold in_favour then (passed, false) else (rejected, false))

  -- tallyStatusExpireVotePeriod
  unfoldable pub tally_status_expire_vote_period :
      TallyParams → TallyResult → Result TallyError (ProposalStatus × Bool)
  tally_status_expire_vote_period params res =
      if eqb_ℤ res.total_power (pos 0) then ok (rejected, false) else do
        percent_voting ← quo_by res.total_voted_power res.total_power
        if ltb_ℤ percent_voting params.quorum
            then ok (rejected, true)
            else majority_after_period params res

  -- What Tally hands to the two functions
  abbrev pub tally_results : Staking → Votes × SdkDec × SdkDec → TallyResult
  tally_results staking (votes, total_voted_power, rate) = record {
    total_power = shares_of staking.bonded_validators;
    total_voted_power = total_voted_power;
    votes = votes;
  }

  abbrev pub tally_status :
      Bool → TallyParams → TallyResult → Result TallyError (ProposalStatus × Bool)
  tally_status true params res = tally_status_expire_vote_period params res
  tally_status false params res = tally_status_in_vote_period params res

  -- Tally
  unfoldable pub tally :
      Staking
      → TallyParams
      → List Vote
      → Bool
      → Result TallyError ((ProposalStatus × Bool) × TallyResult)
  tally staking params votes is_expire_vote_end_time = do
    counted ← pre_tally m staking votes none
    status ← tally_status is_expire_vote_end_time params (tally_results staking counted)
    ok (status, tally_results staking counted)
