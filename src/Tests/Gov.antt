-- ===== src/Tests/Gov.antt =====
-- Votes of two validators and two delegators on a proposal.

use Prim.Native.String.{String}
use text.Mathlib.Text.{◌==◌ as string_eq}
use okexchain.Base.{
  ◌≡◌, refl, arith, pos, ◌+ℤ◌, ◌-ℤ◌, Bool, true, false, List, [], ◌∷◌, Option, none, some,
  if◌then◌else◌, ok, get, put, total, HasOneEach,
}
use okexchain.Gov.Tally.{
  Vote, Votes, yes_option, no_option, ProposalStatus, rejected, Delegator, Staking, TallyParams,
  TallyResult, Counted, nothing_counted, tally_delegator_votes, curr_validators, pre_tally,
  tally_vote, tally_delegator, tally_shares, tally_share, add_result, tally_validator_votes,
  tally_validator, is_voter,
}
use okexchain.Gov.Outcome.{
  tally, tally_status, shares_of, quo_by, tally_status_expire_vote_period, majority_after_period,
}
use okexchain.Gov.Counts.{sum, silent}
use okexchain.Gov.Counts.All.{tally-counts}
use okexchain.Gov.Decides.{tally_status-Returns}
use okexchain.Tests.Setting.{dec_math, signed}

abbrev delegator_of : String → Option Delegator
delegator_of voter =
    if string_eq voter "dan"
    then some (record { last_added_shares = pos 3; share_added_validators = "val" ∷ ("vic" ∷ []) })
    else none

abbrev staking : Staking
staking = record {
  val_address = λ voter. voter;
  delegator = delegator_of;
  bonded_validators = ("val", pos 10) ∷ (("vic", pos 20) ∷ []);
}

abbrev params : TallyParams
params = record {
  quorum = pos 33400000;
  threshold = pos 50000000;
  veto = pos 33400000;
  yes_in_vote_period = pos 66700000;
}

abbrev votes : List Vote
votes =
    record { voter = "val"; option = no_option }
    ∷ (record { voter = "dan"; option = yes_option } ∷ [])

abbrev numbers : Votes
numbers = record { yes = pos 6; abstain = pos 0; no = pos 7; no_with_veto = pos 0 }

abbrev result : TallyResult
result = record { total_power = pos 30; total_voted_power = pos 13; votes = numbers }

tally_ok : tally dec_math staking params votes true ≡ ok ((rejected, false), result)
unfolding tally pre_tally nothing_counted curr_validators tally_delegator_votes tally_vote
    tally_delegator tally_shares tally_share add_result tally_validator_votes tally_validator
    is_voter shares_of tally_status_expire_vote_period majority_after_period quo_by dec_math signed
    get put ◌+ℤ◌ ◌-ℤ◌
tally_ok = refl

each_once : HasOneEach staking.bonded_validators
unfolding get
each_once = (refl, (refl, tt))

tally-counts_example :
    (sum result.votes ≡ result.total_voted_power)
    × ((delegated : Counted) × (tally_delegator_votes staking votes (nothing_counted staking)
          ≡ ok delegated)
        × (result.total_voted_power +ℤ total silent delegated.validators ≡ result.total_power))
tally-counts_example =
    tally-counts dec_math staking params votes true (rejected, false) result each_once tally_ok

numbers_add_up : sum numbers ≡ pos 13
unfolding ◌+ℤ◌
numbers_add_up = refl

tally_status-Returns_example :
    (out : ProposalStatus × Bool) × (tally_status dec_math true params result ≡ ok out)
tally_status-Returns_example =
    tally_status-Returns dec_math true params result (omega arith) (omega arith) (omega arith)
      (omega arith) numbers_add_up
