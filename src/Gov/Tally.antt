-- ===== src/Gov/Tally.antt =====
-- x/gov/keeper/tally.go: the votes on a proposal with the power of validators and delegators. The addresses are texts. A validator of the map is stored under
-- the text of its address; the map is a list of entries.
use Prim.Native.String.{String}
use okexchain.Base.{
  pos, ◌+ℤ◌, ◌-ℤ◌, ltb_ℤ, Bool, true, false, List, [], ◌∷◌, ◌++◌, Option, none, some, if◌then◌else◌,
  Result, ok, ◌>>=◌, or_fail, get, put,
}
use text.Mathlib.Text.{◌==◌ as string_eq}
use okexchain.Sdk.{SdkDec, DecMath}

pub data VoteOption : Type 0 where
  empty_option yes_option abstain_option no_option no_with_veto_option : VoteOption

pub data ProposalStatus : Type 0 where
  nil_status deposit_period voting_period passed rejected failed : ProposalStatus

pub record Vote : Type 0 where
  pub voter : String
  pub option : VoteOption

-- Without the address, which is the key, and the bonded tokens, which nothing reads
pub record ValidatorGovInfo : Type 0 where
  pub delegator_shares : SdkDec
  pub delegator_deductions : SdkDec
  pub vote : VoteOption

pub record TallyParams : Type 0 where
  pub quorum : SdkDec
  pub threshold : SdkDec
  pub veto : SdkDec
  pub yes_in_vote_period : SdkDec

-- The map of results at the four options that preTally gives a value
pub record Votes : Type 0 where
  pub yes : SdkDec
  pub abstain : SdkDec
  pub no : SdkDec
  pub no_with_veto : SdkDec

pub record TallyResult : Type 0 where
  pub total_power : SdkDec
  pub total_voted_power : SdkDec
  pub votes : Votes

-- What x/staking knows of a delegator
pub record Delegator : Type 0 where
  pub last_added_shares : SdkDec
  pub share_added_validators : List String

-- A number that is missing in the map of results and a division by zero panic.
pub data TallyError : Type 0 where
  panicked : TallyError

-- What x/staking and the SDK say: the text of an account's address as a validator's, the
-- delegators, and the bonded validators by power with their shares.
pub record Staking : Type 0 where
  pub val_address : String → String
  pub delegator : String → Option Delegator
  pub bonded_validators : List (String × SdkDec)

pub record Counted : Type 0 where
  pub validators : List (String × ValidatorGovInfo)
  pub votes : Votes
  pub total_voted_power : SdkDec
  pub voter_power : SdkDec
  pub total_power : SdkDec

-- results[option] = results[option].Add(power)
unfoldable pub add_result : VoteOption → SdkDec → Votes → Option Votes
add_result empty_option power votes = none
add_result yes_option power votes = some (record votes { yes = votes.yes +ℤ power })
add_result abstain_option power votes = some (record votes { abstain = votes.abstain +ℤ power })
add_result no_option power votes = some (record votes { no = votes.no +ℤ power })
add_result no_with_veto_option power votes =
    some (record votes { no_with_veto = votes.no_with_veto +ℤ power })

abbrev pub is_empty : VoteOption → Bool
is_empty empty_option = true
is_empty yes_option = false
is_empty abstain_option = false
is_empty no_option = false
is_empty no_with_veto_option = false

-- A delegator's shares for one validator. What the code adds to voterPower here is thrown away.
unfoldable pub tally_share :
    VoteOption → SdkDec → String → Option ValidatorGovInfo → Counted → Result TallyError Counted
tally_share choice shares val none c = ok c
tally_share choice shares val (some info) c = do
  let deducted : ValidatorGovInfo = record info {
    delegator_deductions = info.delegator_deductions +ℤ shares;
  }
  votes ← or_fail (add_result choice shares c.votes) panicked
  ok (record c {
    validators = put val deducted c.validators;
    votes = votes;
    total_voted_power = c.total_voted_power +ℤ shares;
  })

unfoldable pub tally_shares :
    VoteOption → SdkDec → List String → Counted → Result TallyError Counted
tally_shares choice shares [] c = ok c
tally_shares choice shares (val ∷ vals) c = do
  c' ← tally_share choice shares val (get val c.validators) c
  tally_shares choice shares vals c'

-- The vote of a delegator, if the voter is one
unfoldable pub tally_delegator : VoteOption → Option Delegator → Counted → Result TallyError Counted
tally_delegator choice none c = ok c
tally_delegator choice (some delegation) c =
    tally_shares choice delegation.last_added_shares delegation.share_added_validators c

-- The vote of a validator is recorded, any other is a delegator's.
unfoldable pub tally_vote :
    Staking → Vote → Option ValidatorGovInfo → Counted → Result TallyError Counted
tally_vote staking vote (some info) c = ok (record c {
  validators =
      put (staking.val_address vote.voter) (record info { vote = vote.option }) c.validators;
})
tally_vote staking vote none c = tally_delegator vote.option (staking.delegator vote.voter) c

-- The loop of tallyDelegatorVotes over the votes
unfoldable pub tally_delegator_votes : Staking → List Vote → Counted → Result TallyError Counted
tally_delegator_votes staking [] c = ok c
tally_delegator_votes staking (vote ∷ votes) c = do
  c' ← tally_vote staking vote (get (staking.val_address vote.voter) c.validators) c
  tally_delegator_votes staking votes c'

-- Whether the vote to ask about is this validator's
unfoldable pub is_voter : Staking → Option Vote → String → Bool
is_voter staking none key = false
is_voter staking (some vote) key = string_eq (staking.val_address vote.voter) key

-- One validator of tallyValidatorVotes, after its shares are added to the total power
unfoldable pub tally_validator : Bool → ValidatorGovInfo → Counted → Result TallyError Counted
tally_validator of_voter info c = if is_empty info.vote then ok c else do
  let power : SdkDec = info.delegator_shares -ℤ info.delegator_deductions
  votes ← or_fail (add_result info.vote power c.votes) panicked
  ok (record c {
    voter_power = if of_voter then c.voter_power +ℤ power else c.voter_power;
    votes = votes;
    total_voted_power = c.total_voted_power +ℤ power;
  })

-- tallyValidatorVotes
unfoldable pub tally_validator_votes :
    Staking → Option Vote → List (String × ValidatorGovInfo) → Counted → Result TallyError Counted
tally_validator_votes staking vote_p [] c = ok c
tally_validator_votes staking vote_p ((key, info) ∷ validators) c = do
  c' ←
      tally_validator (is_voter staking vote_p key) info
        (record c { total_power = c.total_power +ℤ info.delegator_shares })
  tally_validator_votes staking vote_p validators c'

abbrev pub new_info : SdkDec → ValidatorGovInfo
new_info shares = record {
  delegator_shares = shares;
  delegator_deductions = pos 0;
  vote = empty_option;
}

-- The map of the current validators
unfoldable pub curr_validators :
    List (String × SdkDec) → List (String × ValidatorGovInfo) → List (String × ValidatorGovInfo)
curr_validators [] validators = validators
curr_validators ((key, shares) ∷ bonded) validators =
    curr_validators bonded (put key (new_info shares) validators)

-- What preTally starts with
unfoldable pub nothing_counted : Staking → Counted
nothing_counted staking = record {
  validators = curr_validators staking.bonded_validators [];
  votes = record { yes = pos 0; abstain = pos 0; no = pos 0; no_with_veto = pos 0 };
  total_voted_power = pos 0;
  voter_power = pos 0;
  total_power = pos 0;
}

-- The votes of a proposal, and the one to ask about
abbrev pub with_vote : List Vote → Option Vote → List Vote
with_vote votes none = votes
with_vote votes (some vote) = votes ++ (vote ∷ [])

-- preTally, with the rate of voterPower among its results
unfoldable pub pre_tally :
    DecMath → Staking → List Vote → Option Vote → Result TallyError (Votes × SdkDec × SdkDec)
pre_tally m staking votes vote_p = do
  delegated ← tally_delegator_votes staking (with_vote votes vote_p) (nothing_counted staking)
  c ← tally_validator_votes staking vote_p delegated.validators delegated
  ok (
    c.votes,
    c.total_voted_power,
    if ltb_ℤ (pos 0) c.total_power then m.quo c.voter_power c.total_power else pos 0,
  )
