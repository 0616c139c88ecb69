-- ===== src/Gov/Counts.antt =====
-- The count of preTally in x/gov/keeper/tally.go: the results against the power of the validators.
pub mod All
use Prim.Native.String.{String}
use text.Mathlib.Text.{◌==◌ as string_eq}
use okexchain.Base.{
  ◌≡◌, refl, sym, ap, ◌∙◌, subst, inl, inr, ℤ, pos, ◌+ℤ◌, ◌-ℤ◌, int_laws, +ℤ_zero, Bool, true,
  false, Bool-cases, Option-cases, List, [], ◌∷◌, Option, none, some, if◌then◌else◌, Result, ok,
  err, ◌>>=◌, >>=-eq-ok, or_fail->>=-eq-ok, ok-eq, get, put, total, at_option, total-put,
  HasOneEach,
}
use okexchain.Sdk.{SdkDec, DecMath}
use okexchain.Gov.Tally.{
  VoteOption, empty_option, yes_option, abstain_option, no_option, no_with_veto_option, Vote, Votes,
  ValidatorGovInfo, Delegator, Staking, Counted, TallyError, add_result, is_empty, tally_share,
  tally_shares, tally_delegator, tally_vote, tally_delegator_votes, is_voter, tally_validator,
  tally_validator_votes, new_info, curr_validators, nothing_counted, pre_tally,
}
use okexchain.Gov.Outcome.{shares_of, tally}

-- The four results together
abbrev pub sum : Votes → SdkDec
sum votes = votes.yes +ℤ votes.abstain +ℤ votes.no +ℤ votes.no_with_veto

pub add_result-sum :
    (choice : VoteOption) (power : SdkDec) (votes votes' : Votes)
    → add_result choice power votes ≡ some votes'
    → sum votes' ≡ sum votes +ℤ power
unfolding add_result
add_result-sum empty_option power votes votes' h = cc
add_result-sum yes_option power votes votes' h =
    ap (at_option sum) (sym h) ∙ front votes.yes votes.abstain votes.no votes.no_with_veto power
  where
    front : (y a n v p : ℤ) → y +ℤ p +ℤ a +ℤ n +ℤ v ≡ y +ℤ a +ℤ n +ℤ v +ℤ p
    front y a n v p = omega int_laws
add_result-sum abstain_option power votes votes' h =
    ap (at_option sum) (sym h) ∙ second votes.yes votes.abstain votes.no votes.no_with_veto power
  where
    second : (y a n v p : ℤ) → y +ℤ (a +ℤ p) +ℤ n +ℤ v ≡ y +ℤ a +ℤ n +ℤ v +ℤ p
    second y a n v p = omega int_laws
add_result-sum no_option power votes votes' h =
    ap (at_option sum) (sym h) ∙ third votes.yes votes.abstain votes.no votes.no_with_veto power
  where
    third : (y a n v p : ℤ) → y +ℤ a +ℤ (n +ℤ p) +ℤ v ≡ y +ℤ a +ℤ n +ℤ v +ℤ p
    third y a n v p = omega int_laws
add_result-sum no_with_veto_option power votes votes' h =
    ap (at_option sum) (sym h) ∙ last votes.yes votes.abstain votes.no votes.no_with_veto power
  where
    last : (y a n v p : ℤ) → y +ℤ a +ℤ n +ℤ (v +ℤ p) ≡ y +ℤ a +ℤ n +ℤ v +ℤ p
    last y a n v p = omega int_laws

abbrev pub shares : ValidatorGovInfo → SdkDec
shares info = info.delegator_shares

abbrev pub deductions : ValidatorGovInfo → SdkDec
deductions info = info.delegator_deductions

-- What a validator that has not voted keeps: its shares less those of delegators that have voted.
abbrev pub silent : ValidatorGovInfo → SdkDec
silent info =
    if is_empty info.vote then info.delegator_shares -ℤ info.delegator_deductions else pos 0

-- While delegators are counted, the results and the deductions both add up to the voted power, and the
-- shares stay what they were.
pub record IsCounted (n : SdkDec) (c : Counted) : Type 0 where
  pub results : sum c.votes ≡ c.total_voted_power
  pub deducted : total deductions c.validators ≡ c.total_voted_power
  pub kept : total shares c.validators ≡ n

total-put_known :
    (g : ValidatorGovInfo → SdkDec) (key : String) (info info' : ValidatorGovInfo) (n : SdkDec)
    (validators : List (String × ValidatorGovInfo))
    → get key validators ≡ some info
    → g info' ≡ g info +ℤ n
    → total g (put key info' validators) ≡ total g validators +ℤ n
total-put_known g key info info' n validators found e =
    total-put g key info' validators
    ∙ ap (λ o. total g validators -ℤ at_option g o +ℤ g info') found
    ∙ ap (λ x. total g validators -ℤ g info +ℤ x) e
    ∙ moved (total g validators) (g info) n
  where
    moved : (t x n : ℤ) → t -ℤ x +ℤ (x +ℤ n) ≡ t +ℤ n
    moved t x n = omega int_laws

tally_share-IsCounted :
    (n : SdkDec) (choice : VoteOption) (power : SdkDec) (val : String) (o : Option ValidatorGovInfo)
    (c c' : Counted)
    → get val c.validators ≡ o
    → IsCounted n c
    → tally_share choice power val o c ≡ ok c'
    → IsCounted n c'
unfolding tally_share
tally_share-IsCounted n choice power val none c c' found is h = subst (IsCounted n) (ok-eq h) is
tally_share-IsCounted n choice power val (some info) c c' found is h =
    let (votes, e, h1) = or_fail->>=-eq-ok (add_result choice power c.votes) _ _ h in
    subst (IsCounted n) (ok-eq h1) (record {
      results = add_result-sum choice power c.votes votes e ∙ ap (λ x. x +ℤ power) is.results;
      deducted =
          total-put_known deductions val info _ power c.validators found refl
          ∙ ap (λ x. x +ℤ power) is.deducted;
      kept =
          total-put_known shares val info _ (pos 0) c.validators found (sym (+ℤ_zero _))
          ∙ +ℤ_zero _
          ∙ is.kept;
    })

tally_shares-IsCounted :
    (n : SdkDec) (choice : VoteOption) (power : SdkDec) (vals : List String) (c c' : Counted)
    → IsCounted n c
    → tally_shares choice power vals c ≡ ok c'
    → IsCounted n c'
unfolding tally_shares
tally_shares-IsCounted n choice power [] c c' is h = subst (IsCounted n) (ok-eq h) is
tally_shares-IsCounted n choice power (val ∷ vals) c c' is h =
    let (c1, e, h1) = >>=-eq-ok (tally_share choice power val (get val c.validators) c) _ h in
    tally_shares-IsCounted n choice power vals c1 c'
      (tally_share-IsCounted n choice power val _ c c1 refl is e) h1

tally_delegator-IsCounted :
    (n : SdkDec) (choice : VoteOption) (o : Option Delegator) (c c' : Counted)
    → IsCounted n c
    → tally_delegator choice o c ≡ ok c'
    → IsCounted n c'
unfolding tally_delegator
tally_delegator-IsCounted n choice none c c' is h = subst (IsCounted n) (ok-eq h) is
tally_delegator-IsCounted n choice (some d) c c' is h =
    tally_shares-IsCounted n choice d.last_added_shares d.share_added_validators c c' is h

tally_vote-IsCounted :
    (staking : Staking) (n : SdkDec) (vote : Vote) (o : Option ValidatorGovInfo) (c c' : Counted)
    → get (staking.val_address vote.voter) c.validators ≡ o
    → IsCounted n c
    → tally_vote staking vote o c ≡ ok c'
    → IsCounted n c'
unfolding tally_vote
tally_vote-IsCounted staking n vote none c c' found is h =
    tally_delegator-IsCounted n vote.option (staking.delegator vote.voter) c c' is h
tally_vote-IsCounted staking n vote (some info) c c' found is h =
    let key = staking.val_address vote.voter in
    subst (IsCounted n) (ok-eq h) (record {
      results = is.results;
      deducted =
          total-put_known deductions key info _ (pos 0) c.validators found (sym (+ℤ_zero _))
          ∙ +ℤ_zero _
          ∙ is.deducted;
      kept =
          total-put_known shares key info _ (pos 0) c.validators found (sym (+ℤ_zero _))
          ∙ +ℤ_zero _
          ∙ is.kept;
    })

pub tally_delegator_votes-IsCounted :
    (staking : Staking) (n : SdkDec) (votes : List Vote) (c c' : Counted)
    → IsCounted n c
    → tally_delegator_votes staking votes c ≡ ok c'
    → IsCounted n c'
unfolding tally_delegator_votes
tally_delegator_votes-IsCounted staking n [] c c' is h = subst (IsCounted n) (ok-eq h) is
tally_delegator_votes-IsCounted staking n (vote ∷ votes) c c' is h =
    let (c1, e, h1) =
      >>=-eq-ok (tally_vote staking vote (get (staking.val_address vote.voter) c.validators) c) _
        h in
    tally_delegator_votes-IsCounted staking n votes c1 c'
      (tally_vote-IsCounted staking n vote _ c c1 refl is e) h1
