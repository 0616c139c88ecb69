-- ===== src/Gov/Counts/All.antt =====
-- tallyValidatorVotes and Tally of x/gov/keeper/tally.go: the count of all votes.
use Prim.Native.String.{String}
use text.Mathlib.Text.{◌==◌ as string_eq}
use okexchain.Base.{
  ◌≡◌, refl, sym, ap, ◌∙◌, subst, inl, inr, ℤ, pos, ◌+ℤ◌, ◌-ℤ◌, ltb_ℤ, int_laws, +ℤ_zero, +ℤ_cancel,
  Bool, Bool-cases, List, [], ◌∷◌, Option, none, some, if◌then◌else◌, ok, >>=-eq-ok,
  or_fail->>=-eq-ok, ok-eq, get, put, total, at_option, total-put, get-put, HasOneEach,
  string_eq_refl, same_text,
}
use okexchain.Sdk.{SdkDec, DecMath}
use okexchain.Gov.Tally.{
  Vote, ValidatorGovInfo, Staking, Counted, ProposalStatus, TallyParams, TallyResult, add_result,
  is_empty, tally_delegator_votes, is_voter, tally_validator, tally_validator_votes, new_info,
  curr_validators, nothing_counted, pre_tally,
}
use okexchain.Gov.Outcome.{shares_of, tally, tally_status, tally_results}
use okexchain.Gov.Counts.{
  sum, shares, deductions, silent, IsCounted, add_result-sum, tally_delegator_votes-IsCounted,
}

-- After a validator: the results still add up to the voted power, to which its undeducted shares have
-- come unless it is silent.
record HasVoted (of_silent of_deductions of_shares : SdkDec) (c c' : Counted) : Type 0 where
  results : sum c'.votes ≡ c'.total_voted_power
  voted : c'.total_voted_power +ℤ of_silent +ℤ of_deductions ≡ c.total_voted_power +ℤ of_shares

tally_validator-HasVoted :
    (of_voter : Bool) (info : ValidatorGovInfo) (c c' : Counted)
    → sum c.votes ≡ c.total_voted_power
    → tally_validator of_voter info c ≡ ok c'
    → HasVoted (silent info) info.delegator_deductions info.delegator_shares c c'
unfolding tally_validator
tally_validator-HasVoted of_voter info c c' is h = elim (Bool-cases (is_empty info.vote)) [
  | inl t ↦
      let e = ok-eq (rw t at h) in
      record {
        results = subst (λ (x : Counted). sum x.votes ≡ x.total_voted_power) e is;
        voted = rw t (
            ap
              (λ (x : Counted).
                x.total_voted_power
                +ℤ (info.delegator_shares -ℤ info.delegator_deductions)
                +ℤ info.delegator_deductions)
              (sym e)
            ∙ waits c.total_voted_power info.delegator_shares info.delegator_deductions);
      }
  | inr t ↦
      let power : SdkDec = info.delegator_shares -ℤ info.delegator_deductions in
      let (votes, e, h1) = or_fail->>=-eq-ok (add_result info.vote power c.votes) _ _ (rw t at h) in
      let same = ok-eq h1 in
      record {
        results =
            subst (λ (x : Counted). sum x.votes ≡ x.total_voted_power) same
              (add_result-sum info.vote power c.votes votes e ∙ ap (λ x. x +ℤ power) is);
        voted = rw t (
            ap (λ (x : Counted). x.total_voted_power +ℤ pos 0 +ℤ info.delegator_deductions)
              (sym same)
            ∙ votes_now c.total_voted_power info.delegator_shares info.delegator_deductions);
      }
]
  where
    waits : (v s d : ℤ) → v +ℤ (s -ℤ d) +ℤ d ≡ v +ℤ s
    waits v s d = omega int_laws

    votes_now : (v s d : ℤ) → v +ℤ (s -ℤ d) +ℤ pos 0 +ℤ d ≡ v +ℤ s
    votes_now v s d = omega int_laws

tally_validator_votes-HasVoted :
    (staking : Staking) (vote_p : Option Vote) (validators : List (String × ValidatorGovInfo))
    (c c' : Counted)
    → sum c.votes ≡ c.total_voted_power
    → tally_validator_votes staking vote_p validators c ≡ ok c'
    → HasVoted
        (total silent validators)
        (total deductions validators)
        (total shares validators)
        c
        c'
unfolding tally_validator_votes total
tally_validator_votes-HasVoted staking vote_p [] c c' is h = record {
  results = subst (λ (x : Counted). sum x.votes ≡ x.total_voted_power) (ok-eq h) is;
  voted =
      ap (λ (x : Counted). x.total_voted_power +ℤ pos 0 +ℤ pos 0) (sym (ok-eq h))
      ∙ +ℤ_zero (c.total_voted_power +ℤ pos 0);
}
tally_validator_votes-HasVoted staking vote_p ((key, info) ∷ validators) c c' is h =
    let more : Counted = record c { total_power = c.total_power +ℤ info.delegator_shares } in
    let (c1, e, h1) = >>=-eq-ok (tally_validator (is_voter staking vote_p key) info more) _ h in
    let one = tally_validator-HasVoted (is_voter staking vote_p key) info more c1 is e in
    let rest = tally_validator_votes-HasVoted staking vote_p validators c1 c' one.results h1 in
    record {
      results = rest.results;
      voted =
          together c'.total_voted_power c1.total_voted_power c.total_voted_power (silent info)
            (total silent validators) info.delegator_deductions (total deductions validators)
            info.delegator_shares (total shares validators) one.voted rest.voted;
    }
  where
    together :
        (v2 v1 v0 x xs d ds s ss : ℤ)
        → v1 +ℤ x +ℤ d ≡ v0 +ℤ s
        → v2 +ℤ xs +ℤ ds ≡ v1 +ℤ ss
        → v2 +ℤ (x +ℤ xs) +ℤ (d +ℤ ds) ≡ v0 +ℤ (s +ℤ ss)
    together v2 v1 v0 x xs d ds s ss one rest =
        regroup v2 xs ds x d
        ∙ ap (λ n. n +ℤ (x +ℤ d)) rest
        ∙ moved v1 ss x d
        ∙ ap (λ n. n +ℤ ss) one
        ∙ grouped v0 s ss
      where
        regroup : (v xs ds x d : ℤ) → v +ℤ (x +ℤ xs) +ℤ (d +ℤ ds) ≡ v +ℤ xs +ℤ ds +ℤ (x +ℤ d)
        regroup v xs ds x d = omega int_laws

        moved : (v ss x d : ℤ) → v +ℤ ss +ℤ (x +ℤ d) ≡ v +ℤ x +ℤ d +ℤ ss
        moved v ss x d = omega int_laws

        grouped : (v s ss : ℤ) → v +ℤ s +ℤ ss ≡ v +ℤ (s +ℤ ss)
        grouped v s ss = omega int_laws

-- The validators that are still to come are not in the map.
AreNew : List (String × SdkDec) → List (String × ValidatorGovInfo) → Type 0
AreNew bonded validators =
    (key : String) (power : SdkDec) → get key bonded ≡ some power → get key validators ≡ none

put-AreNew :
    (key : String) (power : SdkDec) (bonded : List (String × SdkDec))
    (validators : List (String × ValidatorGovInfo))
    → get key bonded ≡ none
    → AreNew ((key, power) ∷ bonded) validators
    → AreNew bonded (put key (new_info power) validators)
unfolding AreNew get
put-AreNew key power bonded validators out new key' power' h =
    elim (Bool-cases (string_eq key key')) [
      | inl t ↦ cc (ap (λ j. get j bonded) (same_text t), out, h)
      | inr t ↦ get-put key key' (new_info power) validators ∙ rw t (new key' power' (rw t h))
    ]

curr_validators-total :
    (g : ValidatorGovInfo → SdkDec) (bonded : List (String × SdkDec))
    (validators : List (String × ValidatorGovInfo))
    → HasOneEach bonded
    → AreNew bonded validators
    → total g (curr_validators bonded validators)
      ≡ total g validators +ℤ total (λ power. g (new_info power)) bonded
unfolding curr_validators total AreNew get
curr_validators-total g [] validators one new = sym (+ℤ_zero _)
curr_validators-total g ((key, power) ∷ bonded) validators (out, one) new =
    curr_validators-total g bonded (put key (new_info power) validators) one
      (put-AreNew key power bonded validators out new)
    ∙ ap (λ n. n +ℤ total (λ power. g (new_info power)) bonded)
        (total-put g key (new_info power) validators
          ∙ ap (λ o. total g validators -ℤ at_option g o +ℤ g (new_info power))
              (is_new bonded validators key power new))
    ∙ added (total g validators) (g (new_info power)) (total (λ power. g (new_info power)) bonded)
  where
    is_new :
        (bonded : List (String × SdkDec)) (validators : List (String × ValidatorGovInfo))
        (key : String) (power : SdkDec)
        → AreNew ((key, power) ∷ bonded) validators
        → get key validators ≡ none
    is_new bonded validators key power new = new key power (rw (string_eq_refl key) refl)

    added : (t n m : ℤ) → t -ℤ pos 0 +ℤ n +ℤ m ≡ t +ℤ (n +ℤ m)
    added t n m = omega int_laws

total_shares : (bonded : List (String × SdkDec)) → total (λ power. power) bonded ≡ shares_of bonded
unfolding total shares_of
total_shares [] = refl
total_shares ((key, power) ∷ bonded) = ap (◌+ℤ◌ power) (total_shares bonded)

total_nothing : (bonded : List (String × SdkDec)) → total (λ power. pos 0) bonded ≡ pos 0
unfolding total
total_nothing [] = refl
total_nothing ((key, power) ∷ bonded) = ap (◌+ℤ◌ (pos 0)) (total_nothing bonded) ∙ +ℤ_zero (pos 0)

nothing_counted-IsCounted :
    (staking : Staking)
    → HasOneEach staking.bonded_validators
    → IsCounted (shares_of staking.bonded_validators) (nothing_counted staking)
unfolding nothing_counted AreNew get total ◌+ℤ◌
nothing_counted-IsCounted staking one =
    let bonded = staking.bonded_validators in
    record {
      results = refl;
      deducted =
          curr_validators-total deductions bonded [] one (all_new bonded)
          ∙ ap (◌+ℤ◌ (total deductions [])) (total_nothing bonded)
          ∙ empty deductions;
      kept =
          curr_validators-total shares bonded [] one (all_new bonded)
          ∙ ap (◌+ℤ◌ (total shares [])) (total_shares bonded)
          ∙ from_nothing shares (shares_of bonded);
    }
  where
    all_new : (bonded : List (String × SdkDec)) → AreNew bonded []
    all_new bonded key power h = refl

    empty : (g : ValidatorGovInfo → SdkDec) → total g [] +ℤ pos 0 ≡ pos 0
    empty g = +ℤ_zero (pos 0)

    from_nothing : (g : ValidatorGovInfo → SdkDec) (n : ℤ) → total g [] +ℤ n ≡ n
    from_nothing g n = omega int_laws

-- Where staking names each validator once and Tally returns, the numbers for the four options add up
-- to the voted power, and the voted power adds up to the total power together with what the
-- validators keep that have not voted: their shares less those that delegators' votes have
-- taken off them.
pub tally-counts :
    (m : DecMath) (staking : Staking) (params : TallyParams) (votes : List Vote) (expired : Bool)
    (status : ProposalStatus × Bool) (res : TallyResult)
    → HasOneEach staking.bonded_validators
    → tally m staking params votes expired ≡ ok (status, res)
    → (sum res.votes ≡ res.total_voted_power)
      × ((delegated : Counted) × (tally_delegator_votes staking votes (nothing_counted staking)
            ≡ ok delegated)
          × (res.total_voted_power +ℤ total silent delegated.validators ≡ res.total_power))
unfolding tally pre_tally
tally-counts m staking params votes expired status res one h =
    let n = shares_of staking.bonded_validators in
    let (counted, e, h1) = >>=-eq-ok (pre_tally m staking votes none) _ h in
    let (_, _, h2) =
      >>=-eq-ok (tally_status m expired params (tally_results m staking counted)) _ h1 in
    let (delegated, e', h3) =
      >>=-eq-ok (tally_delegator_votes staking votes (nothing_counted staking)) _ e in
    let (c, h4, h5) =
      >>=-eq-ok (tally_validator_votes staking none delegated.validators delegated) _ h3 in
    let is =
      tally_delegator_votes-IsCounted staking n votes (nothing_counted staking) delegated
        (nothing_counted-IsCounted staking one) e' in
    let has =
      tally_validator_votes-HasVoted staking none delegated.validators delegated c is.results h4 in
    let same : tally_results m staking counted ≡ res = ap (λ x. x.1) (ok-eq h2) in
    let rate : SdkDec =
      if ltb_ℤ (pos 0) c.total_power then m.quo c.voter_power c.total_power else pos 0 in
    let from : tally_results m staking (c.votes, c.total_voted_power, rate) ≡ res =
      ap (tally_results m staking) (ok-eq h5) ∙ same in
    (
      subst (λ (x : TallyResult). sum x.votes ≡ x.total_voted_power) from has.results,
      (
        delegated,
        e',
        subst
            (λ (x : TallyResult).
              x.total_voted_power +ℤ total silent delegated.validators ≡ x.total_power)
            from
            (left c.total_voted_power (total silent delegated.validators) n
              delegated.total_voted_power
              (ap (◌+ℤ◌ (c.total_voted_power +ℤ total silent delegated.validators))
                  (sym is.deducted)
                ∙ has.voted
                ∙ ap (◌+ℤ◌ delegated.total_voted_power) is.kept)),
      ),
    )
  where
    taken : (d n : ℤ) → d +ℤ n -ℤ d ≡ n
    taken d n = omega int_laws

    left : (v x n d : ℤ) → v +ℤ x +ℤ d ≡ d +ℤ n → v +ℤ x ≡ n
    left v x n d e = sym (+ℤ_cancel (v +ℤ x) d) ∙ ap (λ y. y -ℤ d) e ∙ taken d n
