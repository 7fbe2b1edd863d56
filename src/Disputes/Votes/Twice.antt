-- ===== src/Disputes/Votes/Twice.antt =====
-- What a vote on a dispute changes (contracts/predictify-hybrid/src/disputes.rs,
-- `DisputeManager::vote_on_dispute`).
use Prim.Native.String.{String}
use predictify_contracts.Base.{
  ℕ, ◌+◌, ◌≡◌, ap, sym, subst, ◌∙◌, Option, some, none, Bool, true, not, inl, inr, arith,
  Option-cases, if◌then◌else◌,
}
use predictify_contracts.Base.Int.{ℤ, pos, ◌+ℤ◌}
use predictify_contracts.Base.Maps.{Address, Symbol}
use predictify_contracts.Base.Host.{Env}
use predictify_contracts.Base.Action.{Result, is_ok, bind-is_ok, then_lem, ◌>>◌}
use predictify_contracts.Errors.{Error}
use predictify_contracts.Markets.Cache.{MarketStore}
use predictify_contracts.Disputes.{DisputeVote, DisputeStore}
use predictify_contracts.Disputes.Votes.{add_vote_to_dispute, admit_vote, move, vote_on_dispute}

zero_sum : (n : ℤ) → n ≡ pos 0 +ℤ n
unfolding ◌+ℤ◌
zero_sum n = ground arith

module _ {L : Type 0} where
  -- the number of votes, and a side's stake, as the dispute's voting counts them
  abbrev pub votes_on : Symbol → DisputeStore L → ℕ
  votes_on id s = elim (s.votings id) [ some d ↦ d.total_votes | none ↦ 0 ]

  abbrev pub stake_for : Symbol → Bool → DisputeStore L → ℤ
  stake_for id side s = elim (s.votings id) [
    | some d ↦ if side then d.total_support_stake else d.total_against_stake
    | none ↦ pos 0
  ]

  pub record IsCounted (id : Symbol) (v : DisputeVote) (s s' : DisputeStore L) : Type 0 where
    pub votes : votes_on id s' ≡ votes_on id s + 1
    pub stake : stake_for id v.vote s' ≡ stake_for id v.vote s +ℤ v.stake
    pub other : stake_for id (not v.vote) s' ≡ stake_for id (not v.vote) s
    pub stored : s'.votes id v.user ≡ some v

  add_vote-is_ok :
      (env : Env) (id : Symbol) (v : DisputeVote) (s : DisputeStore L)
      → is_ok (add_vote_to_dispute env id v s).0 ≡ true
      → IsCounted id v s (add_vote_to_dispute env id v s).1
        × ((add_vote_to_dispute env id v s).1.ledger ≡ s.ledger)
  unfolding add_vote_to_dispute
  add_vote-is_ok env id v s h = elim (Option-cases (s.votings id)) [
    | inl e ↦ (
      record {
        votes = ground (arith, e);
        stake = ground (arith, e, zero_sum v.stake);
        other = ground (arith, e);
        stored = ground (arith, e);
      },
      ground (arith, e),
    )
    | inr (d, e) ↦ (
      record {
        votes = ground (arith, e);
        stake = ground (arith, e);
        other = ground (arith, e);
        stored = ground (arith, e);
      },
      ground (arith, e),
    )
  ]

  abbrev with_ledger : L → DisputeStore L → DisputeStore L
  with_ledger l s = record s { ledger = l }

  -- What is counted from a store that differs in the markets and the ledger is counted from this.
  IsCounted-from :
      (id : Symbol) (v : DisputeVote) (s s' : DisputeStore L) (x : MarketStore) (l : L)
      (p : DisputeStore L)
      → p ≡ record s { markets = x; ledger = l }
      → IsCounted id v p s'
      → IsCounted id v s s'
  IsCounted-from id v s s' x l p e c =
      let y = subst (λ (q : DisputeStore L). IsCounted id v q s') e c in
      record { votes = y.votes; stake = y.stake; other = y.other; stored = y.stored }

module _ {L : Type 0} (transfer : Address → Address → Address → ℤ → L → Option L)
    (contract : Address) where
  -- the checks before the vote leave what it counts
  admit_same :
      (env : Env) (user : Address) (market_id id : Symbol) (s : DisputeStore L)
      → let s' = (admit_vote env user market_id id s).1 in s' ≡ record s { markets = s'.markets }
  admit_same env user market_id id s = ground arith

  move-is_ok :
      (from to : Address) (n : ℤ) (s : DisputeStore L)
      → is_ok (move transfer contract from to n s).0 ≡ true
      → let s' = (move transfer contract from to n s).1 in
        ((token : Address) × (s.token_id ≡ some token)
          × (transfer token from to n s.ledger ≡ some s'.ledger))
        × (s' ≡ record s { ledger = s'.ledger })
  move-is_ok from to n s h = elim (Option-cases s.token_id) [
    | inl e ↦ absurd (ground arith)
    | inr (token, e) ↦ elim (Option-cases (transfer token from to n s.ledger)) [
      | inl f ↦ absurd (ground arith)
      | inr (l, f) ↦ ((token, e, ground arith), ground arith)
    ]
  ]

  pub vote_on_dispute_ok :
      (env : Env) (user : Address) (market_id id : Symbol) (side : Bool) (stake : ℤ)
      (reason : Option String) (s : DisputeStore L)
      → is_ok (vote_on_dispute transfer contract env user market_id id side stake reason s).0 ≡ true
      → let s' = (vote_on_dispute transfer contract env user market_id id side stake reason s).1 in
        let v : DisputeVote = record {
          user = user;
          dispute_id = id;
          vote = side;
          stake = stake;
          timestamp = env.now;
          reason = reason;
        } in
        ((token : Address) × (s.token_id ≡ some token)
          × (transfer token user contract stake s.ledger ≡ some s'.ledger))
        × IsCounted id v s s'
  unfolding vote_on_dispute
  vote_on_dispute_ok env user market_id id side stake reason s h =
      let v : DisputeVote = record {
        user = user;
        dispute_id = id;
        vote = side;
        stake = stake;
        timestamp = env.now;
        reason = reason;
      } in
      let admit = admit_vote env user market_id id in
      let pay = move transfer contract user contract stake in
      let add = add_vote_to_dispute env id v in
      let a = bind-is_ok admit (λ _. pay >> add) s h in
      let to₁ = then_lem admit (pay >> add) s a in
      let h₁ = subst (λ (x : Result Error (Unit {0}) × DisputeStore L). is_ok x.0 ≡ true) to₁ h in
      let s₁ = (admit s).1 in
      let b = bind-is_ok pay (λ _. add) s₁ h₁ in
      let to₂ = then_lem pay add s₁ b in
      let s₂ = (pay s₁).1 in
      let h₂ = subst (λ (x : Result Error (Unit {0}) × DisputeStore L). is_ok x.0 ≡ true) to₂ h₁ in
      let (c, same) = add_vote-is_ok env id v s₂ h₂ in
      let (moved, frame₂) = move-is_ok user contract stake s₁ b in
      let frame₁ = admit_same env user market_id id s in
      subst
        (λ (x : Result Error (Unit {0}) × DisputeStore L).
          ((token : Address) × (s.token_id ≡ some token)
            × (transfer token user contract stake s.ledger ≡ some x.1.ledger))
          × IsCounted id v s x.1)
        (sym (to₁ ∙ to₂))
        (
          (
            moved.0,
            sym (ap (λ (x : DisputeStore L). x.token_id) frame₁) ∙ moved.1,
            sym (ap (λ (x : DisputeStore L). transfer moved.0 user contract stake x.ledger) frame₁)
                ∙ moved.2
                ∙ ap some (sym same),
          ),
          IsCounted-from id v s _ s₁.markets s₂.ledger s₂
              (frame₂ ∙ ap (λ (x : DisputeStore L). with_ledger s₂.ledger x) frame₁) c,
        )
