-- ===== src/Bets/Place/Placed.antt =====
-- What a bet that is placed changes (contracts/predictify-hybrid/src/bets.rs,
-- `BetManager::place_bet`).
use predictify_contracts.Base.{
  ◌≡◌, ◌<◌, refl, sym, ap, subst, ◌∙◌, Option, some, none, true, false, arith, List, [], ◌∷◌, ◌++◌,
  ◌==◌, if◌then◌else◌,
}
use predictify_contracts.Base.Int.{ℤ, pos, ◌+ℤ◌, ◌≤ℤ◌, in_i128}
use predictify_contracts.Base.Maps.{Address, Symbol, update, update₂, get_or}
use predictify_contracts.Base.Lists.{contains}
use predictify_contracts.Base.Host.{Env}
use predictify_contracts.Base.Action.{Result, ok, is_ok}
use predictify_contracts.Markets.{Outcome, Market, active as open_state, validate_outcome}
use predictify_contracts.Markets.Cache.{update_market}
use predictify_contracts.Bets.{
  Bet, BetStore, FeeTerms, cancelled, new_bet, validate_market_for_betting,
}
use predictify_contracts.Bets.Limits.{
  get_effective_bet_limits, validate_bet_parameters, validate_fee_slippage,
}
use predictify_contracts.Bets.Storage.Funds.{lock_funds_ok}
use predictify_contracts.Bets.Place.Admitted.{ready, paid, place_bet_inner-is_ok}
use predictify_contracts.Markets.Cache.Reads.{found}
use predictify_contracts.Errors.{Error, invalid_state}
use predictify_contracts.Guard.Locks.{with_guard-is_ok}
use predictify_contracts.Bets.Storage.{place_scope}
use predictify_contracts.Bets.Storage.{
  update_market_bet_stats, get_market_bet_stats, get_all_bets_for_market,
}
use predictify_contracts.Bets.Place.{enter_bet, place_bet_inner, place_bet, stands}

-- a registry once a user has joined it
abbrev pub joined : List Address → Address → List Address
joined users user = if contains users user then users else users ++ user ∷ []

module _ {L : Type 0} where
  -- the amount that the statistics of a market call locked, and an outcome's share of it
  abbrev pub locked : Symbol → BetStore L → ℤ
  locked id s = (get_market_bet_stats id s).total_amount_locked

  abbrev pub staked_on : Symbol → Outcome → BetStore L → ℤ
  staked_on id o s = get_or ((get_market_bet_stats id s).outcome_totals o) (pos 0)

  pub record IsEntered (b : Bet) (m : Market) (s s' : BetStore L) : Type 0 where
    pub bets :
        (i : Symbol) (u : Address) → s'.bets i u ≡ update₂ s.bets b.market_id b.user (some b) i u
    pub registry :
        (i : Symbol)
        → get_all_bets_for_market i s' ≡ (
            if i == b.market_id
            then joined (get_all_bets_for_market b.market_id s) b.user
            else get_all_bets_for_market i s)
    pub sum : locked b.market_id s' ≡ locked b.market_id s +ℤ b.amount
    pub share : staked_on b.market_id b.outcome s' ≡ staked_on b.market_id b.outcome s +ℤ b.amount
    pub fits : in_i128 (locked b.market_id s') ≡ true
    pub limits : (i : Symbol) → get_effective_bet_limits i s' ≡ get_effective_bet_limits i s
    pub other_sums : (i : Symbol) → (i == b.market_id) ≡ false → locked i s' ≡ locked i s
    pub market :
        s'.markets.persistent b.market_id
        ≡ some (record m {
          total_staked = m.total_staked +ℤ b.amount;
          votes = update m.votes b.user (some b.outcome);
          stakes = update m.stakes b.user (some b.amount);
        })

  enter_bet-is_ok :
      (env : Env) (user : Address) (id : Symbol) (o : Outcome) (n : ℤ) (m : Market) (s : BetStore L)
      → is_ok (enter_bet env user id o n m s).0 ≡ true
      → IsEntered (new_bet env user id o n) m s (enter_bet env user id o n m s).1
        × ((enter_bet env user id o n m s).1.ledger ≡ s.ledger)
  unfolding enter_bet update_market_bet_stats update_market
  enter_bet-is_ok env user id o n m s h = (
    record {
      bets = λ i u. ground arith;
      registry = λ i. ground arith;
      sum = ground arith;
      share = ground arith;
      fits = ground arith;
      limits = λ i. ground arith;
      other_sums = λ i e. ground arith;
      market = ground arith;
    },
    ground arith,
  )

module _ {L : Type 0} (transfer : Address → Address → Address → ℤ → L → Option L)
    (contract : Address) (env : Env) (user : Address) (id : Symbol) (o : Outcome) (n max_fee : ℤ)
    (s : BetStore L) where
  abbrev pub new : Bet
  new = new_bet env user id o n

  -- Entered in the store that the locked funds left is entered in the store of the call.
  enter_paid :
      (m : Market) (s' : BetStore L) (p : BetStore L)
      → p ≡ record (ready env id s) { locks = p.locks; ledger = p.ledger }
      → IsEntered new m p s'
      → IsEntered new m s s'
  enter_paid m s' p e x =
      let y = subst (λ (q : BetStore L). IsEntered new m q s') e x in
      record {
        bets = y.bets;
        registry = y.registry;
        sum = y.sum;
        share = y.share;
        fits = y.fits;
        limits = y.limits;
        other_sums = y.other_sums;
        market = y.market;
      }

  trading_ok :
      (m : Market)
      → validate_market_for_betting env m ≡ ok tt
      → (m.state ≡ open_state)
        × (m.winning_outcomes ≡ none)
        × (env.now < m.end_time)
        × (0 < m.bet_deadline → env.now < m.bet_deadline)
  unfolding validate_market_for_betting
  trading_ok m h = (ground arith, ground arith, ground arith, λ p. ground arith)

  within_ok :
      (m : Market)
      → validate_bet_parameters id o m.outcomes n s ≡ ok tt
      → (contains m.outcomes o ≡ true)
        × ((get_effective_bet_limits id s).min_bet ≤ℤ n)
        × (n ≤ℤ (get_effective_bet_limits id s).max_bet)
  unfolding validate_bet_parameters validate_outcome
  within_ok m h = (ground arith, ground arith, ground arith)

  fee_ok :
      (c : FeeTerms)
      → s.config_fees ≡ some c
      → validate_fee_slippage max_fee s ≡ ok tt
      → c.platform_fee_percentage ≤ℤ max_fee
  unfolding validate_fee_slippage
  fee_ok c e h = ground arith

  old_fee_ok :
      s.config_fees ≡ none
      → validate_fee_slippage max_fee s ≡ ok tt
      → get_or s.plat_fee (pos 200) ≤ℤ max_fee
  unfolding validate_fee_slippage
  old_fee_ok e h = ground arith

  free_ok :
      (b : Bet) → s.bets id user ≡ some b → stands (s.bets id user) ≡ false → b.status ≡ cancelled
  free_ok b e h = ground arith

  pub record IsPlaced (s' : BetStore L) (m : Market) : Type 0 where
    pub market : found s.markets id ≡ some m
    pub signed : env.authorized user ≡ true
    pub trading : m.state ≡ open_state
    pub undecided : m.winning_outcomes ≡ none
    pub in_time : env.now < m.end_time
    pub before_deadline : 0 < m.bet_deadline → env.now < m.bet_deadline
    pub offered : contains m.outcomes o ≡ true
    pub above : (get_effective_bet_limits id s).min_bet ≤ℤ n
    pub below : n ≤ℤ (get_effective_bet_limits id s).max_bet
    pub fee : (c : FeeTerms) → s.config_fees ≡ some c → c.platform_fee_percentage ≤ℤ max_fee
    pub old_fee : s.config_fees ≡ none → get_or s.plat_fee (pos 200) ≤ℤ max_fee
    pub free : (b : Bet) → s.bets id user ≡ some b → b.status ≡ cancelled
    pub moved :
        (token : Address) × (s.token_id ≡ some token)
        × (transfer token user contract n s.ledger ≡ some s'.ledger)
    pub entered : IsEntered new m s s'

  place_inner_ok :
      is_ok (place_bet_inner transfer contract env user id o n max_fee s).0 ≡ true
      → (m : Market) × IsPlaced (place_bet_inner transfer contract env user id o n max_fee s).1 m
  place_inner_ok h =
      let (m, a) = place_bet_inner-is_ok transfer contract env user id o n max_fee s h in
      let p = paid transfer contract env user id o n max_fee s in
      let is_entered =
        subst (λ (x : Result Error Bet × BetStore L). is_ok x.0 ≡ true) a.entered h in
      let (e, same) = enter_bet-is_ok env user id o n m p is_entered in
      let (moved, frame) = lock_funds_ok transfer contract user n (ready env id s) a.locked in
      subst (λ (x : Result Error Bet × BetStore L). (m : Market) × IsPlaced x.1 m) (sym a.entered)
        (
          m,
          record {
            market = a.market;
            signed = a.signed;
            trading = (trading_ok m a.trading).0;
            undecided = (trading_ok m a.trading).1;
            in_time = (trading_ok m a.trading).2;
            before_deadline = (trading_ok m a.trading).3;
            offered = (within_ok m a.within).0;
            above = (within_ok m a.within).1;
            below = (within_ok m a.within).2;
            fee = λ c e. fee_ok c e a.fee;
            old_fee = λ e. old_fee_ok e a.fee;
            free = λ b e. free_ok b e a.free;
            moved = (moved.0, moved.1, moved.2 ∙ ap some (sym same));
            entered = enter_paid m _ p frame e;
          },
        )

-- A bet that `place_bet` accepts was signed by its user, stands alone on an open market, on one of
-- its outcomes, within the limits and with a fee that is at most the user's bound, also where the
-- bound is 0; the token contract moved exactly its amount from the user to the contract, the bet is
-- stored under its market and user and no other has changed, the market's registry lists the user,
-- and the totals of the market, of the outcome and of the stakes grow by exactly the amount.
pub place_bet_ok :
    {L : Type 0} (transfer : Address → Address → Address → ℤ → L → Option L) (contract : Address)
    (env : Env) (user : Address) (id : Symbol) (o : Outcome) (n max_fee : ℤ) (s : BetStore L)
    → is_ok (place_bet transfer contract env user id o n max_fee s).0 ≡ true
    → (m : Market) × IsPlaced transfer contract env user id o n max_fee s
        (place_bet transfer contract env user id o n max_fee s).1
        m
unfolding place_bet validate_bet_parameters validate_fee_slippage
place_bet_ok transfer contract env user id o n max_fee s h =
    let (k, e) =
      with_guard-is_ok (λ x. x.locks) (λ m x. record x { locks = m }) invalid_state (λ m x. refl)
        place_scope (place_bet_inner transfer contract env user id o n max_fee) s h in
    let (m, p) = place_inner_ok transfer contract env user id o n max_fee _ k in
    let x = p.entered in
    subst
      (λ (z : Result Error Bet × BetStore _).
        (m : Market) × IsPlaced transfer contract env user id o n max_fee s z.1 m)
      (sym e)
      (
        m,
        record {
          market = p.market;
          signed = p.signed;
          trading = p.trading;
          undecided = p.undecided;
          in_time = p.in_time;
          before_deadline = p.before_deadline;
          offered = p.offered;
          above = p.above;
          below = p.below;
          fee = p.fee;
          old_fee = p.old_fee;
          free = p.free;
          moved = p.moved;
          entered = record {
            bets = x.bets;
            registry = x.registry;
            sum = x.sum;
            share = x.share;
            fits = x.fits;
            limits = x.limits;
            other_sums = x.other_sums;
            market = x.market;
          };
        },
      )
