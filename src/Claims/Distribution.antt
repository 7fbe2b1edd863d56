-- ===== src/Claims/Distribution.antt =====
-- The distribution of a market's payouts to all winners (contracts/predictify-hybrid/src/lib.rs,
-- `distribute_payouts`). The host's order of the entries of a map, and whether the instruction budget
-- is exceeded when it is looked at, are parameters: the latter by the loop and its count.
pub mod Turns
pub mod Accounted
use predictify_contracts.Base.{
  ℕ, suc, ◌+◌, ◌%◌, Option, none, some, Bool, true, false, not, ◌&&◌, ◌||◌, List, [], ◌∷◌, ◌==◌,
  if◌then◌else◌,
}
use predictify_contracts.Base.Int.{ℤ, pos, pos_part, neg_part, ltb_ℤ, leb_ℤ, checked_add}
use predictify_contracts.Base.Lists.{contains}
use predictify_contracts.Base.Maps.{Address, Symbol, Map, get_or}
use predictify_contracts.Base.Host.{Env}
use predictify_contracts.Base.Action.{
  Action, Result, pure, raise_if, gets, or_raise, zoom, ◌>>=◌, ◌>>◌,
}
use predictify_contracts.Errors.{
  Error, market_not_resolved, invalid_input, operation_would_exceed_budget,
}
use predictify_contracts.Breaker.Control.{require_write_allowed}
use predictify_contracts.Markets.{Outcome, Market}
use predictify_contracts.Bets.{Bet, BetStore, mark_as, is_active, won, lost}
use predictify_contracts.Bets.Storage.{get_bet, store_bet, get_all_bets_for_market}
use predictify_contracts.Claims.{
  ClaimStore, Summary, is_claimed, with_claim, credit, on_breaker, load_market, save_market,
  payout_by,
}

abbrev pub none_claimed : Market → Address → Bool
none_claimed m user = not (is_claimed (m.claimed user))

-- what the loops carry: the market in memory and the sum that was paid
abbrev pub Carried : Type 0
Carried = Market × ℤ

-- the voters and the bettors with a claim that is open
abbrev pub any_voter : List Outcome → Market → List (Address × Outcome) → Bool
any_voter winning m [] = false
any_voter winning m (x ∷ xs) = contains winning x.1 && none_claimed m x.0 || any_voter winning m xs

abbrev pub wins : List Outcome → Market → Address → Option Bet → Bool
wins winning m user none = false
wins winning m user (some b) = contains winning b.outcome && none_claimed m user

module _ {L : Type 0} where
  abbrev pub on_house : {A : Type 0} → Action (BetStore L) Error A → Action (ClaimStore L) Error A
  on_house = zoom (λ s. s.house) (λ h s. record s { house = h })

  abbrev pub any_bettor : Symbol → List Outcome → Market → ClaimStore L → List Address → Bool
  any_bettor id winning m s [] = false
  any_bettor id winning m s (user ∷ users) =
      wins winning m user (get_bet id user s.house) || any_bettor id winning m s users

  -- the share in basis points of the fee, entered and credited
  abbrev pub pay_stake : Env → Address → ℤ → Carried → Action (ClaimStore L) Error Carried
  pay_stake env user payout c = do
    sum ← or_raise (checked_add c.1 payout) invalid_input
    credit user payout
    pure (with_claim env user payout c.0, sum)

  abbrev pub voter_pay : Env → Address → Carried → ℤ → Action (ClaimStore L) Error Carried
  voter_pay env user c payout =
      if leb_ℤ (pos 0) payout
      then (if ltb_ℤ (pos 0) payout
          then pay_stake env user payout c
          else pure (with_claim env user payout c.0, c.1))
      else pure c

  pub pay_voter : Env → ℤ → Summary → Address → ℤ → Carried → Action (ClaimStore L) Error Carried
  unfolding payout_by
  pay_voter env fee summary user stake c = do
    payout ← payout_by (pos 10000) fee stake summary
    voter_pay env user c payout

  -- one turn of the loop over the votes
  pub voter_turn :
      Env
      → ℤ
      → Summary
      → List Outcome
      → Address × Outcome
      → Carried
      → Action (ClaimStore L) Error Carried
  unfolding pay_voter
  voter_turn env fee summary winning x c =
      let stake = get_or (c.0.stakes x.0) (pos 0) in
      if contains winning x.1 && none_claimed c.0 x.0 && ltb_ℤ (pos 0) stake
      then pay_voter env fee summary x.0 stake c
      else pure c

  abbrev pub pay_bet : Env → Address → Bet → ℤ → Carried → Action (ClaimStore L) Error Carried
  pay_bet env user b payout c = do
    sum ← or_raise (checked_add c.1 payout) invalid_input
    on_house (store_bet (mark_as won b))
    credit user payout
    pure (with_claim env user payout c.0, sum)

  pub pay_bettor : Env → ℤ → Summary → Address → Bet → Carried → Action (ClaimStore L) Error Carried
  unfolding payout_by
  pay_bettor env fee summary user b c = do
    payout ← payout_by (pos 10000) fee b.amount summary
    if ltb_ℤ (pos 0) payout then pay_bet env user b payout c else pure c

  pub winning_turn :
      Env → ℤ → Summary → Address → Bet → Carried → Action (ClaimStore L) Error Carried
  unfolding pay_bettor
  winning_turn env fee summary user b c =
      if is_claimed (c.0.claimed user)
      then (on_house (store_bet (mark_as won b)) >> pure c)
      else (if ltb_ℤ (pos 0) b.amount then pay_bettor env fee summary user b c else pure c)

  abbrev pub losing_turn : Bet → Carried → Action (ClaimStore L) Error Carried
  losing_turn b c =
      if is_active b then (on_house (store_bet (mark_as lost b)) >> pure c) else pure c

  -- a bettor without a bet is passed over
  pub judge_bettor :
      Env
      → ℤ
      → Summary
      → List Outcome
      → Address
      → Carried
      → Option Bet
      → Action (ClaimStore L) Error Carried
  unfolding winning_turn
  judge_bettor env fee summary winning user c none = pure c
  judge_bettor env fee summary winning user c (some b) =
      if contains winning b.outcome then winning_turn env fee summary user b c else losing_turn b c

  -- one turn of the loop over the bettors
  pub bettor_turn :
      Env
      → ℤ
      → Summary
      → Symbol
      → List Outcome
      → Address
      → Carried
      → Action (ClaimStore L) Error Carried
  unfolding judge_bettor
  bettor_turn env fee summary id winning user c = do
    entry ← gets (λ s. get_bet id user s.house)
    judge_bettor env fee summary winning user c entry

  -- a loop whose every tenth turn looks at the budget
  pub each :
      {X : Type 0}
      → (X → Carried → Action (ClaimStore L) Error Carried)
      → (ℕ → Bool)
      → ℕ
      → List X
      → Carried
      → Action (ClaimStore L) Error Carried
  each turn exceeded n [] c = pure c
  each turn exceeded n (x ∷ xs) c = do
    c' ← turn x c
    raise_if ((n + 1) % 10 == 0 && exceeded (n + 1)) operation_would_exceed_budget
    each turn exceeded (n + 1) xs c'

  module _ (require : Symbol → Market → ClaimStore L → Result Error Summary) where
    module _ (entries : Map Outcome → List (Address × Outcome)) (exceeded : ℕ → ℕ → Bool) where
      -- both loops, and the write of the market
      pub pay_out :
          Env → ℤ → Summary → Symbol → List Outcome → Market → Action (ClaimStore L) Error ℤ
      unfolding each voter_turn bettor_turn
      pay_out env fee summary id winning m = do
        users ← gets (λ s. get_all_bets_for_market id s.house)
        c ← each (voter_turn env fee summary winning) (exceeded 0) 0 (entries m.votes) (m, pos 0)
        c' ← each (bettor_turn env fee summary id winning) (exceeded 1) 0 users c
        raise_if (exceeded 2 0) operation_would_exceed_budget
        save_market id c'.0
        pure c'.1

      -- the summary is asked for only where there is a claim to pay
      pub spread : Env → Symbol → List Outcome → Market → Action (ClaimStore L) Error ℤ
      unfolding pay_out
      spread env id winning m = do
        fee ← gets (λ s. get_or s.platform_fee (pos 200))
        open_bets ← gets (λ s. any_bettor id winning m s (get_all_bets_for_market id s.house))
        elim (any_voter winning m (entries m.votes) || open_bets) [
          | false ↦ pure (pos 0)
          | true ↦ do
            summary ← (λ s. (require id m s, s))
            elim (pos_part summary.winning_total == 0 && neg_part summary.winning_total == 0) [
              | true ↦ pure (pos 0)
              | false ↦ pay_out env fee summary id winning m
            ]
        ]

      pub distribute_payouts : Env → Symbol → Action (ClaimStore L) Error ℤ
      unfolding spread
      distribute_payouts env id = do
        on_breaker (require_write_allowed env "distribute_payouts")
        m ← load_market id
        winning ← or_raise m.winning_outcomes market_not_resolved
        spread env id winning m
