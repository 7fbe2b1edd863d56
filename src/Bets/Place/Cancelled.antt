-- ===== src/Bets/Place/Cancelled.antt =====
-- What the cancellation of a bet changes (contracts/predictify-hybrid/src/bets.rs,
-- `BetManager::cancel_bet`).
use predictify_contracts.Base.{
  leb, ◌≡◌, ◌<◌, refl, sym, ap, subst, ◌∙◌, inl, inr, Option, some, none, true, false, arith,
  Option-cases, Bool-cases, ◌==◌, if◌then◌else◌,
}
use predictify_contracts.Base.Int.{ℤ, saturating_sub}
use predictify_contracts.Base.Maps.{Address, Symbol, update, update₂}
use predictify_contracts.Base.Host.{Env}
use predictify_contracts.Base.Action.{Result, ok, err, is_ok, bind-is_ok, then_lem, run_on, ◌>>◌}
use predictify_contracts.Breaker.Control.{require_write_allowed}
use predictify_contracts.Errors.{Error, market_closed}
use predictify_contracts.Markets.{Market}
use predictify_contracts.Markets.Cache.{get_market, update_market}
use predictify_contracts.Markets.Cache.Reads.{found, get_market-is_ok}
use predictify_contracts.Bets.{Bet, BetStore, is_active, cancelled}
use predictify_contracts.Bets.Limits.{get_effective_bet_limits}
use predictify_contracts.Bets.Storage.{
  update_market_bet_stats_on_cancel, get_all_bets_for_market, unlock_funds,
}
use predictify_contracts.Bets.Storage.Funds.{unlock_funds_ok}
use predictify_contracts.Bets.Place.{open_cancel, take_back, cancel_bet}
use predictify_contracts.Bets.Place.Placed.{locked, joined}

-- the store when the funds are sent back
abbrev pub returning : {L : Type 0} → Env → Symbol → BetStore L → BetStore L
returning env id s = record s {
  breaker = (require_write_allowed env "cancel_bet" s.breaker).1;
  markets = (get_market id s.markets).1;
}

open_cancel_lem :
    {L : Type 0} (env : Env) (user : Address) (id : Symbol) (s : BetStore L) (b : Bet) (m : Market)
    → (require_write_allowed env "cancel_bet" s.breaker).0 ≡ ok tt
    → env.authorized user ≡ true
    → s.bets id user ≡ some b
    → is_active b ≡ true
    → (get_market id s.markets).0 ≡ ok m
    → env.now < m.end_time
    → open_cancel env user id s ≡ (ok (b, m), returning env id s)
unfolding open_cancel
open_cancel_lem env user id s b m w a f x r t =
    let late : leb m.end_time env.now ≡ false = ground arith in rw (w, a, f, x, r, late) refl

open_cancel_early :
    {L : Type 0} (env : Env) (user : Address) (id : Symbol) (s : BetStore L) (b : Bet) (m : Market)
    → (require_write_allowed env "cancel_bet" s.breaker).0 ≡ ok tt
    → env.authorized user ≡ true
    → s.bets id user ≡ some b
    → is_active b ≡ true
    → (get_market id s.markets).0 ≡ ok m
    → is_ok (open_cancel env user id s).0 ≡ true
    → env.now < m.end_time
unfolding open_cancel
open_cancel_early env user id s b m w a f x r h = elim (Bool-cases (leb m.end_time env.now)) [
  | inl late ↦
      let end : (open_cancel env user id s).0 ≡ err market_closed = rw (w, a, f, x, r, late) refl in
      absurd (ground arith)
  | inr late ↦ ground arith
]

open_cancel_checks :
    {L : Type 0} (env : Env) (user : Address) (id : Symbol) (s : BetStore L) (b : Bet)
    → s.bets id user ≡ some b
    → is_ok (open_cancel env user id s).0 ≡ true
    → ((require_write_allowed env "cancel_bet" s.breaker).0 ≡ ok tt)
      × (env.authorized user ≡ true)
      × (is_active b ≡ true)
      × (is_ok (get_market id s.markets).0 ≡ true)
unfolding open_cancel
open_cancel_checks env user id s b e h = (ground arith, ground arith, ground arith, ground arith)

open_cancel_bet :
    {L : Type 0} (env : Env) (user : Address) (id : Symbol) (s : BetStore L)
    → is_ok (open_cancel env user id s).0 ≡ true
    → (b : Bet) × (s.bets id user ≡ some b)
unfolding open_cancel
open_cancel_bet env user id s h = elim (Option-cases (s.bets id user)) [
  | inl e ↦ absurd (ground arith)
  | inr (b, e) ↦ (b, e)
]

open_cancel-is_ok :
    {L : Type 0} (env : Env) (user : Address) (id : Symbol) (s : BetStore L)
    → is_ok (open_cancel env user id s).0 ≡ true
    → (b : Bet) × (m : Market) × (s.bets id user ≡ some b)
      × (is_active b ≡ true)
      × (found s.markets id ≡ some m)
      × (env.now < m.end_time)
      × (env.authorized user ≡ true)
      × (open_cancel env user id s ≡ (ok (b, m), returning env id s))
open_cancel-is_ok env user id s h =
    let (b, e) = open_cancel_bet env user id s h in
    let (w, a, x, g) = open_cancel_checks env user id s b e h in
    let (m, f, r, _) = get_market-is_ok id s.markets g in
    let t = open_cancel_early env user id s b m w a e x r h in
    (b, m, e, x, f, t, a, open_cancel_lem env user id s b m w a e x r t)

module _ {L : Type 0} where
  -- `b` is cancelled in the store and its amount is taken off the totals.
  pub record IsReturned (b : Bet) (m : Market) (user : Address) (id : Symbol) (s s' : BetStore L)
      : Type 0 where
    pub bets :
        (i : Symbol) (u : Address)
        → s'.bets i u
          ≡ update₂ s.bets b.market_id b.user (some (record b { status = cancelled })) i u
    pub registry :
        (i : Symbol)
        → get_all_bets_for_market i s' ≡ (
            if i == b.market_id
            then joined (get_all_bets_for_market b.market_id s) b.user
            else get_all_bets_for_market i s)
    pub sum : locked id s' ≡ saturating_sub (locked id s) b.amount
    pub limits : (i : Symbol) → get_effective_bet_limits i s' ≡ get_effective_bet_limits i s
    pub other_sums : (i : Symbol) → (i == id) ≡ false → locked i s' ≡ locked i s
    pub market :
        s'.markets.persistent id
        ≡ some (record m {
          total_staked = saturating_sub m.total_staked b.amount;
          votes = update m.votes user none;
          stakes = update m.stakes user none;
        })

  take_back-is_ok :
      (user : Address) (id : Symbol) (b : Bet) (m : Market) (s : BetStore L)
      → IsReturned b m user id s (take_back user id b m s).1
        × ((take_back user id b m s).1.ledger ≡ s.ledger)
  unfolding take_back update_market_bet_stats_on_cancel update_market
  take_back-is_ok user id b m s = (
    record {
      bets = λ i u. ground arith;
      registry = λ i. ground arith;
      sum = ground arith;
      limits = λ i. ground arith;
      other_sums = λ i e. ground arith;
      market = ground arith;
    },
    ground arith,
  )

module _ {L : Type 0} (transfer : Address → Address → Address → ℤ → L → Option L)
    (contract : Address) (env : Env) (user : Address) (id : Symbol) (s : BetStore L) where
  pub record IsCancelled (s' : BetStore L) (b : Bet) (m : Market) : Type 0 where
    pub bet : s.bets id user ≡ some b
    pub active : is_active b ≡ true
    pub market : found s.markets id ≡ some m
    pub early : env.now < m.end_time
    pub signed : env.authorized user ≡ true
    pub moved :
        (token : Address) × (s.token_id ≡ some token)
        × (transfer token contract user b.amount s.ledger ≡ some s'.ledger)
    pub returned : IsReturned b m user id s s'

  take_back_paid :
      (b : Bet) (m : Market) (s' p : BetStore L)
      → p ≡ record (returning env id s) { locks = p.locks; ledger = p.ledger }
      → IsReturned b m user id p s'
      → IsReturned b m user id s s'
  take_back_paid b m s' p e x =
      let y = subst (λ (q : BetStore L). IsReturned b m user id q s') e x in
      record {
        bets = y.bets;
        registry = y.registry;
        sum = y.sum;
        limits = y.limits;
        other_sums = y.other_sums;
        market = y.market;
      }

  -- the store once the funds are back
  abbrev back : Bet → BetStore L
  back b = (unlock_funds transfer contract user b.amount (returning env id s)).1

  cancel_bet_lem :
      (b : Bet) (m : Market)
      → open_cancel env user id s ≡ (ok (b, m), returning env id s)
      → is_ok (cancel_bet transfer contract env user id s).0 ≡ true
      → (is_ok (unlock_funds transfer contract user b.amount (returning env id s)).0 ≡ true)
        × (cancel_bet transfer contract env user id s ≡ take_back user id b m (back b))
  unfolding cancel_bet
  cancel_bet_lem b m r h =
      let unlock = λ (x : Bet × Market). unlock_funds transfer contract user x.0.amount in
      let run = λ (x : Bet × Market). unlock x >> take_back user id x.0 x.1 in
      let to = ap (λ x. run_on x run) r in
      let h' = subst (λ (x : Result Error (Unit {0}) × BetStore L). is_ok x.0 ≡ true) to h in
      let l = bind-is_ok (unlock (b, m)) (λ _. take_back user id b m) (returning env id s) h' in
      (l, to ∙ then_lem (unlock (b, m)) (take_back user id b m) (returning env id s) l)

  pub cancel_bet_ok :
      is_ok (cancel_bet transfer contract env user id s).0 ≡ true
      → (b : Bet) × (m : Market) × IsCancelled (cancel_bet transfer contract env user id s).1 b m
  unfolding cancel_bet
  cancel_bet_ok h =
      let first =
        bind-is_ok (open_cancel env user id)
          (λ (x : Bet × Market).
            unlock_funds transfer contract user x.0.amount >> take_back user id x.0 x.1)
          s h in
      let (b, m, e, a, f, t, g, r) = open_cancel-is_ok env user id s first in
      let (l, to) = cancel_bet_lem b m r h in
      let (moved, frame) = unlock_funds_ok transfer contract user b.amount (returning env id s) l in
      let (x, same) = take_back-is_ok user id b m (back b) in
      subst
        (λ (z : Result Error (Unit {0}) × BetStore L).
          (b : Bet) × (m : Market) × IsCancelled z.1 b m)
        (sym to)
        (
          b,
          m,
          record {
            bet = e;
            active = a;
            market = f;
            early = t;
            signed = g;
            moved = (moved.0, moved.1, moved.2 ∙ ap some (sym same));
            returned = take_back_paid b m _ (back b) frame x;
          },
        )
