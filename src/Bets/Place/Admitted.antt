-- ===== src/Bets/Place/Admitted.antt =====
-- The checks that a bet passes which is placed (contracts/predictify-hybrid/src/bets.rs,
-- `BetManager::place_bet`).
use predictify_contracts.Base.{◌≡◌, refl, ap, subst, ◌∙◌, Option, some, true, false, arith}
use predictify_contracts.Base.Int.{ℤ}
use predictify_contracts.Base.Maps.{Address, Symbol}
use predictify_contracts.Base.Host.{Env}
use predictify_contracts.Base.Action.{Result, ok, is_ok, bind-is_ok, then_lem, run_on, ◌>>◌}
use predictify_contracts.Errors.{Error}
use predictify_contracts.Breaker.Control.{require_write_allowed}
use predictify_contracts.Markets.{Outcome, Market}
use predictify_contracts.Markets.Cache.{get_market}
use predictify_contracts.Bets.{Bet, BetStore, validate_market_for_betting}
use predictify_contracts.Bets.Limits.{
  validate_bet_parameters, validate_fee_slippage, check_live_fee,
}
use predictify_contracts.Bets.Storage.{lock_funds}
use predictify_contracts.Markets.Cache.Reads.{found, get_market-is_ok}
use predictify_contracts.Bets.Place.{enter_bet, open_bet, admit_bet, place_bet_inner, stands}

-- the store when the funds are locked
abbrev pub ready : {L : Type 0} → Env → Symbol → BetStore L → BetStore L
ready env id s = record s {
  breaker = (require_write_allowed env "betting" s.breaker).1;
  markets = (get_market id s.markets).1;
}

-- the store at the first look at the fee
abbrev awake : {L : Type 0} → Env → BetStore L → BetStore L
awake env s = record s { breaker = (require_write_allowed env "betting" s.breaker).1 }

open_bet_lem :
    {L : Type 0} (env : Env) (user : Address) (id : Symbol) (max_fee : ℤ) (s : BetStore L)
    (m : Market)
    → (require_write_allowed env "betting" s.breaker).0 ≡ ok tt
    → env.authorized user ≡ true
    → check_live_fee max_fee (awake env s) ≡ ok tt
    → (get_market id s.markets).0 ≡ ok m
    → open_bet env user id max_fee s ≡ (ok m, ready env id s)
unfolding open_bet
open_bet_lem env user id max_fee s m w a f r = rw (w, a, f, r) refl

open_bet-is_ok :
    {L : Type 0} (env : Env) (user : Address) (id : Symbol) (max_fee : ℤ) (s : BetStore L)
    → is_ok (open_bet env user id max_fee s).0 ≡ true
    → (m : Market) × (found s.markets id ≡ some m)
      × (env.authorized user ≡ true)
      × (open_bet env user id max_fee s ≡ (ok m, ready env id s))
unfolding open_bet
open_bet-is_ok env user id max_fee s h =
    let w : (require_write_allowed env "betting" s.breaker).0 ≡ ok tt = ground arith in
    let a : env.authorized user ≡ true = ground arith in
    let f : check_live_fee max_fee (awake env s) ≡ ok tt = ground arith in
    let (m, e, r, _) = get_market-is_ok id s.markets (ground arith) in
    (m, e, a, open_bet_lem env user id max_fee s m w a f r)

module _ {L : Type 0} (env : Env) (user : Address) (id : Symbol) (outcome : Outcome) (n max_fee : ℤ)
    (s : BetStore L) (m : Market) where
  admit_bet_lem :
      validate_market_for_betting env m ≡ ok tt
      → validate_bet_parameters id outcome m.outcomes n s ≡ ok tt
      → validate_fee_slippage max_fee s ≡ ok tt
      → stands (s.bets id user) ≡ false
      → admit_bet env user id outcome n max_fee m s ≡ (ok tt, s)
  unfolding admit_bet
  admit_bet_lem v p f x = rw (v, p, f, x) refl

  -- A bet is admitted to an open market, on one of its outcomes, within the limits and the fee that
  -- the user accepts, and where no bet of the user stands; the checks change nothing.
  admit_bet-is_ok :
      is_ok (admit_bet env user id outcome n max_fee m s).0 ≡ true
      → (validate_market_for_betting env m ≡ ok tt)
        × (validate_bet_parameters id outcome m.outcomes n s ≡ ok tt)
        × (validate_fee_slippage max_fee s ≡ ok tt)
        × (stands (s.bets id user) ≡ false)
        × (admit_bet env user id outcome n max_fee m s ≡ (ok tt, s))
  unfolding admit_bet
  admit_bet-is_ok h =
      let v : validate_market_for_betting env m ≡ ok tt = ground arith in
      let p : validate_bet_parameters id outcome m.outcomes n s ≡ ok tt = ground arith in
      let f : validate_fee_slippage max_fee s ≡ ok tt = ground arith in
      let x : stands (s.bets id user) ≡ false = ground arith in (v, p, f, x, admit_bet_lem v p f x)

module _ {L : Type 0} (transfer : Address → Address → Address → ℤ → L → Option L)
    (contract : Address) (env : Env) (user : Address) (id : Symbol) (outcome : Outcome)
    (n max_fee : ℤ) (s : BetStore L) where
  -- the store once the funds are locked
  abbrev pub paid : BetStore L
  paid = (lock_funds transfer contract user n (ready env id s)).1

  pub record IsAdmitted (m : Market) : Type 0 where
    pub market : found s.markets id ≡ some m
    pub signed : env.authorized user ≡ true
    pub trading : validate_market_for_betting env m ≡ ok tt
    pub within : validate_bet_parameters id outcome m.outcomes n s ≡ ok tt
    pub fee : validate_fee_slippage max_fee s ≡ ok tt
    pub free : stands (s.bets id user) ≡ false
    pub locked : is_ok (lock_funds transfer contract user n (ready env id s)).0 ≡ true
    pub entered :
        place_bet_inner transfer contract env user id outcome n max_fee s
        ≡ enter_bet env user id outcome n m paid

  place_bet_inner_lem :
      (m : Market)
      → open_bet env user id max_fee s ≡ (ok m, ready env id s)
      → is_ok (place_bet_inner transfer contract env user id outcome n max_fee s).0 ≡ true
      → (found s.markets id ≡ some m)
      → (env.authorized user ≡ true)
      → IsAdmitted m
  unfolding place_bet_inner validate_bet_parameters validate_fee_slippage
  place_bet_inner_lem m r h e a =
      let s₁ = ready env id s in
      let lock = lock_funds transfer contract user n in
      let enter = enter_bet env user id outcome n m in
      let run = λ (x : Market).
        admit_bet env user id outcome n max_fee x >> (lock >> enter_bet env user id outcome n x) in
      let to₁ = ap (λ x. run_on x run) r in
      let h₁ = subst (λ (x : Result Error Bet × BetStore L). is_ok x.0 ≡ true) to₁ h in
      let admit =
        bind-is_ok (admit_bet env user id outcome n max_fee m) (λ _. lock >> enter) s₁ h₁ in
      let (v, p, f, x, q) = admit_bet-is_ok env user id outcome n max_fee s₁ m admit in
      let to₂ = ap (λ x. run_on x (λ _. lock >> enter)) q in
      let h₂ = subst (λ (x : Result Error Bet × BetStore L). is_ok x.0 ≡ true) to₂ h₁ in
      let l = bind-is_ok lock (λ _. enter) s₁ h₂ in
      record {
        market = e;
        signed = a;
        trading = v;
        within = p;
        fee = f;
        free = x;
        locked = l;
        entered = to₁ ∙ to₂ ∙ then_lem lock enter s₁ l;
      }

  -- A bet that is placed passed each check, and the rest of the call entered it.
  pub place_bet_inner-is_ok :
      is_ok (place_bet_inner transfer contract env user id outcome n max_fee s).0 ≡ true
      → (m : Market) × IsAdmitted m
  unfolding place_bet_inner
  place_bet_inner-is_ok h =
      let first =
        bind-is_ok (open_bet env user id max_fee)
          (λ m.
            admit_bet env user id outcome n max_fee m
            >> (lock_funds transfer contract user n >> enter_bet env user id outcome n m))
          s h in
      let (m, e, a, r) = open_bet-is_ok env user id max_fee s first in
      (m, place_bet_inner_lem m r h e a)
