-- ===== src/Claims/Run.antt =====
-- Claims and distributions on a market in any order, each a transaction of its own
-- (contracts/predictify-hybrid/src/lib.rs, `claim_winnings` and `distribute_payouts`).
use predictify_contracts.Base.{
  ℕ, ◌≡◌, sym, ap, ◌∙◌, subst, inl, inr, Option, some, Bool, true, false, List, [], ◌∷◌,
}
use predictify_contracts.Base.Int.{pos}
use predictify_contracts.Base.Maps.{Address, Symbol, Map, get_or}
use predictify_contracts.Base.Host.{Env}
use predictify_contracts.Base.Action.{Action, Result, is_ok, commit, commit_keeps}
use predictify_contracts.Errors.{Error}
use predictify_contracts.Balances.Exact.{IsKeyed}
use predictify_contracts.Markets.{Outcome, Market}
use predictify_contracts.Claims.{ClaimStore, Summary, is_claimed, vault, with_claim, claim_winnings}
use predictify_contracts.Claims.Opened.{entered}
use predictify_contracts.Claims.Granted.{Settles, claim_winnings_ok}
use predictify_contracts.Claims.Gap.{
  IsAccounted, IsAccounted-refl, IsAccounted-trans, same-IsAccounted, pay-IsAccounted,
  void-IsAccounted,
}
use predictify_contracts.Claims.Distribution.{distribute_payouts}
use predictify_contracts.Claims.Distribution.Accounted.{IsSettled, own_entry, distribute_payouts_ok}

-- one of the two calls, with the environment it runs in
pub data Call : Type 0 where
  claim : Env → Address → Call
  distribute : Env → Call

module _ {L : Type 0} (require : Symbol → Market → ClaimStore L → Result Error Summary)
    (entries : Map Outcome → List (Address × Outcome)) (exceeded : ℕ → ℕ → Bool) (id : Symbol) where
  abbrev pub run_call : Call → ClaimStore L → ClaimStore L
  run_call (claim env user) s = (commit (claim_winnings require env user id) s).1
  run_call (distribute env) s = (commit (distribute_payouts require entries exceeded env id) s).1

  -- the calls in a row
  pub run_calls : List Call → ClaimStore L → ClaimStore L
  run_calls [] s = s
  run_calls (c ∷ cs) s = run_calls cs (run_call c s)

  settles_lem :
      (env : Env) (user : Address) (winning : List Outcome) (outcome : Outcome) (m : Market)
      (s s' : ClaimStore L)
      → IsKeyed (vault s)
      → is_claimed (m.claimed user) ≡ false
      → Settles env user id m require winning outcome s s'
      → IsSettled id s m s'
  settles_lem env user winning outcome m s s' k o (inl (void, _)) = record {
    market = with_claim env user (pos 0) m;
    stored =
        ap (λ (ms : Map Market). ms id) void.written
        ∙ own_entry s.house.markets.persistent id (with_claim env user (pos 0) m);
    accounted =
        same-IsAccounted (vault s) (vault s) (vault s') m (with_claim env user (pos 0) m) void.same
          (void-IsAccounted env user (vault s) m k o);
  }
  settles_lem env user winning outcome m s s' k o (inr (_, summary, _, _, paid)) = record {
    market = with_claim env user paid.payout m;
    stored =
        ap (λ (ms : Map Market). ms id) paid.entered
        ∙ own_entry s.house.markets.persistent id (with_claim env user paid.payout m);
    accounted = pay-IsAccounted env user paid.payout (vault s) (vault s') m o paid.credited;
  }

  claimed_lem :
      (env : Env) (user : Address) (m : Market) (s : ClaimStore L)
      → IsKeyed (vault s)
      → s.house.markets.persistent id ≡ some m
      → is_ok (claim_winnings require env user id s).0 ≡ true
      → IsSettled id s m (claim_winnings require env user id s).1
  claimed_lem env user m s k stored h =
      let (o, settled) = claim_winnings_ok require env user id s k h in
      let same : o.market ≡ m = ap (λ (x : Option Market). get_or x m) (sym o.stored ∙ stored) in
      let ended = (claim_winnings require env user id s).1 in
      let t = entered require env user id s in
      let r = settles_lem env user o.winning o.outcome o.market t ended k o.unclaimed settled in
      let a : IsAccounted (vault t) m (vault ended) r.market =
        subst (λ (x : Market). IsAccounted (vault t) x (vault ended) r.market) same r.accounted in
      record {
        market = r.market;
        stored = r.stored;
        accounted = record { keyed = a.keyed; gaps = a.gaps; kept = a.kept };
      }

  committed :
      {A : Type 0} (act : Action (ClaimStore L) Error A) (m : Market) (s : ClaimStore L)
      → IsKeyed (vault s)
      → s.house.markets.persistent id ≡ some m
      → (is_ok (act s).0 ≡ true → IsSettled id s m (act s).1)
      → IsSettled id s m (commit act s).1
  committed act m s k stored f =
      commit_keeps (λ t. IsSettled id s m t) act s
        (record { market = m; stored = stored; accounted = IsAccounted-refl (vault s) m k }) f

  run_call-IsSettled :
      (c : Call) (m : Market) (s : ClaimStore L)
      → IsKeyed (vault s)
      → s.house.markets.persistent id ≡ some m
      → IsSettled id s m (run_call c s)
  run_call-IsSettled (claim env user) m s k stored =
      committed (claim_winnings require env user id) m s k stored
        (claimed_lem env user m s k stored)
  run_call-IsSettled (distribute env) m s k stored =
      committed (distribute_payouts require entries exceeded env id) m s k stored
        (distribute_payouts_ok id require entries exceeded env m s k stored)

  -- Whatever claims and distributions run on a market, in whatever order and accepted or refused,
  -- the market stays stored, each user's balance grows by exactly what the claim that the market
  -- records for the user does, and a claim that was made stays as it was, so nobody is paid twice,
  -- if the market stands under its id and each balance is stored under its own user and asset.
  pub run_calls-IsSettled :
      (cs : List Call) (m : Market) (s : ClaimStore L)
      → IsKeyed (vault s)
      → s.house.markets.persistent id ≡ some m
      → IsSettled id s m (run_calls cs s)
  unfolding run_calls
  run_calls-IsSettled [] m s k stored = record {
    market = m;
    stored = stored;
    accounted = IsAccounted-refl (vault s) m k;
  }
  run_calls-IsSettled (c ∷ cs) m s k stored =
      let a = run_call-IsSettled c m s k stored in
      let t = run_call c s in
      let b = run_calls-IsSettled cs a.market t a.accounted.keyed a.stored in
      record {
        market = b.market;
        stored = b.stored;
        accounted =
            IsAccounted-trans (vault s) m (vault t) a.market (vault (run_calls cs t)) b.market
              a.accounted b.accounted;
      }
