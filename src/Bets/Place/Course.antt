-- ===== src/Bets/Place/Course.antt =====
-- Runs of the bets' operations and the limits' (contracts/predictify-hybrid/src/bets.rs).
use predictify_contracts.Base.{◌≡◌, refl, sym, subst, Option, some, true, List, [], ◌∷◌, arith}
use predictify_contracts.Base.Int.{ℤ}
use predictify_contracts.Base.Maps.{Address, Symbol, Map, update}
use predictify_contracts.Base.Host.{Env}
use predictify_contracts.Base.Action.{
  Result, is_ok, commit, commit_keeps, lift, modify, bind-is_ok, then_lem, ◌>>◌,
}
use predictify_contracts.Errors.{Error}
use predictify_contracts.Markets.{Outcome}
use predictify_contracts.Bets.{BetStore, BetLimits, new_bet}
use predictify_contracts.Bets.Limits.{
  IsLimited, IsSane, validate_limits_bounds, validate_limits_bounds_iff, set_global_bet_limits,
  set_event_bet_limits,
}
use predictify_contracts.Bets.Place.{place_bet, cancel_bet}
use predictify_contracts.Bets.Place.Placed.{place_bet_ok}
use predictify_contracts.Bets.Place.Cancelled.{cancel_bet_ok}
use predictify_contracts.Bets.Place.Locked.{
  IsBooked, within_nonneg, free-stands, entered-IsBooked, returned-IsBooked,
}

-- the calls that change bets or their limits before a market is resolved
pub data Op : Type 0 where
  place : Env → Address → Symbol → Outcome → ℤ → ℤ → Op
  cancel : Env → Address → Symbol → Op
  global : BetLimits → Op
  event : Symbol → BetLimits → Op

module _ {L : Type 0} (transfer : Address → Address → Address → ℤ → L → Option L)
    (contract : Address) where
  pub run : Op → BetStore L → BetStore L
  unfolding place_bet cancel_bet
  run (place env user id o n max_fee) s =
      (commit (place_bet transfer contract env user id o n max_fee) s).1
  run (cancel env user id) s = (commit (cancel_bet transfer contract env user id) s).1
  run (global l) s = (commit (set_global_bet_limits l) s).1
  run (event id l) s = (commit (set_event_bet_limits id l) s).1

  pub run_all : List Op → BetStore L → BetStore L
  run_all [] s = s
  run_all (op ∷ ops) s = run_all ops (run op s)

  place-IsBooked :
      (env : Env) (user : Address) (id : Symbol) (o : Outcome) (n max_fee : ℤ) (s : BetStore L)
      → IsBooked s
      → is_ok (place_bet transfer contract env user id o n max_fee s).0 ≡ true
      → IsBooked (place_bet transfer contract env user id o n max_fee s).1
  place-IsBooked env user id o n max_fee s k h =
      let (m, p) = place_bet_ok transfer contract env user id o n max_fee s h in
      let positive = within_nonneg id n s k.limits p.above in
      entered-IsBooked (new_bet env user id o n) m s _ k refl positive
        (free-stands (s.bets id user) p.free) p.entered

  cancel-IsBooked :
      (env : Env) (user : Address) (id : Symbol) (s : BetStore L)
      → IsBooked s
      → is_ok (cancel_bet transfer contract env user id s).0 ≡ true
      → IsBooked (cancel_bet transfer contract env user id s).1
  cancel-IsBooked env user id s k h =
      let (b, m, p) = cancel_bet_ok transfer contract env user id s h in
      returned-IsBooked b m user id s _ k p.bet p.active p.returned

  relimited-IsBooked :
      (s : BetStore L) (e : Map BetLimits) (g : Option BetLimits)
      → IsBooked s
      → IsLimited (record s { event_limits = e; global_limits = g })
      → IsBooked (record s { event_limits = e; global_limits = g })
  relimited-IsBooked s e g k l = record {
    distinct = k.distinct;
    listed = k.listed;
    keyed = k.keyed;
    sum = k.sum;
    fits = k.fits;
    limits = l;
  }

  limited-IsBooked :
      (l : BetLimits) (f : BetStore L → BetStore L) (s : BetStore L)
      → is_ok ((lift (validate_limits_bounds l) >> modify f) s).0 ≡ true
      → (IsSane l → IsBooked (f s))
      → IsBooked ((lift (validate_limits_bounds l) >> modify f) s).1
  limited-IsBooked l f s h p =
      let v = bind-is_ok (lift (validate_limits_bounds l)) (λ _. modify f) s h in
      let same = then_lem (lift (validate_limits_bounds l)) (modify f) s v in
      subst (λ (x : Result Error (Unit {0}) × BetStore L). IsBooked x.1) (sym same)
        (p ((validate_limits_bounds_iff l).0 (ground (arith, v))))

  run-IsBooked : (op : Op) (s : BetStore L) → IsBooked s → IsBooked (run op s)
  unfolding run set_global_bet_limits set_event_bet_limits
  run-IsBooked (place env user id o n max_fee) s k =
      commit_keeps IsBooked (place_bet transfer contract env user id o n max_fee) s k
        (place-IsBooked env user id o n max_fee s k)
  run-IsBooked (cancel env user id) s k =
      commit_keeps IsBooked (cancel_bet transfer contract env user id) s k
        (cancel-IsBooked env user id s k)
  run-IsBooked (global l) s k = commit_keeps IsBooked (set_global_bet_limits l) s k (λ h.
      limited-IsBooked l (λ x. record x { global_limits = some l }) s h
        (λ sane.
          relimited-IsBooked s s.event_limits (some l) k (λ i. ground (arith, sane, k.limits i))))
  run-IsBooked (event id l) s k = commit_keeps IsBooked (set_event_bet_limits id l) s k (λ h.
      limited-IsBooked l (λ x. record x { event_limits = update x.event_limits id (some l) }) s h
        (λ sane.
          relimited-IsBooked s (update s.event_limits id (some l)) s.global_limits k
            (λ i. ground (arith, sane, k.limits i))))

  -- Whatever bets are placed and cancelled and however the limits are set, accepted or refused, a
  -- well-kept store stays well kept: every bet is listed exactly once under its market, and the
  -- total that a market's statistics call locked is exactly the sum of the market's active bets.
  pub run_all-IsBooked : (ops : List Op) (s : BetStore L) → IsBooked s → IsBooked (run_all ops s)
  unfolding run_all
  run_all-IsBooked [] s k = k
  run_all-IsBooked (op ∷ ops) s k = run_all-IsBooked ops (run op s) (run-IsBooked op s k)
