-- ===== src/Claims/Opened.antt =====
-- How a claim that succeeds begins (contracts/predictify-hybrid/src/lib.rs, `claim_winnings`).
use predictify_contracts.Base.{
  ℕ, ◌+◌, ◌≤◌, ◌<◌, ◌≡◌, refl, ◌∙◌, subst, some, Bool, true, false, List, ltb, arith,
}
use predictify_contracts.Base.Maps.{Address, Symbol}
use predictify_contracts.Base.Words.{add_u64}
use predictify_contracts.Base.Host.{Env, require_auth}
use predictify_contracts.Base.Action.{
  Action, Result, is_ok, bind-is_ok, then_lem, raise_if, or_raise, or_abort, ◌>>=◌, ◌>>◌,
}
use predictify_contracts.Base.Steps.{
  moved, bind_assoc, raise_if_ok, abort_unless_ok, or_raise_ok, or_abort_ok,
}
use predictify_contracts.Errors.{
  Error, market_not_found, invalid_state, already_claimed, market_not_resolved, nothing_to_claim,
}
use predictify_contracts.Breaker.Control.{require_write_allowed}
use predictify_contracts.Markets.{Outcome, Market}
use predictify_contracts.Claims.{
  ClaimStore, Summary, is_claimed, on_breaker, load_market, past_close, after_window, settle_claim,
  claim_winnings,
}

-- the dispute window of a market, if it has one, has passed
abbrev pub WindowOver : Env → Market → Type 0
WindowOver env m = 0 < m.dispute_window_seconds → m.end_time + m.dispute_window_seconds ≤ env.now

module _ {L : Type 0} (env : Env) (m : Market) (k : Action (ClaimStore L) Error (Unit {0})) where
  past : (close : ℕ) → Action (ClaimStore L) Error (Unit {0})
  past close = raise_if (ltb env.now close) invalid_state >> k

  past_close_ok :
      (b : Bool) (t : ClaimStore L)
      → ltb 0 m.dispute_window_seconds ≡ b
      → is_ok ((past_close env m b >> k) t).0 ≡ true
      → WindowOver env m × ((past_close env m b >> k) t ≡ k t)
  unfolding past
  past_close_ok false t e h = (λ p. absurd (ground arith), refl)
  past_close_ok true t e h =
      let sum = add_u64 m.end_time m.dispute_window_seconds in
      let same : (past_close env m true >> k) t ≡ (or_abort sum >>= past) t =
        bind_assoc (or_abort sum) (λ close. raise_if (ltb env.now close) invalid_state) (λ _. k)
          t in
      let (close, f, e₁) = or_abort_ok sum past t (moved same h) in
      let (g, e₂) = raise_if_ok (ltb env.now close) invalid_state k t (moved (same ∙ e₁) h) in
      (λ p. ground (arith, f, g), same ∙ e₁ ∙ e₂)

module _ {L : Type 0} (require : Symbol → Market → ClaimStore L → Result Error Summary) where
  module _ (env : Env) (user : Address) (id : Symbol) (s : ClaimStore L) where
    -- the store once the breaker has let the call through
    abbrev pub entered : ClaimStore L
    entered = (on_breaker (require_write_allowed env "claim_winnings") s).1

    pub record IsOpened : Type 0 where
      pub allowed : is_ok (require_write_allowed env "claim_winnings" s.house.breaker).0 ≡ true
      pub signed : env.authorized user ≡ true
      pub market : Market
      pub stored : s.house.markets.persistent id ≡ some market
      pub unclaimed : is_claimed (market.claimed user) ≡ false
      pub winning : List Outcome
      pub resolved : market.winning_outcomes ≡ some winning
      pub over : WindowOver env market
      pub outcome : Outcome
      pub voted : market.votes user ≡ some outcome
      pub rest :
          claim_winnings require env user id s
          ≡ settle_claim require env user id market winning outcome entered

    -- what follows the check of the breaker
    abbrev ended : Market → List Outcome → Action (ClaimStore L) Error (Unit {0})
    ended m winning =
        or_raise (m.votes user) nothing_to_claim >>= settle_claim require env user id m winning

    abbrev resolved : Market → List Outcome → Action (ClaimStore L) Error (Unit {0})
    resolved m winning = after_window env m >> ended m winning

    abbrev unclaimed : Market → Action (ClaimStore L) Error (Unit {0})
    unclaimed m = or_raise m.winning_outcomes market_not_resolved >>= resolved m

    abbrev claim_of : Market → Action (ClaimStore L) Error (Unit {0})
    claim_of m = raise_if (is_claimed (m.claimed user)) already_claimed >> unclaimed m

    abbrev admitted : Action (ClaimStore L) Error (Unit {0})
    admitted = do require_auth env user; m ← load_market id; claim_of m

    admitted_ok :
        (t : ClaimStore L)
        → is_ok (admitted t).0 ≡ true
        → (env.authorized user ≡ true)
          × (m : Market) × (winning : List Outcome) × (o : Outcome) × (t.house.markets.persistent id
              ≡ some m)
          × (is_claimed (m.claimed user) ≡ false)
          × (m.winning_outcomes ≡ some winning)
          × WindowOver env m
          × (m.votes user ≡ some o)
          × (admitted t ≡ settle_claim require env user id m winning o t)
    admitted_ok t h =
        let (a, e₁) = abort_unless_ok (env.authorized user) (load_market id >>= claim_of) t h in
        let (m, b, e₂) =
          or_raise_ok (t.house.markets.persistent id) market_not_found claim_of t (moved e₁ h) in
        let (c, e₃) =
          raise_if_ok (is_claimed (m.claimed user)) already_claimed (unclaimed m) t
            (moved (e₁ ∙ e₂) h) in
        let (winning, d, e₄) =
          or_raise_ok m.winning_outcomes market_not_resolved (resolved m) t
            (moved (e₁ ∙ e₂ ∙ e₃) h) in
        let (over, e₅) =
          past_close_ok env m (ended m winning) (ltb 0 m.dispute_window_seconds) t refl
            (moved (e₁ ∙ e₂ ∙ e₃ ∙ e₄) h) in
        let (o, f, e₆) =
          or_raise_ok (m.votes user) nothing_to_claim (settle_claim require env user id m winning) t
            (moved (e₁ ∙ e₂ ∙ e₃ ∙ e₄ ∙ e₅) h) in
        (a, m, winning, o, b, c, d, over, f, e₁ ∙ e₂ ∙ e₃ ∙ e₄ ∙ e₅ ∙ e₆)

    pub claim_winnings-IsOpened : is_ok (claim_winnings require env user id s).0 ≡ true → IsOpened
    unfolding claim_winnings
    claim_winnings-IsOpened h =
        let open_claim = on_breaker (require_write_allowed env "claim_winnings") in
        let allowed = bind-is_ok open_claim (λ _. admitted) s h in
        let same = then_lem open_claim admitted s allowed in
        let (a, m, winning, o, b, c, d, over, f, rest) =
          admitted_ok entered
            (subst (λ (x : Result Error (Unit {0}) × ClaimStore L). is_ok x.0 ≡ true) same h) in
        record {
          allowed = allowed;
          signed = a;
          market = m;
          stored = b;
          unclaimed = c;
          winning = winning;
          resolved = d;
          over = over;
          outcome = o;
          voted = f;
          rest = same ∙ rest;
        }
