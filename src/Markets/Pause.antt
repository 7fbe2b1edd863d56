-- ===== src/Markets/Pause.antt =====
-- Pausing one market (contracts/predictify-hybrid/src/markets.rs, `MarketPauseManager`). The record
-- of a pause is stored under the market's id, where the market itself is stored; an entry that is
-- read as the other type does not convert: it counts as absent, or the host panics (`strict`).
pub mod Clash
use predictify_contracts.Base.{
  ℕ, ◌*◌, Option, none, some, Bool, true, false, not, ◌&&◌, ◌||◌, ◌==◌, ltb, leb, if◌then◌else◌,
}
use predictify_contracts.Base.Maps.{Address, Symbol, Map, update}
use predictify_contracts.Base.Words.{add_u64}
use predictify_contracts.Base.Host.{Env, require_auth}
use predictify_contracts.Base.Action.{
  Action, pure, raise, abort, raise_if, gets, or_raise, or_abort, modify, ◌>>=◌, ◌>>◌,
}
use predictify_contracts.Errors.{
  Error, unauthorized, market_not_found, invalid_state, invalid_duration,
}
use predictify_contracts.Markets.{Market, MarketState, active, ended, disputed, same_state}

pub record MarketPauseInfo : Type 0 where
  pub is_paused : Bool
  pub paused_at : ℕ
  pub pause_duration_hours : ℕ
  pub paused_by : Address
  pub pause_end_time : ℕ
  pub original_state : MarketState

-- what is stored under a market's id
pub data Entry : Type 0 where
  market : Market → Entry
  pause : MarketPauseInfo → Entry

-- the entry "Admin", the markets' entries and the instance cache of markets
pub record PauseStore : Type 0 where
  pub admin : Option Address
  pub entry : Map Entry
  pub cached : Map Market

abbrev pub paused_in : Option MarketPauseInfo → Bool
paused_in none = false
paused_in (some p) = p.is_paused

-- whether a pause has run out
abbrev pub expired : Env → Option MarketPauseInfo → Bool
expired env none = false
expired env (some p) = p.is_paused && leb p.pause_end_time env.now

module _ (strict : Bool) where
  -- an entry of the other type
  abbrev pub mismatch : {A : Type 0} → Action PauseStore Error (Option A)
  mismatch = elim strict [ true ↦ abort | false ↦ pure none ]

  -- `persistent().get` at the type of a market, and of a pause
  abbrev pub read_market : Option Entry → Action PauseStore Error (Option Market)
  read_market none = pure none
  read_market (some (market m)) = pure (some m)
  read_market (some (pause p)) = mismatch

  abbrev pub read_pause : Option Entry → Action PauseStore Error (Option MarketPauseInfo)
  read_pause none = pure none
  read_pause (some (pause p)) = pure (some p)
  read_pause (some (market m)) = mismatch

  abbrev pub get_market : Symbol → Action PauseStore Error Market
  get_market id = do
    hit ← gets (λ s. s.cached id)
    elim hit [
      | some m ↦ pure m
      | none ↦ (do
        entry ← gets (λ s. s.entry id)
        found ← read_market entry
        m ← or_raise found market_not_found
        modify (λ s. record s { cached = update s.cached id (some m) })
        pure m)
    ]

  unfoldable pub is_market_paused : Symbol → Action PauseStore Error Bool
  is_market_paused id = do
    entry ← gets (λ s. s.entry id)
    found ← read_pause entry
    pure (paused_in found)

  abbrev pub verify_admin : Env → Address → Action PauseStore Error (Unit {0})
  verify_admin env admin = do
    require_auth env admin
    entry ← gets (λ s. s.admin)
    stored ← or_raise entry unauthorized
    raise_if (not (admin == stored)) unauthorized

  -- `MIN_PAUSE_DURATION_HOURS` and `MAX_PAUSE_DURATION_HOURS`
  abbrev pub validate_pause_duration : ℕ → Action PauseStore Error (Unit {0})
  validate_pause_duration hours = raise_if (ltb hours 1 || ltb 168 hours) invalid_duration

  abbrev pub validate_pause_conditions : Symbol → Market → Action PauseStore Error (Unit {0})
  unfolding is_market_paused
  validate_pause_conditions id m = do
    paused ← is_market_paused id
    raise_if paused invalid_state
    raise_if
        (not (same_state m.state active || same_state m.state ended || same_state m.state disputed))
        invalid_state

  unfoldable pub pause_market : Env → Address → Symbol → ℕ → Action PauseStore Error (Unit {0})
  pause_market env admin id duration_hours = do
    verify_admin env admin
    validate_pause_duration duration_hours
    m ← get_market id
    validate_pause_conditions id m
    end ← or_abort (add_u64 env.now (duration_hours * 3600))
    modify (λ s. record s {
      entry = update s.entry id (
          some (
            pause (record {
              is_paused = true;
              paused_at = env.now;
              pause_duration_hours = duration_hours;
              paused_by = admin;
              pause_end_time = end;
              original_state = m.state;
            })));
    })

  pub resume_market : Env → Address → Symbol → Action PauseStore Error (Unit {0})
  resume_market env admin id = do
    verify_admin env admin
    entry ← gets (λ s. s.entry id)
    found ← read_pause entry
    p ← or_raise found invalid_state
    raise_if (not p.is_paused) invalid_state
    modify (λ s. record s { entry = update s.entry id none })

  pub auto_resume_on_expiry : Env → Symbol → Action PauseStore Error Bool
  auto_resume_on_expiry env id = do
    entry ← gets (λ s. s.entry id)
    found ← read_pause entry
    modify (λ s. if expired env found then record s { entry = update s.entry id none } else s)
    pure (expired env found)
