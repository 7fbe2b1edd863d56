-- ===== src/Fees/Queue.antt =====
-- The time lock of the fee configuration, and the configuration that held at a given time
-- (contracts/predictify-hybrid/src/fees.rs, `FeeConfigManager` and
-- `FeeManager::get_fee_config_for_timestamp`).
mod Tests
use predictify_contracts.Base.{
  ℕ, ◌≤◌, ◌<◌, ◌≡◌, refl, ap₂, Option, some, none, Bool, true, false, List, [], ◌∷◌, ◌==◌, ltb, leb,
  if◌then◌else◌, arith, inl, inr, Option-cases,
}
use predictify_contracts.Base.Int.{ℤ, pos}
use predictify_contracts.Base.Maps.{Address, get_or}
use predictify_contracts.Base.Host.{Env, require_auth}
use predictify_contracts.Base.Action.{
  Action, Result, ok, is_ok, lift, raise_if, gets, or_raise, modify, ◌>>=◌, ◌>>◌,
}
use predictify_contracts.Errors.{Error, invalid_input, config_not_found}
use predictify_contracts.Fees.{
  FeeConfig, HistoricalFeeConfig, FeeStore, standard_fees, validate_fee_config,
  validate_admin_permissions,
}

-- the loop of `get_fee_config_for_timestamp`
abbrev pub config_before : List HistoricalFeeConfig → ℕ → FeeConfig → FeeConfig
config_before [] t current = current
config_before (h ∷ hs) t current =
    if ltb t h.replaced_at then h.config else config_before hs t current

module _ {L : Type 0} where
  abbrev pub get_fee_config : FeeStore L → FeeConfig
  get_fee_config s = get_or s.active standard_fees

  abbrev pub get_fee_config_for_timestamp : ℕ → FeeStore L → FeeConfig
  get_fee_config_for_timestamp t s = config_before (get_or s.history []) t (get_fee_config s)

  abbrev pub get_fee_percentage_for_timestamp : ℕ → FeeStore L → ℤ
  get_fee_percentage_for_timestamp t s =
      let c = get_fee_config_for_timestamp t s in
      if c.fees_enabled then c.platform_fee_percentage else pos 0

  pub queue_update : Env → Address → FeeConfig → ℕ → Action (FeeStore L) Error (Unit {0})
  queue_update env admin new eta = do
    require_auth env admin
    (λ s. (validate_admin_permissions admin s, s))
    lift (validate_fee_config new)
    raise_if (leb eta env.now) invalid_input
    modify (λ s. record s { pending = some new })
    modify (λ s. record s { pending_eta = some eta })

  pub apply_update : Env → Address → Action (FeeStore L) Error (Unit {0})
  apply_update env admin = do
    require_auth env admin
    entry ← gets (λ s. s.pending_eta)
    eta ← or_raise entry config_not_found
    raise_if (ltb env.now eta) invalid_input
    entry' ← gets (λ s. s.pending)
    new ← or_raise entry' config_not_found
    modify (λ s. record s { active = some new })
    modify (λ s. record s { pending = none })
    modify (λ s. record s { pending_eta = none })

  pub cancel_queued_update : Env → Address → Action (FeeStore L) Error (Unit {0})
  cancel_queued_update env admin = do
    require_auth env admin
    (λ s. (validate_admin_permissions admin s, s))
    modify (λ s. record s { pending = none })
    modify (λ s. record s { pending_eta = none })

  pub get_queued_fee_config : FeeStore L → Option (FeeConfig × ℕ)
  get_queued_fee_config s = elim s.pending_eta [
    | some eta ↦ elim s.pending [ some c ↦ some (c, eta) | none ↦ none ]
    | none ↦ none
  ]

  -- A fee update that is applied was queued and is due: the queue held it with a time that has
  -- come, it is in force afterwards and the queue is empty; the history of configurations is as it
  -- was, so a time past its last entry, before the update too, gets the new configuration.
  pub apply_update_ok :
      (env : Env) (admin : Address) (s : FeeStore L)
      → is_ok (apply_update env admin s).0 ≡ true
      → let s' = (apply_update env admin s).1 in
        (c : FeeConfig) × (eta : ℕ) × (get_queued_fee_config s ≡ some (c, eta))
        × (eta ≤ env.now)
        × (get_fee_config s' ≡ c)
        × (get_queued_fee_config s' ≡ none)
        × ((t : ℕ) → get_fee_config_for_timestamp t s' ≡ config_before (get_or s.history []) t c)
  unfolding apply_update get_queued_fee_config
  apply_update_ok env admin s h = elim (Option-cases s.pending_eta) [
    | inl e ↦ absurd (ground arith)
    | inr (eta, e) ↦ elim (Option-cases s.pending) [
      | inl f ↦ absurd (ground arith)
      | inr (c, f) ↦
          let s' = (apply_update env admin s).1 in
          let now_active : get_fee_config s' ≡ c = ground arith in
          let same : s'.history ≡ s.history = ground arith in
          (
            c,
            eta,
            ground arith,
            ground arith,
            now_active,
            ground arith,
            λ t. ap₂ (λ x y. config_before (get_or x []) t y) same now_active,
          )
    ]
  ]

  -- An update that is queued at one time and applied at another, with nothing in between, waits for
  -- its time, which lies after the queueing, and puts exactly the queued configuration in force.
  pub apply-queue :
      (env env' : Env) (admin admin' : Address) (c : FeeConfig) (eta : ℕ) (s : FeeStore L)
      → is_ok (queue_update env admin c eta s).0 ≡ true
      → let queued = (queue_update env admin c eta s).1 in
        is_ok (apply_update env' admin' queued).0 ≡ true
        → (s.admin ≡ some admin)
          × (env.now < eta)
          × (eta ≤ env'.now)
          × (validate_fee_config c ≡ ok tt)
          × (get_fee_config (apply_update env' admin' queued).1 ≡ c)
  unfolding queue_update apply_update
  apply-queue env env' admin admin' c eta s h k = elim (Option-cases s.admin) [
    | inl e ↦ absurd (ground arith)
    | inr (a, e) ↦ (ground arith, ground arith, ground arith, ground arith, ground arith)
  ]
