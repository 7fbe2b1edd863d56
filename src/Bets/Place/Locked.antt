-- ===== src/Bets/Place/Locked.antt =====
-- The totals of a market's bets against the bets that are stored, when a bet is entered or taken
-- back (contracts/predictify-hybrid/src/bets.rs).
use mathlib.Core.Path.{fun_ext}
use predictify_contracts.Base.{
  ℕ, ◌+◌, ◌≡◌, refl, sym, subst, ap, ◌∙◌, Option, none, some, true, false, ◌&&◌, ◌==◌, arith, inl,
  inr, if◌then◌else◌, Bool-cases,
}
use predictify_contracts.Base.Int.{ℤ, pos, pos_part, ◌+ℤ◌, ◌-ℤ◌, ◌≤ℤ◌, in_i128, saturating_sub}
use predictify_contracts.Base.Lists.{contains, Distinct}
use predictify_contracts.Base.Maps.{Address, Symbol, update₂}
use predictify_contracts.Markets.{Market}
use predictify_contracts.Bets.{Bet, BetStore, is_active, mark_as, cancelled}
use predictify_contracts.Bets.Limits.{get_effective_bet_limits, IsLimited}
use predictify_contracts.Bets.Storage.{get_all_bets_for_market}
use predictify_contracts.Bets.Place.{stands}
use predictify_contracts.Bets.Place.Placed.{locked, joined, IsEntered}
use predictify_contracts.Bets.Place.Cancelled.{IsReturned}
use predictify_contracts.Bets.Place.Sums.{
  to_path, live, live_sum, live_sum-joined, joined-Distinct, contains-joined,
}

stands-live : (b : Option Bet) → stands b ≡ false → live b ≡ 0
stands-live none h = refl
stands-live (some b) h = ground arith

-- where only a cancelled bet can be stored, none stands
pub free-stands :
    (entry : Option Bet)
    → ((b : Bet) → entry ≡ some b → b.status ≡ cancelled)
    → stands entry ≡ false
free-stands none h = refl
free-stands (some b) h = ground (arith, h b refl)

module _ {L : Type 0} where
  -- Every bet is stored under its market and user, is not negative and is listed once in the
  -- market's registry; the total that a market calls locked is the sum of its active bets.
  pub record IsBooked (s : BetStore L) : Type 0 where
    pub distinct : (i : Symbol) → Distinct (get_all_bets_for_market i s)
    pub listed :
        (i : Symbol) (u : Address) (b : Bet)
        → s.bets i u ≡ some b
        → contains (get_all_bets_for_market i s) u ≡ true
    pub keyed :
        (i : Symbol) (u : Address) (b : Bet)
        → s.bets i u ≡ some b
        → (b.market_id ≡ i) × (b.user ≡ u) × (pos 0 ≤ℤ b.amount)
    pub sum : (i : Symbol) → locked i s ≡ pos (live_sum (s.bets i) (get_all_bets_for_market i s))
    pub fits : (i : Symbol) → in_i128 (locked i s) ≡ true
    pub limits : IsLimited s

  -- a bet within sane limits is not negative
  pub within_nonneg :
      (id : Symbol) (n : ℤ) (s : BetStore L)
      → IsLimited s
      → (get_effective_bet_limits id s).min_bet ≤ℤ n
      → pos 0 ≤ℤ n
  within_nonneg id n s h p = ground (arith, h id)

-- a bet written into a well-kept store
module _ {L : Type 0} (c : Bet) (s s' : BetStore L) (k : IsBooked s)
    (bets : (i : Symbol) (u : Address)
      → s'.bets i u ≡ update₂ s.bets c.market_id c.user (some c) i u)
    (registry : (i : Symbol)
      → get_all_bets_for_market i s' ≡ (
          if i == c.market_id
          then joined (get_all_bets_for_market c.market_id s) c.user
          else get_all_bets_for_market i s)) where
  registry_here :
      get_all_bets_for_market c.market_id s' ≡ joined (get_all_bets_for_market c.market_id s) c.user
  registry_here = ground (arith, registry c.market_id)

  registry_there :
      (i : Symbol)
      → (i == c.market_id) ≡ false
      → get_all_bets_for_market i s' ≡ get_all_bets_for_market i s
  registry_there i e = ground (arith, registry i)

  bets_there : (i : Symbol) → (i == c.market_id) ≡ false → s'.bets i ≡ s.bets i
  bets_there i e = fun_ext (λ u. ground (arith, bets i u))

  bets_self : s'.bets c.market_id c.user ≡ some c
  bets_self = ground (arith, bets c.market_id c.user)

  bets_same : (u : Address) → (u == c.user) ≡ false → s'.bets c.market_id u ≡ s.bets c.market_id u
  bets_same u e = ground (arith, bets c.market_id u)

  -- what the sum of the market's active bets has become
  sum_here :
      (contains (get_all_bets_for_market c.market_id s) c.user ≡ false
        → live (s.bets c.market_id c.user) ≡ 0)
      → live_sum (s'.bets c.market_id) (get_all_bets_for_market c.market_id s')
          + live (s.bets c.market_id c.user)
        ≡ live_sum (s.bets c.market_id) (get_all_bets_for_market c.market_id s) + live (some c)
  sum_here z = omega (
    arith,
    ap (live_sum (s'.bets c.market_id)) registry_here,
    ap live bets_self,
    live_sum-joined (s.bets c.market_id) (s'.bets c.market_id) c.user bets_same
        (get_all_bets_for_market c.market_id s) (k.distinct c.market_id) z,
  )

  listed_here :
      (u : Address) (b : Bet)
      → s'.bets c.market_id u ≡ some b
      → contains (get_all_bets_for_market c.market_id s') u ≡ true
  listed_here u b q =
      ap (λ l. contains l u) registry_here
      ∙ contains-joined (get_all_bets_for_market c.market_id s) c.user u
      ∙ elim (Bool-cases (u == c.user)) [
        | inl e ↦ rw e (ground arith)
        | inr e ↦ rw (k.listed c.market_id u b (sym (bets_same u e) ∙ q)) refl
      ]

  keyed_after :
      (i : Symbol) (u : Address) (b : Bet)
      → pos 0 ≤ℤ c.amount
      → s'.bets i u ≡ some b
      → (b.market_id ≡ i) × (b.user ≡ u) × (pos 0 ≤ℤ b.amount)
  keyed_after i u b p q = elim (Bool-cases (i == c.market_id && u == c.user)) [
    | inl e ↦ ground (arith, bets i u)
    | inr e ↦ k.keyed i u b (ground (arith, bets i u))
  ]

  rebooked :
      pos 0 ≤ℤ c.amount
      → (locked c.market_id s'
          ≡ pos (live_sum (s'.bets c.market_id) (get_all_bets_for_market c.market_id s')))
      → in_i128 (locked c.market_id s') ≡ true
      → ((i : Symbol) → (i == c.market_id) ≡ false → locked i s' ≡ locked i s)
      → ((i : Symbol) → get_effective_bet_limits i s' ≡ get_effective_bet_limits i s)
      → IsBooked s'
  rebooked p here f others limits = record {
    distinct = λ i. elim (Bool-cases (i == c.market_id)) [
      | inl e ↦
          subst (λ j. Distinct (get_all_bets_for_market j s')) (sym (to_path i c.market_id e))
            (rw registry_here (joined-Distinct _ c.user (k.distinct c.market_id)))
      | inr e ↦ rw (registry_there i e) (k.distinct i)
    ];
    listed = λ i u b q. elim (Bool-cases (i == c.market_id)) [
      | inl e ↦
          subst (λ j. s'.bets j u ≡ some b → contains (get_all_bets_for_market j s') u ≡ true)
            (sym (to_path i c.market_id e)) (listed_here u b) q
      | inr e ↦ rw (registry_there i e) (k.listed i u b (sym (ap (λ g. g u) (bets_there i e)) ∙ q))
    ];
    keyed = λ i u b q. keyed_after i u b p q;
    sum = λ i. elim (Bool-cases (i == c.market_id)) [
      | inl e ↦
          subst (λ j. locked j s' ≡ pos (live_sum (s'.bets j) (get_all_bets_for_market j s')))
            (sym (to_path i c.market_id e)) here
      | inr e ↦ rw (registry_there i e, bets_there i e) (others i e ∙ k.sum i)
    ];
    fits = λ i. elim (Bool-cases (i == c.market_id)) [
      | inl e ↦ subst (λ j. in_i128 (locked j s') ≡ true) (sym (to_path i c.market_id e)) f
      | inr e ↦ rw (others i e) (k.fits i)
    ];
    limits = λ i. rw (limits i) (k.limits i);
  }

sum_of_sums : (a b c : ℕ) (x y z : ℤ) → x ≡ y +ℤ z → y ≡ pos a → z ≡ pos b → c ≡ a + b → x ≡ pos c
unfolding ◌+ℤ◌
sum_of_sums a b c x y z e f g h = ground arith

sum_taken :
    (a b c : ℕ) (x y z : ℤ)
    → x ≡ saturating_sub y z
    → y ≡ pos a
    → z ≡ pos b
    → c + b ≡ a
    → in_i128 y ≡ true
    → (x ≡ pos c) × (in_i128 x ≡ true)
unfolding ◌-ℤ◌
sum_taken a b c x y z e f g h i = (ground arith, ground arith)

nonneg : (n : ℤ) → pos 0 ≤ℤ n → n ≡ pos (pos_part n)
nonneg n h = ground arith

module _ {L : Type 0} where
  pub entered-IsBooked :
      (b : Bet) (m : Market) (s s' : BetStore L)
      → IsBooked s
      → is_active b ≡ true
      → pos 0 ≤ℤ b.amount
      → stands (s.bets b.market_id b.user) ≡ false
      → IsEntered b m s s'
      → IsBooked s'
  entered-IsBooked b m s s' k a p f e =
      let z = stands-live (s.bets b.market_id b.user) f in
      let here = sum_here b s s' k e.bets e.registry (λ _. z) in
      let l : live (some b) ≡ pos_part b.amount = rw a refl in
      let sum =
        sum_of_sums _ _ _ _ _ _ e.sum (k.sum b.market_id) (nonneg b.amount p)
          (omega (arith, here, z, l)) in
      rebooked b s s' k e.bets e.registry p sum e.fits e.other_sums e.limits

  returned_at :
      (b : Bet) (m : Market) (s s' : BetStore L)
      → IsBooked s
      → s.bets b.market_id b.user ≡ some b
      → is_active b ≡ true
      → IsReturned b m b.user b.market_id s s'
      → IsBooked s'
  returned_at b m s s' k q a e =
      let c = mark_as cancelled b in
      let (_, _, p) = k.keyed b.market_id b.user b q in
      let there = k.listed b.market_id b.user b q in
      let here = sum_here c s s' k e.bets e.registry (λ n. absurd (ground (arith, n, there))) in
      let l : live (s.bets b.market_id b.user) ≡ pos_part b.amount = ap live q ∙ rw a refl in
      let (sum, fits) =
        sum_taken _ _ _ _ _ _ e.sum (k.sum b.market_id) (nonneg b.amount p) (omega (arith, here, l))
          (k.fits b.market_id) in
      rebooked c s s' k e.bets e.registry p sum fits e.other_sums e.limits

  pub returned-IsBooked :
      (b : Bet) (m : Market) (user : Address) (id : Symbol) (s s' : BetStore L)
      → IsBooked s
      → s.bets id user ≡ some b
      → is_active b ≡ true
      → IsReturned b m user id s s'
      → IsBooked s'
  returned-IsBooked b m user id s s' k q a e =
      let (f, g, _) = k.keyed id user b q in
      returned_at b m s s' k
        (subst (λ i. s.bets i b.user ≡ some b) (sym f)
          (subst (λ u. s.bets id u ≡ some b) (sym g) q))
        a
        (subst (λ i. IsReturned b m b.user i s s') (sym f)
          (subst (λ u. IsReturned b m u id s s') (sym g) e))
