-- ===== src/Claims/Sweep/Swept.antt =====
-- What a sweep leaves (contracts/predictify-hybrid/src/lib.rs, `sweep_unclaimed_winnings`).
use predictify_contracts.Base.{
  ◌≡◌, refl, sym, ap, ◌∙◌, subst, Option, none, some, Bool, true, false, ◌&&◌, List, [], ◌∷◌, arith,
  if◌then◌else◌, ◌++◌, ◌⊎◌, inl, inr, not,
}
use predictify_contracts.Base.Int.{
  ℤ, pos, ltb_ℤ, checked_add, ◌+ℤ◌, ◌*ℤ◌, ◌-ℤ◌, ◌<ℤ◌, div_i128, int_laws,
}
use predictify_contracts.Base.Lists.{contains}
use predictify_contracts.Base.Maps.{Address, Symbol, Map, get_or, has}
use predictify_contracts.Base.Host.{Env}
use predictify_contracts.Base.Action.{
  Action, Result, ok, is_ok, pure, raise_if, or_raise, bind-is_ok, bind_lem, ◌>>=◌, ◌>>◌,
}
use predictify_contracts.Base.Steps.{moved, unchanged_ok, raise_if_ok, or_raise_ok}
use predictify_contracts.Errors.{Error, invalid_input}
use predictify_contracts.Markets.{Outcome, Market}
use predictify_contracts.Bets.{Bet}
use predictify_contracts.Bets.Storage.{get_bet, get_all_bets_for_market}
use predictify_contracts.Claims.{ClaimStore, Summary, is_claimed, with_claim, payout_by}
use predictify_contracts.Claims.Steps.{payout_by-Reads, payout_by_ok, to_i128_lem}
use predictify_contracts.Claims.Gap.{with_claim-keeps}
use predictify_contracts.Claims.Distribution.{Carried, none_claimed}
use predictify_contracts.Claims.Sweep.{
  sweep_stake, sweep_voter, sweep_bet, sweep_bettor, sweep_each, sweep_winners,
}
use predictify_contracts.Claims.Sweep.Entered.{
  enter_all, sum_of, AllDue, Listed, enter_all-append, sum_of-append, AllDue-append, added, single,
}

three :
    (a b : Bool) (stake : ℤ)
    → (a && not b && ltb_ℤ (pos 0) stake) ≡ true
    → (a ≡ true) × (b ≡ false) × (pos 0 <ℤ stake)
three a b stake h = (ground arith, ground arith, ground arith)

-- a payout that a winner's positive stake has by the fee and the totals
abbrev pub Pays : ℤ → Summary → ℤ → ℤ → Type 0
Pays fee summary stake n =
    (pos 0 <ℤ stake)
    × (share : ℤ) × (div_i128 (stake *ℤ (pos 100 -ℤ fee)) (pos 100) ≡ some share)
    × (div_i128 (share *ℤ summary.total_pool) summary.winning_total ≡ some n)

module _ {L : Type 0} where
  -- the winners: the votes that the host lists, and the bets
  abbrev pub Wins :
      Symbol
      → List Outcome
      → List (Address × Outcome)
      → Market
      → ClaimStore L
      → ℤ
      → Summary
      → Address
      → ℤ
      → Type 0
  Wins id winning votes m s fee summary user n =
      ((o : Outcome) × Listed (user, o) votes
        × (contains winning o ≡ true)
        × Pays fee summary (get_or (m.stakes user) (pos 0)) n)
      ⊎ ((b : Bet) × (s.house.bets id user ≡ some b)
          × (contains winning b.outcome ≡ true)
          × Pays fee summary b.amount n)

  module _ (env : Env) (Due : Address → ℤ → Type 0) where
    -- a step of the loops: it leaves the store, and it enters in the market in memory claims of
    -- users who had none, of payouts that are due, and adds them to the sum
    pub record IsSwept (s : ClaimStore L) (c : Carried) (r : Result Error Carried × ClaimStore L)
        : Type 0 where
      pub next : Carried
      pub ended : r ≡ (ok next, s)
      pub entered : List (Address × ℤ)
      pub claims : next.0 ≡ enter_all env entered c.0
      pub sum : next.1 ≡ c.1 +ℤ sum_of entered
      pub due : AllDue Due entered
      pub rest : next.0 ≡ record c.0 { claimed = next.0.claimed }
      pub kept :
          (u : Address) → is_claimed (c.0.claimed u) ≡ true → next.0.claimed u ≡ c.0.claimed u

    still : (s : ClaimStore L) (c : Carried) → IsSwept s c (ok c, s)
    still s c = record {
      next = c;
      ended = refl;
      entered = [];
      claims = refl;
      sum = omega int_laws;
      due = tt;
      rest = refl;
      kept = λ u h. refl;
    }

    either :
        (b : Bool) (act : Action (ClaimStore L) Error Carried) (c : Carried) (s : ClaimStore L)
        → (b ≡ true → is_ok (act s).0 ≡ true → IsSwept s c (act s))
        → is_ok ((if b then act else pure c) s).0 ≡ true
        → IsSwept s c ((if b then act else pure c) s)
    either true act c s f h = f refl h
    either false act c s f h = still s c

    -- one step after the other
    both :
        (s : ClaimStore L) (c : Carried) (r r' : Result Error Carried × ClaimStore L)
        (t : IsSwept s c r)
        → IsSwept s t.next r'
        → IsSwept s c r'
    both s c r r' t a = record {
      next = a.next;
      ended = a.ended;
      entered = t.entered ++ a.entered;
      claims =
          a.claims
          ∙ ap (enter_all env a.entered) t.claims
          ∙ sym (enter_all-append env t.entered a.entered c.0);
      sum =
          added c.1 t.next.1 (sum_of t.entered) (sum_of a.entered) a.next.1 t.sum a.sum
          ∙ ap (λ (x : ℤ). c.1 +ℤ x) (sym (sum_of-append t.entered a.entered));
      due = AllDue-append Due t.entered a.entered t.due a.due;
      rest = a.rest ∙ ap (λ (m : Market). record m { claimed = a.next.0.claimed }) t.rest;
      kept = λ u k. a.kept u (ap is_claimed (t.kept u k) ∙ k) ∙ t.kept u k;
    }

    sweep_stake_ok :
        (fee : ℤ) (summary : Summary) (user : Address) (stake : ℤ) (c : Carried) (s : ClaimStore L)
        → is_claimed (c.0.claimed user) ≡ false
        → pos 0 <ℤ stake
        → ((n : ℤ) → Pays fee summary stake n → Due user n)
        → is_ok (sweep_stake env fee summary user stake c s).0 ≡ true
        → IsSwept s c (sweep_stake env fee summary user stake c s)
    unfolding sweep_stake
    sweep_stake_ok fee summary user stake c s o p d h =
        let done =
          λ (n sum : ℤ). pure {S = ClaimStore L} {E = Error} (with_claim env user n c.0, sum) in
        let entering = λ (n : ℤ). or_raise (checked_add c.1 n) invalid_input >>= done n in
        let checked = λ (n : ℤ). raise_if (ltb_ℤ n (pos 0)) invalid_input >> entering n in
        let (n, computed, e₁) =
          unchanged_ok (payout_by (pos 100) fee stake summary) checked s
            (payout_by-Reads L (pos 100) fee stake summary) h in
        let (share, shared, paid) = payout_by_ok (pos 100) fee stake n summary s computed in
        let (_, e₂) = raise_if_ok (ltb_ℤ n (pos 0)) invalid_input (entering n) s (moved e₁ h) in
        let (sum, f, e₃) =
          or_raise_ok (checked_add c.1 n) invalid_input (done n) s (moved (e₁ ∙ e₂) h) in
        subst (IsSwept s c) (sym (e₁ ∙ e₂ ∙ e₃)) (record {
          next = (with_claim env user n c.0, sum);
          ended = refl;
          entered = (user, n) ∷ [];
          claims = refl;
          sum = sym (to_i128_lem (c.1 +ℤ n) sum f) ∙ single c.1 n;
          due = (d n (p, share, shared, paid), tt);
          rest = refl;
          kept = λ u. with_claim-keeps env user u n c.0 o;
        })

    -- What every turn does that starts with the stakes of `m`, the loop does.
    sweep_each_ok :
        {X : Type 0} (turn : X → Carried → Action (ClaimStore L) Error Carried) (m : Market)
        (xs : List X) (c : Carried) (s : ClaimStore L)
        → c.0.stakes ≡ m.stakes
        → ((x : X) (d : Carried)
            → Listed x xs
            → d.0.stakes ≡ m.stakes
            → is_ok (turn x d s).0 ≡ true
            → IsSwept s d (turn x d s))
        → is_ok (sweep_each turn xs c s).0 ≡ true
        → IsSwept s c (sweep_each turn xs c s)
    unfolding sweep_each
    sweep_each_ok turn m [] c s same step h = still s c
    sweep_each_ok turn m (x ∷ xs) c s same step h =
        let t = step x c (inl refl) same (bind-is_ok (turn x c) (sweep_each turn xs) s h) in
        let e₁ =
          bind_lem (turn x c) (sweep_each turn xs) s t.next
            (ap (λ (y : Result Error Carried × ClaimStore L). y.0) t.ended) in
        let e₂ =
          ap (λ (y : Result Error Carried × ClaimStore L). sweep_each turn xs t.next y.1) t.ended in
        let r =
          sweep_each_ok turn m xs t.next s (ap (λ (y : Market). y.stakes) t.rest ∙ same)
            (λ y d l. step y d (inr l)) (moved (e₁ ∙ e₂) h) in
        subst (IsSwept s c) (sym (e₁ ∙ e₂)) (both s c _ _ t r)

  module _ (env : Env) (fee : ℤ) (summary : Summary) (id : Symbol) (winning : List Outcome)
      (votes : List (Address × Outcome)) (m : Market) (s : ClaimStore L) where
    abbrev Owed : Address → ℤ → Type 0
    Owed = Wins id winning votes m s fee summary

    sweep_voter_ok :
        (x : Address × Outcome) (c : Carried)
        → Listed x votes
        → c.0.stakes ≡ m.stakes
        → is_ok (sweep_voter env fee summary winning x c s).0 ≡ true
        → IsSwept env Owed s c (sweep_voter env fee summary winning x c s)
    unfolding sweep_voter
    sweep_voter_ok x c l same h =
        let stake = get_or (c.0.stakes x.0) (pos 0) in
        let here : stake ≡ get_or (m.stakes x.0) (pos 0) =
          ap (λ (y : Map ℤ). get_or (y x.0) (pos 0)) same in
        either env Owed (contains winning x.1 && none_claimed c.0 x.0 && ltb_ℤ (pos 0) stake)
          (sweep_stake env fee summary x.0 stake c) c s
          (λ e g.
            let (a, b, p) = three (contains winning x.1) (is_claimed (c.0.claimed x.0)) stake e in
            sweep_stake_ok env Owed fee summary x.0 stake c s b p
              (λ n y. inl (x.1, l, a, subst (λ (z : ℤ). Pays fee summary z n) here y)) g)
          h

    sweep_bet_ok :
        (user : Address) (c : Carried) (entry : Option Bet)
        → s.house.bets id user ≡ entry
        → is_ok (sweep_bet env fee summary winning user c entry s).0 ≡ true
        → IsSwept env Owed s c (sweep_bet env fee summary winning user c entry s)
    unfolding sweep_bet
    sweep_bet_ok user c none f h = still env Owed s c
    sweep_bet_ok user c (some b) f h =
        either env Owed
          (contains winning b.outcome && none_claimed c.0 user && ltb_ℤ (pos 0) b.amount)
          (sweep_stake env fee summary user b.amount c) c s
          (λ e g.
            let (a, o, p) =
              three (contains winning b.outcome) (is_claimed (c.0.claimed user)) b.amount e in
            sweep_stake_ok env Owed fee summary user b.amount c s o p (λ n y. inr (b, f, a, y)) g)
          h

    sweep_bettor_ok :
        (user : Address) (c : Carried)
        → is_ok (sweep_bettor env fee summary id winning user c s).0 ≡ true
        → IsSwept env Owed s c (sweep_bettor env fee summary id winning user c s)
    unfolding sweep_bettor
    sweep_bettor_ok user c h = go (has (c.0.votes user)) h
      where
        act : Bool → Result Error Carried × ClaimStore L
        act b =
            (if b
                then pure c
                else (λ t. sweep_bet env fee summary winning user c (get_bet id user t.house) t))
              s

        go : (b : Bool) → is_ok (act b).0 ≡ true → IsSwept env Owed s c (act b)
        go true g = still env Owed s c
        go false g = sweep_bet_ok user c (get_bet id user s.house) refl g

  -- both loops
  pub sweep_winners_ok :
      (require : Symbol → Market → ClaimStore L → Result Error Summary)
      (entries : Map Outcome → List (Address × Outcome)) (env : Env) (fee : ℤ) (summary : Summary)
      (id : Symbol) (winning : List Outcome) (m : Market) (s : ClaimStore L)
      → is_ok (sweep_winners require entries env fee summary id winning m s).0 ≡ true
      → IsSwept env
          (Wins id winning (entries m.votes) m s fee summary)
          s
          (m, pos 0)
          (sweep_winners require entries env fee summary id winning m s)
  unfolding sweep_winners
  sweep_winners_ok require entries env fee summary id winning m s h =
      let votes = entries m.votes in
      let Owed = Wins id winning votes m s fee summary in
      let users = get_all_bets_for_market id s.house in
      let voters = sweep_each {L = L} (sweep_voter env fee summary winning) votes in
      let bettors = sweep_each {L = L} (sweep_bettor env fee summary id winning) users in
      let start : Carried = (m, pos 0) in
      let t =
        sweep_each_ok env Owed (sweep_voter env fee summary winning) m votes start s refl
          (sweep_voter_ok env fee summary id winning votes m s)
          (bind-is_ok (voters start) bettors s h) in
      let e₁ =
        bind_lem (voters start) bettors s t.next
          (ap (λ (y : Result Error Carried × ClaimStore L). y.0) t.ended) in
      let e₂ = ap (λ (y : Result Error Carried × ClaimStore L). bettors t.next y.1) t.ended in
      let r =
        sweep_each_ok env Owed (sweep_bettor env fee summary id winning) m users t.next s
          (ap (λ (y : Market). y.stakes) t.rest)
          (λ x d _ _. sweep_bettor_ok env fee summary id winning votes m s x d)
          (moved (e₁ ∙ e₂) h) in
      subst (IsSwept env Owed s start) (sym (e₁ ∙ e₂)) (both env Owed s start _ _ t r)
