-- ===== src/Claims/Gap.antt =====
-- What a user's balance holds beyond what the claims of a market have put there
-- (contracts/predictify-hybrid/src/lib.rs, `claim_winnings` and `distribute_payouts`).
use predictify_contracts.Base.{
  ◌≡◌, refl, sym, ap, ap₂, ◌∙◌, inl, inr, Option, none, some, true, false, ◌&&◌, ◌==◌, arith,
  Bool-cases, if◌then◌else◌, ==_iff,
}
use predictify_contracts.Base.Int.{ℤ, pos, ◌+ℤ◌, ◌-ℤ◌, int_laws}
use predictify_contracts.Base.Maps.{Address, get_or}
use predictify_contracts.Base.Host.{Env}
use predictify_contracts.Balances.{ReflectorAsset, stellar, same_asset, Balance, VaultStore}
use predictify_contracts.Balances.Exact.{amount_of, IsKeyed, IsAdjusted}
use predictify_contracts.Markets.{Market, ClaimInfo}
use predictify_contracts.Claims.{is_claimed, with_claim}

-- the payout that a claim records
abbrev pub recorded : Option ClaimInfo → ℤ
recorded none = pos 0
recorded (some info) = if info.claimed then info.payout_amount else pos 0

recorded_unclaimed : (c : Option ClaimInfo) → is_claimed c ≡ false → recorded c ≡ pos 0
recorded_unclaimed none h = refl
recorded_unclaimed (some info) h = rw h refl

grown : (x n : ℤ) → (x +ℤ n) -ℤ n ≡ x -ℤ pos 0
grown x n = omega int_laws

-- another user's claim is as it was
other_claim :
    (env : Env) (user u : Address) (n : ℤ) (m : Market)
    → (u == user) ≡ false
    → (with_claim env user n m).claimed u ≡ m.claimed u
other_claim env user u n m e = rw e refl

own_claim :
    (env : Env) (user u : Address) (n : ℤ) (m : Market)
    → (u == user) ≡ true
    → recorded ((with_claim env user n m).claimed u) ≡ n
own_claim env user u n m e = rw e refl

pub with_claim-keeps :
    (env : Env) (user u : Address) (n : ℤ) (m : Market)
    → is_claimed (m.claimed user) ≡ false
    → is_claimed (m.claimed u) ≡ true
    → (with_claim env user n m).claimed u ≡ m.claimed u
with_claim-keeps env user u n m open_claim h = elim (Bool-cases (u == user)) [
  | inl e ↦
      let same = ap (λ (x : Address). is_claimed (m.claimed x)) ((==_iff u user).0 e) in
      absurd (ground (arith, same, h, open_claim))
  | inr e ↦ other_claim env user u n m e
]

module _ {L : Type 0} where
  abbrev pub gap : VaultStore L → Market → Address → ℤ
  gap v m u = amount_of u stellar v -ℤ recorded (m.claimed u)

  -- From `v` and `m` to `v'` and `m'`, each balance has grown by what the user's claim has, and a claim
  -- that was made stays as it was.
  pub record IsAccounted (v : VaultStore L) (m : Market) (v' : VaultStore L) (m' : Market)
      : Type 0 where
    pub keyed : IsKeyed v'
    pub gaps : (u : Address) → gap v' m' u ≡ gap v m u
    pub kept : (u : Address) → is_claimed (m.claimed u) ≡ true → m'.claimed u ≡ m.claimed u

  pub IsAccounted-refl : (v : VaultStore L) (m : Market) → IsKeyed v → IsAccounted v m v m
  IsAccounted-refl v m k = record { keyed = k; gaps = λ u. refl; kept = λ u h. refl }

  pub IsAccounted-trans :
      (v : VaultStore L) (m : Market) (v' : VaultStore L) (m' : Market) (v'' : VaultStore L)
      (m'' : Market)
      → IsAccounted v m v' m'
      → IsAccounted v' m' v'' m''
      → IsAccounted v m v'' m''
  IsAccounted-trans v m v' m' v'' m'' a b = record {
    keyed = b.keyed;
    gaps = λ u. b.gaps u ∙ a.gaps u;
    kept = λ u h. b.kept u (ap is_claimed (a.kept u h) ∙ h) ∙ a.kept u h;
  }

  other_amount :
      (u user : Address) (v v' : VaultStore L)
      → ((w : Address) (x : ReflectorAsset)
          → (w == user && same_asset x stellar) ≡ false
          → v'.balance w x ≡ v.balance w x)
      → (u == user) ≡ false
      → amount_of u stellar v' ≡ amount_of u stellar v
  other_amount u user v v' others e =
      ap
        (λ (o : Option Balance).
          (get_or o (record { user = u; asset = stellar; amount = pos 0 })).amount)
        (others u stellar (rw e refl))

  -- Balances that are the same everywhere.
  pub same-IsAccounted :
      (v v' w : VaultStore L) (m m' : Market)
      → ((u : Address) (a : ReflectorAsset) → w.balance u a ≡ v'.balance u a)
      → IsAccounted v m v' m'
      → IsAccounted v m w m'
  same-IsAccounted v v' w m m' same a = record {
    keyed = λ u b e. a.keyed u b (sym (same u stellar) ∙ e);
    gaps = λ u.
        ap
          (λ (o : Option Balance).
            (get_or o (record { user = u; asset = stellar; amount = pos 0 })).amount
            -ℤ recorded (m'.claimed u))
          (same u stellar)
        ∙ a.gaps u;
    kept = a.kept;
  }

  -- A claim of `n` by a user who had none, with `n` credited.
  pub pay-IsAccounted :
      (env : Env) (user : Address) (n : ℤ) (v v' : VaultStore L) (m : Market)
      → is_claimed (m.claimed user) ≡ false
      → IsAdjusted user (amount_of user stellar v +ℤ n) v v'
      → IsAccounted v m v' (with_claim env user n m)
  pay-IsAccounted env user n v v' m open_claim a = record {
    keyed = a.keyed;
    gaps = λ u. elim (Bool-cases (u == user)) [
      | inl e ↦
          let same = (==_iff u user).0 e in
          let none_yet =
            recorded_unclaimed (m.claimed u)
              (ap (λ (x : Address). is_claimed (m.claimed x)) same ∙ open_claim) in
          let here = ap (λ (x : Address). amount_of x stellar v') same ∙ a.amount in
          let before = ap (λ (x : Address). amount_of x stellar v) same in
          ap₂ ◌-ℤ◌ here (own_claim env user u n m e)
          ∙ grown (amount_of user stellar v) n
          ∙ sym (ap₂ ◌-ℤ◌ before none_yet)
      | inr e ↦
          ap₂ ◌-ℤ◌ (other_amount u user v v' a.others e)
            (ap recorded (other_claim env user u n m e))
    ];
    kept = λ u h. with_claim-keeps env user u n m open_claim h;
  }

  -- A claim of nothing by a user who had none.
  pub void-IsAccounted :
      (env : Env) (user : Address) (v : VaultStore L) (m : Market)
      → IsKeyed v
      → is_claimed (m.claimed user) ≡ false
      → IsAccounted v m v (with_claim env user (pos 0) m)
  void-IsAccounted env user v m k open_claim = record {
    keyed = k;
    gaps = λ u. elim (Bool-cases (u == user)) [
      | inl e ↦
          let same = (==_iff u user).0 e in
          let none_yet =
            recorded_unclaimed (m.claimed u)
              (ap (λ (x : Address). is_claimed (m.claimed x)) same ∙ open_claim) in
          ap (λ (x : ℤ). amount_of u stellar v -ℤ x)
            (own_claim env user u (pos 0) m e ∙ sym none_yet)
      | inr e ↦
          ap (λ (x : Option ClaimInfo). amount_of u stellar v -ℤ recorded x)
            (other_claim env user u (pos 0) m e)
    ];
    kept = λ u h. with_claim-keeps env user u (pos 0) m open_claim h;
  }
