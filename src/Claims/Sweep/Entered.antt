-- ===== src/Claims/Sweep/Entered.antt =====
-- Lists of claims that a sweep enters and their sum (contracts/predictify-hybrid/src/lib.rs,
-- `sweep_unclaimed_winnings`).
use predictify_contracts.Base.{◌≡◌, refl, sym, ap, ◌∙◌, List, [], ◌∷◌, ◌++◌, ◌⊎◌}
use predictify_contracts.Base.Int.{ℤ, pos, ◌+ℤ◌, int_laws}
use predictify_contracts.Base.Maps.{Address}
use predictify_contracts.Base.Host.{Env}
use predictify_contracts.Markets.{Market}
use predictify_contracts.Claims.Granted.{entry_of}

-- the claims entered one after the other
abbrev pub enter_all : Env → List (Address × ℤ) → Market → Market
enter_all env [] m = m
enter_all env (x ∷ xs) m = enter_all env xs (entry_of env x.0 m x.1)

abbrev pub sum_of : List (Address × ℤ) → ℤ
sum_of [] = pos 0
sum_of (x ∷ xs) = x.1 +ℤ sum_of xs

abbrev pub AllDue : (Address → ℤ → Type 0) → List (Address × ℤ) → Type 0
AllDue Due [] = Unit
AllDue Due (x ∷ xs) = Due x.0 x.1 × AllDue Due xs

abbrev pub Listed : {A : Type 0} → A → List A → Type 0
Listed x [] = ⊥
Listed x (y ∷ ys) = (x ≡ y) ⊎ Listed x ys

pub enter_all-append :
    (env : Env) (xs ys : List (Address × ℤ)) (m : Market)
    → enter_all env (xs ++ ys) m ≡ enter_all env ys (enter_all env xs m)
enter_all-append env [] ys m = refl
enter_all-append env (x ∷ xs) ys m = enter_all-append env xs ys (entry_of env x.0 m x.1)

assoc_ℤ : (a b c : ℤ) → (a +ℤ b) +ℤ c ≡ a +ℤ (b +ℤ c)
assoc_ℤ a b c = omega int_laws

pub zero_plus : (a : ℤ) → pos 0 +ℤ a ≡ a
zero_plus a = omega int_laws

pub sum_of-append : (xs ys : List (Address × ℤ)) → sum_of (xs ++ ys) ≡ sum_of xs +ℤ sum_of ys
sum_of-append [] ys = omega int_laws
sum_of-append (x ∷ xs) ys =
    ap (λ (t : ℤ). x.1 +ℤ t) (sum_of-append xs ys) ∙ sym (assoc_ℤ x.1 (sum_of xs) (sum_of ys))

pub AllDue-append :
    (Due : Address → ℤ → Type 0) (xs ys : List (Address × ℤ))
    → AllDue Due xs
    → AllDue Due ys
    → AllDue Due (xs ++ ys)
AllDue-append Due [] ys a b = b
AllDue-append Due (x ∷ xs) ys a b = (a.0, AllDue-append Due xs ys a.1 b)

pub added : (a b x y z : ℤ) → b ≡ a +ℤ x → z ≡ b +ℤ y → z ≡ a +ℤ (x +ℤ y)
added a b x y z e f = f ∙ ap (λ (t : ℤ). t +ℤ y) e ∙ assoc_ℤ a x y

pub single : (a n : ℤ) → a +ℤ n ≡ a +ℤ (n +ℤ pos 0)
single a n = omega int_laws
