-- ===== src/Effects/Ensures.antt =====
-- Postconditions of scripts: what holds of the value and the history, if the script returns.
use vinium_lending.Prelude.{◌≡◌, refl, Option, none, some}
use mathlib.Core.Path.{subst}
use vinium_lending.Effects.{
  Env, ask, or_throw, rejected, Error, History, M, Result, ok, err, resume,
}

pub data Ensures {A : Type 0} (P : A → History → Type 0) : Result A × History → Type 0 where
  returned : {a : A} {h : History} → P a h → Ensures P (ok a, h)
  threw : {e : Error} {h : History} → Ensures P (err e, h)

-- The postcondition of a part, and what follows it.
pub Ensures-resume :
    {A B : Type 0} {Q : A → History → Type 0} {P : B → History → Type 0} (f : A → M B)
    {r : Result A × History}
    → Ensures Q r
    → ((a : A) (h : History) → Q a h → Ensures P (f a h))
    → Ensures P (resume f r)
Ensures-resume f (returned q) next = next _ _ q
Ensures-resume f threw next = threw

-- The same where nothing is asked of the part.
pub Ensures-any :
    {A B : Type 0} {P : B → History → Type 0} (f : A → M B) (r : Result A × History)
    → ((a : A) (h : History) → Ensures P (f a h))
    → Ensures P (resume f r)
Ensures-any f (ok a, h) next = next a h
Ensures-any f (err e, h) next = threw

-- A postcondition, as a predicate by cases on the result.
Holds : {A : Type 0} → (A → History → Type 0) → Result A × History → Type 0
Holds P (ok a, h) = P a h
Holds P (err e, h) = Unit {0}

Ensures-Holds :
    {A : Type 0} {P : A → History → Type 0} {r : Result A × History} → Ensures P r → Holds P r
unfolding Holds
Ensures-Holds (returned p) = p
Ensures-Holds threw = tt

-- What a script ensures holds of the value that it returned.
pub Ensures-ok :
    {A : Type 0} {P : A → History → Type 0} {r : Result A × History} (a : A) (h : History)
    → Ensures P r
    → r ≡ (ok a, h)
    → P a h
unfolding Holds
Ensures-ok {P = P} a h ensures e = subst (Holds P) e (Ensures-Holds ensures)

-- What a read returns is the world's answer.
pub ask-Ensures :
    {A : Type 0} (env : Env) (f : History → Option A) (h : History)
    → Ensures (λ a k. f h ≡ some a) (ask env f h)
ask-Ensures {A = A} env f h = answer (f h) refl
  where
    answer : (o : Option A) → f h ≡ o → Ensures (λ a k. f h ≡ some a) (or_throw o rejected h)
    answer none e = threw
    answer (some a) e = returned e

-- The same answer is still given after the read.
pub ask-Ensures-after :
    {A : Type 0} (env : Env) (f : History → Option A) (h : History)
    → Ensures (λ a k. f k ≡ some a) (ask env f h)
ask-Ensures-after {A = A} env f h = answer (f h) refl
  where
    answer : (o : Option A) → f h ≡ o → Ensures (λ a k. f k ≡ some a) (or_throw o rejected h)
    answer none e = threw
    answer (some a) e = returned e

-- Whatever a part returned is what it returned.
pub Ensures-self : {A : Type 0} (r : Result A × History) → Ensures (λ a k. r ≡ (ok a, k)) r
Ensures-self (ok a, h) = returned refl
Ensures-self (err e, h) = threw

-- A postcondition may be weakened.
pub Ensures-imp :
    {A : Type 0} {P Q : A → History → Type 0} {r : Result A × History}
    → Ensures P r
    → ((a : A) (h : History) → P a h → Q a h)
    → Ensures Q r
Ensures-imp (returned p) weaken = returned (weaken _ _ p)
Ensures-imp threw weaken = threw

-- A value that was computed and must be there, as a result that holds it.
pub or_throw-Ensures-after :
    {A : Type 0} (o : Option A) (e : Error) (h : History)
    → Ensures
        (λ a k. ◌≡◌ {A = Result (Option A) × History} (ok o, h) (ok (some a), k))
        (or_throw o e h)
or_throw-Ensures-after none e h = threw
or_throw-Ensures-after (some a) e h = returned refl

-- A value that must be there is what it was.
pub or_throw-Ensures :
    {A : Type 0} (o : Option A) (e : Error) (h : History)
    → Ensures (λ a k. o ≡ some a) (or_throw o e h)
or_throw-Ensures none e h = threw
or_throw-Ensures (some a) e h = returned refl
