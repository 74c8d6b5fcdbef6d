-- ===== src/Effects/Adds.antt =====
-- What scripts add to the history: one rule for each way to build a script. A script that throws
-- keeps what it added.
use vinium_lending.Prelude.{
  ◌≡◌, Bool, true, false, Option, none, some, List, [], ◌∷◌, if◌then◌else◌,
}
use mathlib.Core.Path.{subst}
use vinium_lending.Effects.{
  Env, ask, or_throw, rejected, Call, Action, deployed, deployed_code, sent, stored, requested,
  verified_tenderly, verified_etherscan, Error, History, M, Result, ok, err, pure, throw, when,
  perform, for_each, ◌>>=◌, resume,
}

-- The test of histories whose transactions pass a test, and whose other actions are any.
abbrev pub allows : (Call → Bool) → Action → Bool
allows q (sent signer target call) = q call
allows q (deployed _ _ _ _) = true
allows q (deployed_code _ _) = true
allows q (stored _ _ _) = true
allows q (requested _ _) = true
allows q (verified_tenderly _ _) = true
allows q (verified_etherscan _ _ _) = true

-- The second history is the first one, with actions on top that pass the test.
pub data Extends (p : Action → Bool) (h : History) : History → Type 0 where
  same : Extends p h h
  more : {k : History} (a : Action) → p a ≡ true → Extends p h k → Extends p h (a ∷ k)

pub Extends-trans :
    {p : Action → Bool} {h k l : History} → Extends p h k → Extends p k l → Extends p h l
Extends-trans first same = first
Extends-trans first (more a passes rest) = more a passes (Extends-trans first rest)

-- `m` only adds actions that pass the test, whether it returns or throws.
pub record Adds {A : Type 0} (p : Action → Bool) (m : M A) : Type 0 where
  pub at : (h : History) → Extends p h (m h).1

module _ {p : Action → Bool} where
  pub Adds-pure : {A : Type 0} (a : A) → Adds p (pure a)
  Adds-pure a = record { at = λ h. same }

  pub Adds-throw : {A : Type 0} (e : Error) → Adds p (throw {A = A} e)
  Adds-throw e = record { at = λ h. same }

  -- A value that is read off the history.
  pub Adds-read : {A : Type 0} (f : History → A) → Adds p (λ h. (ok (f h), h))
  Adds-read f = record { at = λ h. same }

  pub Adds-or_throw : {A : Type 0} (o : Option A) (e : Error) → Adds p (or_throw o e)
  Adds-or_throw none e = Adds-throw e
  Adds-or_throw (some a) e = Adds-pure a

  pub Adds-ask : {A : Type 0} (env : Env) (f : History → Option A) → Adds p (ask env f)
  Adds-ask env f = record { at = λ h. (Adds-or_throw (f h) rejected).at h }

  resume-Adds :
      {A B : Type 0} (f : A → M B) {h : History} (r : Result A × History)
      → Extends p h r.1
      → ((a : A) → Adds p (f a))
      → Extends p h (resume f r).1
  resume-Adds f (ok a, k) first next = Extends-trans first ((next a).at k)
  resume-Adds f (err e, k) first next = first

  pub Adds-bind :
      {A B : Type 0} (m : M A) (f : A → M B)
      → Adds p m
      → ((a : A) → Adds p (f a))
      → Adds p (m >>= f)
  Adds-bind m f first next = record { at = λ h. resume-Adds f (m h) (first.at h) next }

  pub Adds-if :
      {A : Type 0} (b : Bool) (m n : M A) → Adds p m → Adds p n → Adds p (if b then m else n)
  Adds-if true m n first second = first
  Adds-if false m n first second = second

  -- The branches of a script, on a Boolean, an option and a list.
  pub Adds-elim_bool :
      {A : Type 0} (b : Bool) (m n : M A)
      → Adds p m
      → Adds p n
      → Adds p (elim b as (λ _. M A) [ true ↦ m | false ↦ n ])
  Adds-elim_bool true m n first second = first
  Adds-elim_bool false m n first second = second

  pub Adds-elim_option :
      {A B : Type 0} (o : Option A) (m : M B) (f : A → M B)
      → Adds p m
      → ((a : A) → Adds p (f a))
      → Adds p (elim o as (λ _. M B) [ none ↦ m | some a ↦ f a ])
  Adds-elim_option none m f first second = first
  Adds-elim_option (some a) m f first second = second a

  pub Adds-elim_list :
      {A B : Type 0} (xs : List A) (m : M B) (f : A → List A → M B)
      → Adds p m
      → ((x : A) (ys : List A) → Adds p (f x ys))
      → Adds p (elim xs as (λ _. M B) [ [] ↦ m | x ∷ ys ↦ f x ys ])
  Adds-elim_list [] m f first second = first
  Adds-elim_list (x ∷ xs) m f first second = second x xs

  pub Adds-when : (b : Bool) (m : M (Unit {0})) → Adds p m → Adds p (when b m)
  Adds-when true m first = first
  Adds-when false m first = Adds-pure tt

  pub Adds-perform : (env : Env) (a : Action) → p a ≡ true → Adds p (perform env a)
  unfolding perform
  Adds-perform env a passes = record { at = λ h. step h (env.accepts h a) }
    where
      step :
          (h : History) (b : Bool)
          → Extends p h
              (if◌then◌else◌ {A = Result (Unit {0}) × History} b (ok tt, a ∷ h) (err rejected, h)).1
      step h true = more a passes same
      step h false = same

  pub Adds-for_each :
      {A : Type 0} (f : A → M (Unit {0})) (xs : List A)
      → ((x : A) → Adds p (f x))
      → Adds p (for_each f xs)
  unfolding for_each
  Adds-for_each f [] body = Adds-pure tt
  Adds-for_each f (x ∷ xs) body =
      Adds-bind (f x) (λ _. for_each f xs) (body x) (λ _. Adds-for_each f xs body)

-- What a script that returned has added.
pub Adds-ok :
    {A : Type 0} {p : Action → Bool} {m : M A} {h k : History} {a : A}
    → Adds p m
    → m h ≡ (ok a, k)
    → Extends p h k
Adds-ok {p = p} {h = h} adds e = subst (λ r. Extends p h r.1) e (adds.at h)

pub ruleset adds_rules = (
  Adds-pure, Adds-throw, Adds-or_throw, Adds-ask, Adds-bind, Adds-if, Adds-elim_bool,
  Adds-elim_option, Adds-elim_list, Adds-when, Adds-perform, Adds-for_each, Adds-read,
)
