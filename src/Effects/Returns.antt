-- ===== src/Effects/Returns.antt =====
-- Scripts that return in any case: one rule for each way to build a script that has one.
use vinium_lending.Prelude.{
  String, Bool, true, false, ◌≡◌, refl, ◌∙◌, ap, Option, some, List, [], ◌∷◌, truthy,
}
use vinium_lending.Effects.{
  Env, IsLive, ask, or_throw, rejected, Error, Action, Artifact, History, M, ok, pure, when,
  perform, for_each, ◌>>=◌, resume,
}
use vinium_lending.Effects.Laws.{perform_live}

-- From every history, `m` returns a value and does not throw.
pub data Returns {A : Type 0} (m : M A) : Type 0 where
  returns : ((h : History) → (a : A) × (k : History) × (m h ≡ (ok a, k))) → Returns m

pub returned_at :
    {A : Type 0} {m : M A} → Returns m → (h : History) → (a : A) × (k : History) × (m h ≡ (ok a, k))
returned_at (returns at) h = at h

pub Returns-pure : {A : Type 0} (a : A) → Returns (pure a)
Returns-pure a = returns (λ h. (a, h, refl))

pub Returns-or_throw : {A : Type 0} (a : A) (e : Error) → Returns (or_throw (some a) e)
Returns-or_throw a e = Returns-pure a

pub Returns-read : {A : Type 0} (f : History → A) → Returns (λ h. (ok (f h), h))
Returns-read f = returns (λ h. (f h, h, refl))

pub Returns-bind :
    {A B : Type 0} (m : M A) (f : A → M B)
    → Returns m
    → ((a : A) → Returns (f a))
    → Returns (m >>= f)
Returns-bind m f first next = returns (λ h.
    let (a, k, e) = returned_at first h in
    let (b, l, e2) = returned_at (next a) k in (b, l, ap (resume f) e ∙ e2))

-- A part that returns a known value.
pub Returns-known :
    {A B : Type 0} (m : M A) (f : A → M B) (a : A)
    → ((h : History) → m h ≡ (ok a, h))
    → Returns (f a)
    → Returns (m >>= f)
Returns-known m f a known next =
    returns (λ h. let (b, l, e) = returned_at next h in (b, l, ap (resume f) (known h) ∙ e))

pub Returns-if :
    {A : Type 0} (b : Bool) (m n : M A)
    → Returns m
    → Returns n
    → Returns (elim b as (λ _. M A) [ true ↦ m | false ↦ n ])
Returns-if true m n first second = first
Returns-if false m n first second = second

pub Returns-when : (b : Bool) (m : M (Unit {0})) → Returns m → Returns (when b m)
Returns-when true m first = first
Returns-when false m first = Returns-pure tt

pub Returns-ask :
    {A : Type 0} (env : Env) (f : History → Option A)
    → ((h : History) → (a : A) × (f h ≡ some a))
    → Returns (ask env f)
Returns-ask env f answers =
    returns (λ h. let (a, e) = answers h in (a, h, ap (λ o. or_throw o rejected h) e))

pub Returns-for_each :
    {A : Type 0} (f : A → M (Unit {0})) (xs : List A)
    → ((x : A) → Returns (f x))
    → Returns (for_each f xs)
unfolding for_each
Returns-for_each f [] body = Returns-pure tt
Returns-for_each f (x ∷ xs) body =
    Returns-bind (f x) (λ _. for_each f xs) (body x) (λ _. Returns-for_each f xs body)

-- What is asked of the world for scripts to return: transactions go through, view calls of
-- addresses resolve, to a text that is not empty, the contracts are compiled.
pub record IsAnswering (env : Env) : Type 0 where
  pub live : IsLive env
  pub viewed :
      (h : History) (address method : String) (args : List String)
      → (a : String) × (truthy (some a) ≡ some a) × (env.view_text h address method args ≡ some a)
  pub compiled :
      (buidler : Bool) (id : String) → (a : Artifact) × (env.read_artifact buidler id ≡ some a)

-- A view call, and what follows it.
pub Returns-view :
    {A : Type 0} (env : Env)
    → IsAnswering env
    → (address method : String) (f : String → M A)
    → ((a : String) → truthy (some a) ≡ some a → Returns (f a))
    → Returns (ask env (λ h. env.view_text h address method []) >>= f)
Returns-view env answering address method f next = returns (λ h.
    let (a, given, e) = answering.viewed h address method [] in
    let (b, k, rest) = returned_at (next a given) h in
    (b, k, ap (resume f) (ap (λ o. or_throw o rejected h) e) ∙ rest))

pub Returns-perform : (env : Env) → IsLive env → (a : Action) → Returns (perform env a)
Returns-perform env live a = returns (λ h. (tt, a ∷ h, perform_live env live a h))

pub ruleset returns_rules = (
  Returns-pure, Returns-or_throw, Returns-read, Returns-bind, Returns-if, Returns-when, Returns-ask,
  Returns-perform,
)
