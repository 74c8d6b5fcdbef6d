-- ===== src/Effects/Laws.antt =====
-- Laws of scripts: inversion of a bind, and the history of a loop whose body only acts.
use vinium_lending.Prelude.{◌≡◌, refl, ap, ◌∙◌, List, [], ◌∷◌, arith}
use vinium_lending.Effects.{
  Env, IsLive, Action, History, M, Result, ok, err, resume, for_each, perform, ◌>>=◌,
}

-- The inversion at a result and a history that are taken apart.
bind_cases :
    {A B : Type 0} (f : A → M B) (r : Result A) (k : History) {b : B} {h' : History}
    → resume f (r, k) ≡ (ok b, h')
    → (a : A) × (r ≡ ok a) × (f a k ≡ (ok b, h'))
bind_cases f (ok a) k e = (a, refl, e)
bind_cases f (err x) k e = ground arith

-- A successful bind ran its first part with success.
pub >>=-eq-ok :
    {A B : Type 0} (m : M A) (f : A → M B) (h : History) {b : B} {h' : History}
    → (m >>= f) h ≡ (ok b, h')
    → (a : A) × (k : History) × (m h ≡ (ok a, k)) × (f a k ≡ (ok b, h'))
>>=-eq-ok m f h e =
    let (a, same, rest) = bind_cases f (m h).0 (m h).1 e in
    (a, (m h).1, (λ i. (same i, (m h).1)), rest)

-- Two parts in sequence, where the first one returns.
pub >>=-ok :
    {A B : Type 0} (m : M A) (f : A → M B) (h : History) {a : A} {k : History}
    → m h ≡ (ok a, k)
    → (m >>= f) h ≡ f a k
>>=-ok m f h e = ap (resume f) e

-- The history after an action for each entry, the last one newest.
abbrev pub log_all {ℓ} : {A : Type ℓ} → (A → Action) → List A → History → History
log_all act [] h = h
log_all act (x ∷ xs) h = log_all act xs (act x ∷ h)

-- A loop whose body takes one action and succeeds.
pub for_each-log_all :
    {A : Type 0} (f : A → M (Unit {0})) (act : A → Action)
    → ((x : A) (h : History) → f x h ≡ (ok tt, act x ∷ h))
    → (xs : List A) (h : History) → for_each f xs h ≡ (ok tt, log_all act xs h)
unfolding for_each
for_each-log_all f act one_action [] h = refl
for_each-log_all f act one_action (x ∷ xs) h =
    >>=-ok (f x) (λ _. for_each f xs) h (one_action x h)
    ∙ for_each-log_all f act one_action xs (act x ∷ h)

pub perform_live :
    (env : Env) → IsLive env → (a : Action) (h : History) → perform env a h ≡ (ok tt, a ∷ h)
unfolding perform
perform_live env live a h = rw (live.accepted h a)
