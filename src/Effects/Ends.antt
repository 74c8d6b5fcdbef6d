-- ===== src/Effects/Ends.antt =====
-- What the history of a script that returns is like: rules that pass over the script's first parts.
use vinium_lending.Effects.{Action, History, M, Result, ok, err, ◌>>=◌}
use vinium_lending.Effects.Adds.{Adds, Extends}
use vinium_lending.Effects.Ensures.{
  Ensures, returned, threw, Ensures-any, Ensures-resume, Ensures-self,
}
use vinium_lending.Prelude.{Bool, ◌≡◌}

-- Whenever `m` returns, the history that it leaves has the property.
pub record Ends {A : Type 0} (P : History → Type 0) (m : M A) : Type 0 where
  pub at : (h : History) → Ensures (λ _. P) (m h)

module _ {P : History → Type 0} where
  -- The first part does not matter.
  pub Ends-next :
      {A B : Type 0} (m : M A) (f : A → M B) → ((a : A) → Ends P (f a)) → Ends P (m >>= f)
  Ends-next m f next = record { at = λ h. Ensures-any f (m h) λ a k. (next a).at k }

  pub extended :
      {A : Type 0} {p : Action → Bool} {k : History} (r : Result A × History)
      → Extends p k r.1
      → ((l : History) → Extends p k l → P l)
      → Ensures (λ _. P) r
  extended (ok a, l) extends holds = returned (holds l extends)
  extended (err e, l) extends holds = threw

  -- The first part decides, and the rest only adds actions that pass a test.
  pub Ends-then :
      {A B : Type 0} {Q : History → Type 0} {p : Action → Bool} (m : M A) (f : A → M B)
      → Ends Q m
      → ((a : A) → Adds p (f a))
      → ((k l : History) → Q k → Extends p k l → P l)
      → Ends P (m >>= f)
  Ends-then m f first rest holds = record {
    at = λ h.
        Ensures-resume f (first.at h)
          λ a k q. extended (f a k) ((rest a).at k) (λ l extends. holds k l q extends);
  }

-- The same from a given history, where the first parts do matter.
pub record EndsAt {A : Type 0} (h : History) (P : History → Type 0) (m : M A) : Type 0 where
  pub here : Ensures (λ _. P) (m h)

module _ {h : History} {P : History → Type 0} where
  pub EndsAt-next :
      {A B : Type 0} (m : M A) (f : A → M B)
      → ((a : A) (k : History) → m h ≡ (ok a, k) → EndsAt k P (f a))
      → EndsAt h P (m >>= f)
  EndsAt-next m f next = record {
    here = Ensures-resume f (Ensures-self (m h)) λ a k e. (next a k e).here;
  }

  pub EndsAt-any : {A : Type 0} (m : M A) → Ends P m → EndsAt h P m
  EndsAt-any m ends = record { here = ends.at h }
