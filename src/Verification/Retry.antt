-- ===== src/Verification/Retry.antt =====
-- How `runTaskWithRetry` of helpers/etherscan-verification.ts ends.
use vinium_lending.Prelude.{
  ℕ, zero, suc, ◌≤◌, String, ◌≡◌, refl, ap, ◌⊎◌, inl, inr, Bool, true, false, Option, none, some,
  List, [], ◌∷◌, ◌++◌, arith, length, nat_beq, if◌then◌else◌, contains_text,
}
use vinium_lending.Effects.{Env, Arg, Action, History, M, pure, ok, verified_etherscan}
use vinium_lending.Effects.Laws.{log_all}
use vinium_lending.Verification.{is_final, run_task_with_retry, run_verify, unable_verify_error}

module _ (env : Env) (address : String) (args : List Arg) where
  -- An attempt, with or without the related sources.
  abbrev pub attempt : Bool → Action
  attempt related = verified_etherscan address args related

  -- What came of the last attempt.
  abbrev pub Ended : History → List Bool → Option String → Type 0
  Ended h tried outcome =
      (earlier : List Bool) × (last : Bool) × (tried ≡ earlier ++ last ∷ [])
      × (env.verify_error (log_all attempt earlier h) address args last ≡ outcome)

  -- Why a run ended that cleaned up (true) or did not.
  abbrev pub Outcome : ℕ → History → List Bool → Bool → Type 0
  Outcome times h tried true = Ended h tried none ⊎ (length tried ≡ times)
  Outcome times h tried false =
      (message : String) × (is_final env message ≡ true) × Ended h tried (some message)

  -- A run with `times` attempts to make.
  abbrev pub IsFinished : ℕ → Bool → History → Type 0
  IsFinished times related h =
      (tried : List Bool) × (cleaned : Bool) × (run_task_with_retry env times address args related h
        ≡ (ok cleaned, log_all attempt tried h))
      × (length tried ≤ times)
      × Outcome times h tried cleaned

  Ended-cons :
      (first : Bool) (h : History) (tried : List Bool) (outcome : Option String)
      → Ended (attempt first ∷ h) tried outcome
      → Ended h (first ∷ tried) outcome
  Ended-cons first h tried outcome (earlier, last, split, came) =
      (first ∷ earlier, last, ap (λ t. first ∷ t) split, came)

  Outcome-cons :
      (first : Bool) (times : ℕ) (h : History) (tried : List Bool) (cleaned : Bool)
      → Outcome times (attempt first ∷ h) tried cleaned
      → Outcome (suc times) h (first ∷ tried) cleaned
  Outcome-cons first times h tried true (inl ended) = inl (Ended-cons first h tried none ended)
  Outcome-cons first times h tried true (inr spent) = inr (ap suc spent)
  Outcome-cons first times h tried false (message, final, ended) =
      (message, final, Ended-cons first h tried (some message) ended)

  -- What follows an attempt that failed with a message, which is final or not.
  abbrev after_failure : ℕ → Bool → String → Bool → M Bool
  after_failure counter sources message true = pure false
  after_failure counter sources message false =
      run_task_with_retry env counter address args
        (if contains_text message unable_verify_error then false else sources)

  -- A run of which the first attempt is made.
  abbrev RunAfter : ℕ → Bool → History → M Bool → Type 0
  RunAfter counter sources h next =
      (tried : List Bool) × (cleaned : Bool) × (next (attempt sources ∷ h)
        ≡ (ok cleaned, log_all attempt tried h))
      × (length tried ≤ suc counter)
      × Outcome (suc counter) h tried cleaned

  after_failure-RunAfter :
      (counter : ℕ) (sources : Bool) (message : String) (h : History)
      → env.verify_error h address args sources ≡ some message
      → ((r : Bool) → IsFinished counter r (attempt sources ∷ h))
      → (final : Bool) → is_final env message ≡ final
      → RunAfter counter sources h (after_failure counter sources message final)
  after_failure-RunAfter counter sources message h came rest true final =
      (sources ∷ [], false, refl, omega arith, (message, final, ([], sources, refl, came)))
  after_failure-RunAfter counter sources message h came rest false final =
      let (tried, cleaned, run, few, why) = rest _ in
      (
        sources ∷ tried,
        cleaned,
        run,
        omega (arith, few),
        Outcome-cons sources counter h tried cleaned why,
      )

  after_attempt-RunAfter :
      (counter : ℕ) (sources : Bool) (h : History) (error : Option String)
      → env.verify_error h address args sources ≡ error
      → ((r : Bool) → IsFinished counter r (attempt sources ∷ h))
      → RunAfter counter sources h (elim error as (λ _. M Bool) [
        | none ↦ pure true
        | some message ↦ after_failure counter sources message (is_final env message)
      ])
  after_attempt-RunAfter counter sources h none came rest =
      (sources ∷ [], true, refl, omega arith, inl ([], sources, refl, came))
  after_attempt-RunAfter counter sources h (some message) came rest =
      after_failure-RunAfter counter sources message h came rest (is_final env message) refl

  -- The task with retries always returns. It makes at most `times` attempts, with the same address
  -- and arguments, and acts in no other way. If it cleaned up, its last attempt succeeded or all
  -- attempts are spent; if it did not, the last attempt failed with one of the final errors.
  pub run_task_with_retry-IsFinished :
      (times : ℕ) (related : Bool) (h : History) → IsFinished times related h
  unfolding run_task_with_retry run_verify
  run_task_with_retry-IsFinished zero related h = ([], true, refl, omega arith, inr refl)
  run_task_with_retry-IsFinished (suc counter) related h =
      after_attempt-RunAfter counter (if nat_beq counter 0 then false else related) h _ refl
        (λ r. run_task_with_retry-IsFinished counter r _)
