-- ===== src/Polygon/Clean.antt =====
-- The source that is sent to the explorer, and its three marks.
use Prim.Native.Char.{Char, code}
use text.Mathlib.TextLemmas.{nil-append, cons-append}
use vinium_lending.Prelude.{
  ℕ, zero, suc, ◌≤◌, String, Bool, true, false, not, ◌&&◌, ◌≡◌, refl, ap, ◌∙◌, List, [], ◌∷◌,
  nat_beq, cat, length, contains_text, arith, Bool-cases, inl, inr, All, length-take,
}
use vinium_lending.Polygon.{
  split, join, newline, cons_first, filter_lines, remove_lines, clean_source, license_identifier,
  solidity_pragma, experimental_abiencoder,
}
use vinium_lending.Polygon.Lines.{matching, matching-filter_lines, matching-filter_lines-le}

-- A text without a line end.
is_line : String → Bool
is_line String.[] = true
is_line (String.◌∷◌ c s) = let rest = is_line s in not (nat_beq (code c) newline) && rest

abbrev AllLines : List String → Type 0
AllLines = All (λ s. is_line s ≡ true)

cons_first-AllLines :
    (c : Char) (ss : List String)
    → nat_beq (code c) newline ≡ false
    → AllLines ss
    → AllLines (cons_first c ss)
unfolding is_line
cons_first-AllLines c [] e all = (rw e refl, tt)
cons_first-AllLines c (s ∷ ss) e (line, rest) = (rw e line, rest)

split-AllLines : (s : String) → AllLines (split newline s)
unfolding split is_line
split-AllLines String.[] = (refl, tt)
split-AllLines (String.◌∷◌ c s) = elim (Bool-cases (nat_beq (code c) newline)) [
  | inl e ↦ rw e (refl, split-AllLines s)
  | inr e ↦ rw e (cons_first-AllLines c (split newline s) e (split-AllLines s))
]

filter_lines-AllLines :
    (m : String) (k : ℕ) (lines : List String) → AllLines lines → AllLines (filter_lines m k lines)
unfolding filter_lines
filter_lines-AllLines m k [] all = tt
filter_lines-AllLines m zero (line ∷ lines) (first, rest) =
    elim (Bool-cases (contains_text line m)) [
      | inl e ↦ rw e (filter_lines-AllLines m 0 lines rest)
      | inr e ↦ rw e (first, filter_lines-AllLines m 0 lines rest)
    ]
filter_lines-AllLines m (suc k) (line ∷ lines) (first, rest) =
    elim (Bool-cases (contains_text line m)) [
      | inl e ↦ rw e (first, filter_lines-AllLines m k lines rest)
      | inr e ↦ rw e (first, filter_lines-AllLines m (suc k) lines rest)
    ]

not-and-parts : (b r : Bool) → (not b && r) ≡ true → (b ≡ false) × (r ≡ true)
not-and-parts true r e = ground arith
not-and-parts false r e = (refl, e)

-- A line, a line end and more.
split-cat :
    (s t : String) → is_line s ≡ true → split newline (cat s (cat "\n" t)) ≡ s ∷ split newline t
unfolding split is_line
split-cat String.[] t line = rw (nil-append, cons-append, nil-append) refl
split-cat (String.◌∷◌ c s) t line =
    let (inner, rest) = not-and-parts (nat_beq (code c) newline) (is_line s) line in
    rw (cons-append, inner) (ap (cons_first c) (split-cat s t rest))

split_line : (s : String) → is_line s ≡ true → split newline s ≡ s ∷ []
unfolding split is_line
split_line String.[] line = refl
split_line (String.◌∷◌ c s) line =
    let (inner, rest) = not-and-parts (nat_beq (code c) newline) (is_line s) line in
    rw inner (ap (cons_first c) (split_line s rest))

split-join :
    (l : String) (ls : List String) → AllLines (l ∷ ls) → split newline (join (l ∷ ls)) ≡ l ∷ ls
split-join l [] (line, rest) = split_line l line
split-join l (k ∷ ls) (line, rest) =
    split-cat l (join (k ∷ ls)) line ∙ ap (λ r. l ∷ r) (split-join k ls rest)

-- Lines that are joined and cut again have a text as often.
matching-join :
    (n : String) (lines : List String)
    → contains_text "" n ≡ false
    → AllLines lines
    → matching n (split newline (join lines)) ≡ matching n lines
unfolding split
matching-join n [] e all = rw e refl
matching-join n (l ∷ ls) e all = ap (matching n) (split-join l ls all)

module _ (n m text : String) (k : ℕ) (nonempty : contains_text "" n ≡ false) where
  matching-remove_lines :
      matching n (split newline (remove_lines text m k))
      ≡ matching n (filter_lines m k (split newline text))
  unfolding remove_lines
  matching-remove_lines =
      matching-join n _ nonempty (filter_lines-AllLines m k _ (split-AllLines text))

  remove_lines-le :
      length (matching n (split newline (remove_lines text m k)))
      ≤ length (matching n (split newline text))
  remove_lines-le = rw matching-remove_lines (matching-filter_lines-le n m k (split newline text))

-- With a mark that is not empty, a text keeps the mark on so many lines at most.
remove_lines_bound :
    (m text : String) (k : ℕ)
    → contains_text "" m ≡ false
    → length (matching m (split newline (remove_lines text m k))) ≤ k
remove_lines_bound m text k nonempty =
    rw (matching-remove_lines m m text k nonempty, matching-filter_lines m k (split newline text))
      (omega (arith, length-take k (matching m (split newline text))))

-- The number of lines of a text that have a mark.
abbrev pub lines_with : String → String → ℕ
lines_with m text = length (matching m (split newline text))

-- The cleaned source of any contract has a licence identifier, a compiler pragma and the pragma of
-- the experimental encoder each on one line at most.
pub clean_source_bound :
    (text : String)
    → (lines_with license_identifier (clean_source text) ≤ 1)
      × (lines_with solidity_pragma (clean_source text) ≤ 1)
      × (lines_with experimental_abiencoder (clean_source text) ≤ 1)
unfolding clean_source
clean_source_bound text =
    let t1 = remove_lines text license_identifier 1 in
    let t2 = remove_lines t1 solidity_pragma 1 in
    (
      omega (
        arith,
        remove_lines_bound license_identifier text 1 refl,
        remove_lines-le license_identifier solidity_pragma t1 1 refl,
        remove_lines-le license_identifier experimental_abiencoder t2 1 refl,
      ),
      omega (
        arith,
        remove_lines_bound solidity_pragma t1 1 refl,
        remove_lines-le solidity_pragma experimental_abiencoder t2 1 refl,
      ),
      remove_lines_bound experimental_abiencoder t2 1 refl,
    )
