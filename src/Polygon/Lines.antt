-- ===== src/Polygon/Lines.antt =====
-- `removeLines`: which lines it keeps, and the texts that it cuts at line ends.
use vinium_lending.Prelude.{
  ℕ, zero, suc, ◌≤◌, String, ◌≡◌, refl, List, [], ◌∷◌, take, length, contains_text, if◌then◌else◌,
  arith, Bool-cases, inl, inr,
}
use vinium_lending.Polygon.{filter_lines}

-- The lines that have the text, and the others.
abbrev pub matching : String → List String → List String
matching m [] = []
matching m (line ∷ lines) =
    let rest = matching m lines in if contains_text line m then line ∷ rest else rest

abbrev pub others : String → List String → List String
others m [] = []
others m (line ∷ lines) =
    let rest = others m lines in if contains_text line m then rest else line ∷ rest

others-filter_lines :
    (m : String) (k : ℕ) (lines : List String) → others m (filter_lines m k lines) ≡ others m lines
unfolding filter_lines
others-filter_lines m k [] = refl
others-filter_lines m zero (line ∷ lines) = elim (Bool-cases (contains_text line m)) [
  | inl e ↦ rw e (others-filter_lines m 0 lines)
  | inr e ↦ simp (e, others-filter_lines m 0 lines)
]
others-filter_lines m (suc k) (line ∷ lines) = elim (Bool-cases (contains_text line m)) [
  | inl e ↦ simp (e, others-filter_lines m k lines)
  | inr e ↦ simp (e, others-filter_lines m (suc k) lines)
]

pub matching-filter_lines :
    (m : String) (k : ℕ) (lines : List String)
    → matching m (filter_lines m k lines) ≡ take k (matching m lines)
unfolding filter_lines
matching-filter_lines m zero [] = refl
matching-filter_lines m (suc k) [] = refl
matching-filter_lines m zero (line ∷ lines) = elim (Bool-cases (contains_text line m)) [
  | inl e ↦ simp (e, matching-filter_lines m 0 lines)
  | inr e ↦ simp (e, matching-filter_lines m 0 lines)
]
matching-filter_lines m (suc k) (line ∷ lines) = elim (Bool-cases (contains_text line m)) [
  | inl e ↦ simp (e, matching-filter_lines m k lines)
  | inr e ↦ simp (e, matching-filter_lines m (suc k) lines)
]

-- With any bound on the lines to keep, the lines without the text all stay, in their order, and of
-- the lines with the text just the first ones stay, as many as the bound says.
pub filter_lines_lem :
    (m : String) (k : ℕ) (lines : List String)
    → (others m (filter_lines m k lines) ≡ others m lines)
      × (matching m (filter_lines m k lines) ≡ take k (matching m lines))
filter_lines_lem m k lines = (others-filter_lines m k lines, matching-filter_lines m k lines)

-- Lines of another text are never added.
pub matching-filter_lines-le :
    (n m : String) (k : ℕ) (lines : List String)
    → length (matching n (filter_lines m k lines)) ≤ length (matching n lines)
unfolding filter_lines
matching-filter_lines-le n m k [] = omega arith
matching-filter_lines-le n m zero (line ∷ lines) =
    ground (arith, matching-filter_lines-le n m 0 lines)
matching-filter_lines-le n m (suc k) (line ∷ lines) =
    ground (arith, matching-filter_lines-le n m k lines, matching-filter_lines-le n m (suc k) lines)
