-- ===== src/ContractsHelpers/Linking.antt =====
-- `linkBytecode` and the length of the bytecode.
use vinium_lending.Prelude.{
  ℕ, ◌+◌, ◌*◌, ◌≤◌, String, ◌≡◌, refl, ◌∙◌, Option, none, some, List, [], ◌∷◌, lookup, Object,
  length, length-append, length-take, length-drop, All, arith,
}
use vinium_lending.Effects.{Fixup, Artifact}
use vinium_lending.ContractsHelpers.{
  link_fixup, link_fixups, link_libraries, link_files, link_bytecode,
}

-- The address fills its place, which lies inside a bytecode of length n.
abbrev pub FitsAt : ℕ → List ℕ → Fixup → Type 0
FitsAt n addr f = (length addr ≡ 2 + f.bytes * 2) × (2 + (f.start + f.bytes) * 2 ≤ n)

-- Each library with an address fits at all its places.
abbrev pub AddressFits : ℕ → List Fixup → Option (List ℕ) → Type 0
AddressFits n fixups none = Unit {0}
AddressFits n fixups (some addr) = All (FitsAt n addr) fixups

abbrev pub LibraryFits : ℕ → Object (List ℕ) → String × List Fixup → Type 0
LibraryFits n libraries (name, fixups) = AddressFits n fixups (lookup name libraries)

length-link_fixup :
    (addr bytecode : List ℕ) (f : Fixup)
    → FitsAt (length bytecode) addr f
    → length (link_fixup addr bytecode f) ≡ length bytecode
unfolding link_fixup
length-link_fixup addr bytecode f (same, inside) =
    rw (length-append, length-append, length-take, length-drop, length-drop)
      (omega (arith, same, inside))

length-link_fixups :
    (n : ℕ) (addr : List ℕ) (fixups : List Fixup) (bytecode : List ℕ)
    → length bytecode ≡ n
    → All (FitsAt n addr) fixups
    → length (link_fixups addr fixups bytecode) ≡ n
unfolding link_fixups
length-link_fixups n addr [] bytecode e fit = e
length-link_fixups n addr (f ∷ fs) bytecode e ((same, inside), fits) =
    length-link_fixups n addr fs (link_fixup addr bytecode f)
      (length-link_fixup addr bytecode f (same, omega arith) ∙ e) fits

length-link_libraries :
    (n : ℕ) (libraries : Object (List ℕ)) (references : Object (List Fixup)) (bytecode : List ℕ)
    → length bytecode ≡ n
    → All (LibraryFits n libraries) references
    → length (link_libraries libraries references bytecode) ≡ n
unfolding link_libraries
length-link_libraries n libraries [] bytecode e fit = e
length-link_libraries n libraries ((name, fixups) ∷ references) bytecode e (fit, fits) =
    length-link_libraries n libraries references _ (linked (lookup name libraries) fit) fits
  where
    linked :
        (o : Option (List ℕ))
        → AddressFits n fixups o
        → length (elim o as (λ _. List ℕ) [
          | none ↦ bytecode
          | some addr ↦ link_fixups addr fixups bytecode
        ])
          ≡ n
    linked none fit = e
    linked (some addr) fit = length-link_fixups n addr fixups bytecode e fit

length-link_files :
    (n : ℕ) (libraries : Object (List ℕ)) (files : Object (Object (List Fixup))) (bytecode : List ℕ)
    → length bytecode ≡ n
    → All (λ file. All (LibraryFits n libraries) file.1) files
    → length (link_files libraries files bytecode) ≡ n
unfolding link_files
length-link_files n libraries [] bytecode e fit = e
length-link_files n libraries ((name, references) ∷ files) bytecode e (fit, fits) =
    length-link_files n libraries files _
      (length-link_libraries n libraries references bytecode e fit) fits

-- If the address of each given library fills its places, and these lie inside the bytecode, linking
-- keeps the length of the bytecode.
pub length-link_bytecode :
    (artifact : Artifact) (libraries : Object (List ℕ))
    → All
        (λ file. All (LibraryFits (length artifact.bytecode) libraries) file.1)
        artifact.link_references
    → length (link_bytecode artifact libraries) ≡ length artifact.bytecode
unfolding link_bytecode
length-link_bytecode artifact libraries fits =
    length-link_files (length artifact.bytecode) libraries artifact.link_references
      artifact.bytecode refl fits
