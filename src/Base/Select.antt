-- ===== src/Base/Select.antt =====
-- The loop that appends what passes a test.
use mathlib.Core.Path.{◌≡◌, refl}
use mathlib.Core.Logic.{◌↔◌, inl, inr}
use mathlib.Core.Bool.{Bool, true}
use mathlib.Core.List.{List, [], ◌∷◌, ◌++◌}
use package.lindb.Base.Tests.{if◌then◌else◌, Bool-cases}
use package.lindb.Base.Lists.{In}

-- `for _, a := range xs { if p(a) { ys = append(ys, a) } }`
abbrev pub select {ℓ} : {A : Type ℓ} → (A → Bool) → List A → List A
select p [] = []
select p (x ∷ xs) = if p x then x ∷ select p xs else select p xs

select_sound :
    {A : Type 0} (p : A → Bool) (a : A) (xs : List A) → In a (select p xs) → In a xs × (p a ≡ true)
select_sound p a [] h = absurd h
select_sound p a (x ∷ xs) h = elim (Bool-cases (p x)) [
  | inl hit ↦ split hit (select_sound p a xs) (rw hit at h)
  | inr miss ↦ let (i, e) = select_sound p a xs (rw miss at h) in (inr i, e)
]
  where
    split :
        p x ≡ true
        → (In a (select p xs) → In a xs × (p a ≡ true))
        → In a (x ∷ select p xs)
        → In a (x ∷ xs) × (p a ≡ true)
    split hit ih (inl e) = (inl e, rw e hit)
    split hit ih (inr i) = (inr (ih i).0, (ih i).1)

select_complete :
    {A : Type 0} (p : A → Bool) (a : A) (xs : List A) → In a xs → p a ≡ true → In a (select p xs)
select_complete p a [] h e = absurd h
select_complete p a (x ∷ xs) (inl here) e = rw (← here, e) (inl refl)
select_complete p a (x ∷ xs) (inr there) e = elim (Bool-cases (p x)) [
  | inl hit ↦ rw hit (inr (select_complete p a xs there e))
  | inr miss ↦ rw miss (select_complete p a xs there e)
]

pub In-select :
    {A : Type 0} (p : A → Bool) (a : A) (xs : List A)
    → In a (select p xs) ↔ (In a xs × (p a ≡ true))
In-select p a xs = (select_sound p a xs, λ h. select_complete p a xs h.0 h.1)

pub select-append {ℓ} :
    {A : Type ℓ} (p : A → Bool) (xs ys : List A) → select p (xs ++ ys) ≡ select p xs ++ select p ys
select-append p [] ys = refl
select-append p (x ∷ xs) ys = elim (Bool-cases (p x)) [
  | inl hit ↦ rw (hit, select-append p xs ys)
  | inr miss ↦ rw (miss, select-append p xs ys)
]
