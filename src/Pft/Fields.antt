-- ===== src/Pft/Fields.antt =====
-- src/pft.c: the fields of a name.
use dhttp.Base.{
  ℕ, zero, suc, ◌≤◌, ◌≡◌, refl, ap, ◌∙◌, arith, false, Bool-cases, inl, inr, List, [], ◌∷◌, ◌++◌,
  length, ◌==◌,
}
use dhttp.Pft.{cut, get_next_field, fields_from, fields}

-- one field after the other
abbrev pub join : List (List ℕ) → List ℕ
join [] = []
join (f ∷ fs) = f ++ join fs

-- A '/' ends its field, and every field has a byte.
abbrev pub IsField : List ℕ → Type 0
IsField [] = 1 ≤ 0
IsField (c ∷ []) = Unit {0}
IsField (c ∷ (d ∷ f)) = ((c == b'/') ≡ false) × IsField (d ∷ f)

abbrev pub AreFields : List (List ℕ) → Type 0
AreFields [] = Unit {0}
AreFields (f ∷ fs) = IsField f × AreFields fs

cut-join : (s : List ℕ) → (cut s).0 ++ (cut s).1 ≡ s
unfolding cut
cut-join [] = refl
cut-join (c ∷ s) = elim (Bool-cases (c == b'/')) [
  | inl e ↦ rw e refl
  | inr e ↦ rw e (ap (λ t. c ∷ t) (cut-join s))
]

cut-length : (c : ℕ) (s : List ℕ) → length (cut (c ∷ s)).1 ≤ length s
unfolding cut
cut-length c [] = ground arith
cut-length c (d ∷ s) = elim (Bool-cases (c == b'/')) [
  | inl e ↦ rw e (omega arith)
  | inr e ↦ rw (cut, e) (omega (arith, cut-length d s))
]

IsField-next : (c : ℕ) (f : List ℕ) → (c == b'/') ≡ false → IsField f → IsField (c ∷ f)
IsField-next c [] e h = absurd (omega arith)
IsField-next c (d ∷ f) e h = (e, h)

cut-IsField : (c : ℕ) (s : List ℕ) → IsField (cut (c ∷ s)).0
unfolding cut
cut-IsField c [] = ground arith
cut-IsField c (d ∷ s) = elim (Bool-cases (c == b'/')) [
  | inl e ↦ rw e tt
  | inr e ↦ rw (cut, e) (IsField-next c (cut (d ∷ s)).0 e (cut-IsField d s))
]

fields_from-join :
    (fuel : ℕ) (s : List ℕ)
    → length s ≤ fuel
    → (join (fields_from fuel s) ≡ s) × AreFields (fields_from fuel s)
unfolding fields_from get_next_field
fields_from-join zero [] h = (refl, tt)
fields_from-join zero (c ∷ s) h = absurd (omega arith)
fields_from-join (suc fuel) [] h = (refl, tt)
fields_from-join (suc fuel) (c ∷ s) h =
    let (whole, each) = fields_from-join fuel (cut (c ∷ s)).1 (omega (arith, cut-length c s)) in
    (ap (λ t. (cut (c ∷ s)).0 ++ t) whole ∙ cut-join (c ∷ s), (cut-IsField c s, each))

-- The fields of a name are the name, cut behind every '/'.
pub fields-join : (s : List ℕ) → (join (fields s) ≡ s) × AreFields (fields s)
unfolding fields
fields-join s = fields_from-join (length s) s (omega arith)
