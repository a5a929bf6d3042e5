-- ===== src/Prelude/Text/Equal.antt =====
-- `==` on strings.
use helbreath_backend.Prelude.{
  ◌≡◌, refl, ap₂, ◌↔◌, Bool, true, false, [], ◌∷◌, arith, ◌==◌, ==_iff, Eq, Bool-cases, inl, inr,
  if◌then◌else◌,
}
use helbreath_backend.Prelude.Text.{Text}

abbrev pub eqb_text : Text → Text → Bool
eqb_text [] [] = true
eqb_text [] (d ∷ ds) = false
eqb_text (c ∷ cs) [] = false
eqb_text (c ∷ cs) (d ∷ ds) = if c == d then eqb_text cs ds else false

pub eqb_text_iff : (s t : Text) → (eqb_text s t ≡ true) ↔ (s ≡ t)
eqb_text_iff [] [] = (λ h. refl, λ h. refl)
eqb_text_iff [] (d ∷ ds) = (λ h. cc, λ h. cc)
eqb_text_iff (c ∷ cs) [] = (λ h. cc, λ h. cc)
eqb_text_iff (c ∷ cs) (d ∷ ds) = elim (Bool-cases (c == d)) [
  | inl t ↦
      let head = (==_iff c d).0 t in
      rw t (
        λ h. ap₂ (λ x xs. x ∷ xs) head ((eqb_text_iff cs ds).0 h),
        λ h. (eqb_text_iff cs ds).1 (cc h),
      )
  | inr t ↦ rw t (λ h. cc, λ h. let z : c ≡ d = cc h in cc (t, (==_iff c d).1 z))
]

instance abbrev pub text_eq : Eq Text
text_eq = record { beq = eqb_text; beq_iff = eqb_text_iff }

pub eqb_text_sym : (s t : Text) → eqb_text s t ≡ eqb_text t s
eqb_text_sym [] [] = refl
eqb_text_sym [] (d ∷ ds) = refl
eqb_text_sym (c ∷ cs) [] = refl
eqb_text_sym (c ∷ cs) (d ∷ ds) = ground (arith, eqb_text_sym cs ds)
