-- ===== src/Prelude/Text/Trim.antt =====
-- `str::trim` applied twice is `trim` applied once.
use helbreath_backend.Prelude.{
  ◌≤◌, ◌≡◌, refl, ap, ◌∙◌, ◌&&◌, [], ◌∷◌, arith, length, Bool-cases, inl, inr,
}
use helbreath_backend.Prelude.Text.{Text, is_empty, is_whitespace, trim_start, trim_end, trim}

trim_start_idem : (t : Text) → trim_start (trim_start t) ≡ trim_start t
unfolding trim_start
trim_start_idem [] = refl
trim_start_idem (c ∷ cs) = ground (arith, trim_start_idem cs)

trim_end_idem : (t : Text) → trim_end (trim_end t) ≡ trim_end t
unfolding trim_end
trim_end_idem [] = refl
trim_end_idem (c ∷ cs) = elim (Bool-cases (is_whitespace c && is_empty (trim_end cs))) [
  | inl e ↦ rw e refl
  | inr e ↦ rw e (rw (trim_end_idem cs) (rw e refl))
]

length-trim_start : (t : Text) → length (trim_start t) ≤ length t
unfolding trim_start
length-trim_start [] = omega arith
length-trim_start (c ∷ cs) = ground (arith, length-trim_start cs)

trim_start-trim_end : (t : Text) → trim_start t ≡ t → trim_start (trim_end t) ≡ trim_end t
unfolding trim_start trim_end
trim_start-trim_end [] h = refl
trim_start-trim_end (c ∷ cs) h = elim (Bool-cases (is_whitespace c)) [
  | inl e ↦
      let shorter : trim_start cs ≡ c ∷ cs = rw e at h in
      absurd (omega (arith, ap length shorter, length-trim_start cs))
  | inr e ↦ rw e (rw e refl)
]

pub trim-trim : (t : Text) → trim (trim t) ≡ trim t
unfolding trim
trim-trim t =
    ap trim_end (trim_start-trim_end (trim_start t) (trim_start_idem t))
    ∙ trim_end_idem (trim_start t)
