-- ===== src/Net/Fields/Trimmed.antt =====
-- crates/net/src/lib.rs: a text field is trimmed.
use helbreath_backend.Prelude.{ℕ, ◌≡◌, List, some, arith, Option-cases, inl, inr}
use helbreath_backend.Prelude.Text.{Text, from_utf8, trim}
use helbreath_backend.Prelude.Text.Trim.{trim-trim}
use helbreath_backend.Net.Fields.{split_zero, trimmed_text}

pub trimmed_text-trim : (input : List ℕ) (t : Text) → trimmed_text input ≡ some t → trim t ≡ t
unfolding trimmed_text
trimmed_text-trim input t h = elim (Option-cases (from_utf8 (split_zero input).0)) [
  | inl e ↦ cc (rw (e, trimmed_text) at h)
  | inr (u, e) ↦
      let same : trim u ≡ t = ground (arith, rw (e, trimmed_text) at h) in rw (← same) (trim-trim u)
]
