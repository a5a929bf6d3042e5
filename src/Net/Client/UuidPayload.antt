-- ===== src/Net/Client/UuidPayload.antt =====
-- crates/net/src/lib.rs: `parse_uuid_payload` and the lengths of texts.
use helbreath_backend.Prelude.{
  ℕ, ◌≤◌, ◌<◌, ◌≡◌, ap, inl, inr, false, none, some, List, [], ◌∷◌, arith, length, take, leb, ok,
  ◌==◌, Bool-cases, Option-cases, Result-cases,
}
use helbreath_backend.Prelude.Text.{Text, len, trim, from_utf8}
use helbreath_backend.Prelude.Text.Length.{len-from_utf8, len-trim}
use helbreath_backend.Domain.{Uuid, UuidCrate}
use helbreath_backend.Net.Fields.{split_zero, trimmed_text}
use helbreath_backend.Net.Client.{
  clean_text, bytes_to_clean_string, parse_text_payload, parse_uuid_payload,
}

length-split_zero : (bytes : List ℕ) → length (split_zero bytes).0 ≤ length bytes
unfolding split_zero
length-split_zero [] = omega arith
length-split_zero (b ∷ bs) = elim (Bool-cases (b == 0)) [
  | inl e ↦ rw e (omega arith)
  | inr e ↦ rw e (omega (arith, length-split_zero bs))
]

len-trimmed_text : (input : List ℕ) (t : Text) → trimmed_text input ≡ some t → len t ≤ length input
unfolding trimmed_text
len-trimmed_text input t h = elim (Option-cases (from_utf8 (split_zero input).0)) [
  | inl e ↦ cc (rw (e, trimmed_text) at h)
  | inr (u, e) ↦
      let same : trim u ≡ t = ground (arith, rw (e, trimmed_text) at h) in
      omega (
        arith,
        ap len same,
        len-trim u,
        len-from_utf8 (split_zero input).0 u e,
        length-split_zero input,
      )
]

len-clean_text : (t r : Text) (max : ℕ) → clean_text t max ≡ ok r → len r ≡ len t
unfolding clean_text
len-clean_text t r max h = ground arith

len-parse_text :
    (payload : List ℕ) (max : ℕ) (r : Text)
    → parse_text_payload payload max ≡ ok r
    → len r ≤ length payload
unfolding parse_text_payload bytes_to_clean_string
len-parse_text payload max r h = elim (Option-cases (trimmed_text payload)) [
  | inl e ↦ cc (rw (e, parse_text_payload) at h)
  | inr (t, e) ↦
      let clean : clean_text t max ≡ ok r = rw (e, parse_text_payload) at h in
      omega (arith, len-clean_text t r max clean, len-trimmed_text payload t e)
]

not_long : (n : ℕ) → leb 16 n ≡ false → n < 16
not_long n h = ground arith

module _ (uuid : UuidCrate) where
  no_short_text : (t : Text) → len t < 32 → uuid.parse_str t ≡ none
  no_short_text t short = elim (Option-cases (uuid.parse_str t)) [
    | inl e ↦ e
    | inr (u, e) ↦ absurd (omega (arith, uuid.parse_str_len t u e))
  ]

  -- An identifier is only ever read from the raw first sixteen bytes of a payload: no payload, short
  -- or long, is parsed as the text of an identifier.
  pub parse_uuid_payload_raw :
      (payload : List ℕ) (u : Uuid)
      → parse_uuid_payload uuid payload ≡ ok u
      → (16 ≤ length payload) × (u ≡ uuid.from_bytes (take 16 payload))
  unfolding parse_uuid_payload
  parse_uuid_payload_raw payload u h = elim (Bool-cases (leb 16 (length payload))) [
    | inl e ↦ ground arith
    | inr e ↦ elim (Result-cases (parse_text_payload payload 64)) [
      | inl (t, p) ↦
          let tiny : len (trim t) < 32 =
            omega (arith, len-trim t, len-parse_text payload 64 t p, not_long (length payload) e) in
          let gone = no_short_text (trim t) tiny in cc (rw (e, p, gone, parse_uuid_payload) at h)
      | inr (x, p) ↦ cc (rw (e, p, parse_uuid_payload) at h)
    ]
  ]
