-- ===== src/Net/Codec/Compression.antt =====
-- crates/net/src/lib.rs: `compress_wire_payload` and `decompress_wire_payload`.
use mathlib.Core.List.{append_assoc, append-nil}
use helbreath_backend.Prelude.{
  ℕ, zero, suc, ◌+◌, ◌*◌, ◌%◌, ◌≤◌, ◌<◌, ◌≡◌, ◌≢◌, refl, sym, ap, ◌∙◌, ◌&&◌, ◌||◌, List, [], ◌∷◌,
  ◌++◌, arith, length, length-append, length-replicate, replicate, drop, All, ltb, leb, ◌==◌,
  Bool-cases, inl, inr, ok, All-append, >>=-eq-ok,
}
use helbreath_backend.Net.Frame.{IsByte}
use helbreath_backend.Net.Codec.{
  count_run, run_output, compress_loop, compress_wire_payload, push_literal, push_run,
  decompress_loop, decompress_wire_payload,
}

-- A run of `k` more equal bytes was counted, which stand at the front, and the count is in range.
record Counted (byte : ℕ) (rest : List ℕ) (run total : ℕ) : Type 0 where
  more : ℕ
  total_eq : total ≡ run + more
  front : rest ≡ replicate more byte ++ drop more rest
  in_range : run ≤ 255 → total ≤ 255

count_run-Counted :
    (byte : ℕ) (rest : List ℕ) (run : ℕ) → Counted byte rest run (count_run byte rest run)
unfolding count_run
count_run-Counted byte [] run = record {
  more = 0;
  total_eq = omega arith;
  front = refl;
  in_range = λ h. h;
}
count_run-Counted byte (next ∷ rest) run = elim (Bool-cases (next == byte && ltb run 255)) [
  | inl e ↦
      let ih = count_run-Counted byte rest (run + 1) in
      let same : next ≡ byte = ground arith in
      let low : run < 255 = ground arith in
      rw e (record {
        more = suc ih.more;
        total_eq = omega (arith, ih.total_eq);
        front = rw same (ap (λ t. byte ∷ t) ih.front);
        in_range = λ h. ih.in_range (omega arith);
      })
  | inr e ↦ rw e (record { more = 0; total_eq = omega arith; front = refl; in_range = λ h. h })
]

-- The bytes that a round takes are its run.
run_front :
    (byte : ℕ) (rest : List ℕ) (run : ℕ)
    → Counted byte rest 1 run
    → byte ∷ rest ≡ replicate run byte ++ drop run (byte ∷ rest)
run_front byte rest run c =
    let e : run ≡ suc c.more = omega (arith, c.total_eq) in rw e (ap (λ t. byte ∷ t) c.front)

length_round :
    (byte : ℕ) (rest : List ℕ) (run : ℕ)
    → Counted byte rest 1 run
    → length (byte ∷ rest) ≡ run + length (drop run (byte ∷ rest))
length_round byte rest run c = omega (
  arith,
  ap length (run_front byte rest run c),
  length-append (replicate run byte) (drop run (byte ∷ rest)),
  length-replicate run byte,
)

module _ (max : ℕ) where
  -- One literal byte.
  literal :
      (byte : ℕ) (ys out : List ℕ)
      → byte ≢ 255
      → length out + 1 ≤ max
      → decompress_loop max (byte ∷ ys) out ≡ decompress_loop max ys (out ++ (byte ∷ []))
  unfolding decompress_loop push_literal
  literal byte [] out ne fits = ground (arith, length-append out (byte ∷ []))
  literal byte (a ∷ []) out ne fits = ground (arith, length-append out (byte ∷ []))
  literal byte (a ∷ b ∷ rest) out ne fits = ground (arith, length-append out (byte ∷ []))

  literals :
      (n byte : ℕ) (ys out : List ℕ)
      → byte ≢ 255
      → length out + n ≤ max
      → decompress_loop max (replicate n byte ++ ys) out
        ≡ decompress_loop max ys (out ++ replicate n byte)
  literals zero byte ys out ne fits = rw append-nil
  literals (suc n) byte ys out ne fits =
      literal byte (replicate n byte ++ ys) out ne (omega arith)
      ∙ literals n byte ys (out ++ (byte ∷ [])) ne (omega (arith, length-append out (byte ∷ [])))
      ∙ ap (decompress_loop max ys) (append_assoc out (byte ∷ []) (replicate n byte))

  -- One escaped run.
  escaped :
      (run byte : ℕ) (ys out : List ℕ)
      → 0 < run
      → run ≤ 255
      → length out + run ≤ max
      → decompress_loop max (255 ∷ (run % 256) ∷ byte ∷ ys) out
        ≡ decompress_loop max ys (out ++ replicate run byte)
  unfolding decompress_loop push_run
  escaped run byte ys out pos low fits =
      let same : run % 256 ≡ run = omega arith in rw same (ground arith)

  run_output_undo :
      (run byte : ℕ) (ys out : List ℕ)
      → 0 < run
      → run ≤ 255
      → length out + run ≤ max
      → decompress_loop max (run_output run byte ++ ys) out
        ≡ decompress_loop max ys (out ++ replicate run byte)
  unfolding run_output
  run_output_undo run byte ys out pos low fits = elim (Bool-cases (leb 4 run || byte == 255)) [
    | inl e ↦ rw e (escaped run byte ys out pos low fits)
    | inr e ↦ rw e (literals run byte ys out (ground arith) fits)
  ]

  compress_loop_undo :
      (fuel : ℕ) (payload out : List ℕ)
      → length payload ≤ fuel
      → length out + length payload ≤ max
      → decompress_loop max (compress_loop fuel payload) out ≡ ok (out ++ payload)
  unfolding compress_loop decompress_loop
  compress_loop_undo zero [] out enough fits = rw append-nil
  compress_loop_undo zero (byte ∷ rest) out enough fits = absurd (omega arith)
  compress_loop_undo (suc fuel) [] out enough fits = rw append-nil
  compress_loop_undo (suc fuel) (byte ∷ rest) out enough fits =
      let run = count_run byte rest 1 in
      let c = count_run-Counted byte rest 1 in
      let later = drop run (byte ∷ rest) in
      let size = length_round byte rest run c in
      let pos : 0 < run = omega (arith, c.total_eq) in
      run_output_undo run byte (compress_loop fuel later) out pos (c.in_range (omega arith))
        (omega (arith, size))
      ∙ compress_loop_undo fuel later (out ++ replicate run byte) (omega (arith, size, pos))
          (omega (arith, size, length-append out (replicate run byte), length-replicate run byte))
      ∙ ap ok (
          append_assoc out (replicate run byte) later
          ∙ ap (λ t. out ++ t) (sym (run_front byte rest run c)))

-- A payload that is compressed is restored, if the limit on the output is its length or more.
pub decompress-compress :
    (payload : List ℕ) (max_output : ℕ)
    → length payload ≤ max_output
    → decompress_wire_payload (compress_wire_payload payload) max_output ≡ ok payload
unfolding decompress_wire_payload compress_wire_payload
decompress-compress payload max_output fits =
    compress_loop_undo max_output (length payload) payload [] (omega arith) (omega arith)

push_literal-le :
    (max byte : ℕ) (out r : List ℕ) → push_literal max byte out ≡ ok r → length r ≤ max
unfolding push_literal
push_literal-le max byte out r h = ground (arith, length-append out (byte ∷ []))

push_run-le :
    (max count value : ℕ) (out r : List ℕ) → push_run max count value out ≡ ok r → length r ≤ max
unfolding push_run
push_run-le max count value out r h =
    ground (arith, length-append out (replicate count value), length-replicate count value)

decompress_loop-le :
    (max : ℕ) (payload out r : List ℕ)
    → length out ≤ max
    → decompress_loop max payload out ≡ ok r
    → length r ≤ max
unfolding decompress_loop
decompress_loop-le max [] out r h e = ground arith
decompress_loop-le max (byte ∷ []) out r h e = ground (arith, push_literal-le max byte out r)
decompress_loop-le max (byte ∷ a ∷ []) out r h e = elim (Bool-cases (byte == 255)) [
  | inl t ↦ cc t
  | inr t ↦
      let (out', p, q) = >>=-eq-ok (push_literal max byte out) _ (rw t at e) in
      decompress_loop-le max (a ∷ []) out' r (push_literal-le max byte out out' p) q
]
decompress_loop-le max (byte ∷ count ∷ value ∷ rest) out r h e = elim (Bool-cases (byte == 255)) [
  | inl t ↦
      let (out', p, q) = >>=-eq-ok (push_run max count value out) _ (rw t at e) in
      decompress_loop-le max rest out' r (push_run-le max count value out out' p) q
  | inr t ↦
      let (out', p, q) = >>=-eq-ok (push_literal max byte out) _ (rw t at e) in
      decompress_loop-le max (count ∷ value ∷ rest) out' r (push_literal-le max byte out out' p) q
]

-- Whatever a peer sends, what is decompressed keeps the limit.
pub decompress-le :
    (payload : List ℕ) (max_output : ℕ) (r : List ℕ)
    → decompress_wire_payload payload max_output ≡ ok r
    → length r ≤ max_output
unfolding decompress_wire_payload
decompress-le payload max_output r e = decompress_loop-le max_output payload [] r (omega arith) e

length-run_output : (run byte : ℕ) → 0 < run → length (run_output run byte) ≤ 3 * run
unfolding run_output
length-run_output run byte pos = ground (arith, length-replicate run byte)

length-compress_loop :
    (fuel : ℕ) (payload : List ℕ) → length (compress_loop fuel payload) ≤ 3 * length payload
unfolding compress_loop
length-compress_loop zero payload = omega arith
length-compress_loop (suc fuel) [] = omega arith
length-compress_loop (suc fuel) (byte ∷ rest) =
    let run = count_run byte rest 1 in
    let c = count_run-Counted byte rest 1 in
    let later = drop run (byte ∷ rest) in
    omega (
      arith,
      c.total_eq,
      length_round byte rest run c,
      length-append (run_output run byte) (compress_loop fuel later),
      length-run_output run byte (omega (arith, c.total_eq)),
      length-compress_loop fuel later,
    )

-- Compression at most trebles a payload.
pub length-compress :
    (payload : List ℕ) → length (compress_wire_payload payload) ≤ 3 * length payload
unfolding compress_wire_payload
length-compress payload = length-compress_loop (length payload) payload

All-replicate : (n byte : ℕ) → IsByte byte → All IsByte (replicate n byte)
All-replicate zero byte h = tt
All-replicate (suc n) byte h = (h, All-replicate n byte h)

All-drop : (n : ℕ) (xs : List ℕ) → All IsByte xs → All IsByte (drop n xs)
All-drop zero xs h = h
All-drop (suc n) [] h = tt
All-drop (suc n) (x ∷ xs) h = All-drop n xs h.1

run_output_bytes : (run byte : ℕ) → IsByte byte → All IsByte (run_output run byte)
unfolding run_output
run_output_bytes run byte h = elim (Bool-cases (leb 4 run || byte == 255)) [
  | inl e ↦ rw e (omega arith)
  | inr e ↦ rw e (All-replicate run byte h)
]

compress_loop_bytes :
    (fuel : ℕ) (payload : List ℕ) → All IsByte payload → All IsByte (compress_loop fuel payload)
unfolding compress_loop
compress_loop_bytes zero payload h = tt
compress_loop_bytes (suc fuel) [] h = tt
compress_loop_bytes (suc fuel) (byte ∷ rest) h =
    let run = count_run byte rest 1 in
    All-append IsByte (run_output run byte) (compress_loop fuel (drop run (byte ∷ rest)))
      (run_output_bytes run byte h.0)
      (compress_loop_bytes fuel (drop run (byte ∷ rest)) (All-drop run (byte ∷ rest) h))

-- The compressed form of bytes is bytes.
pub compress_bytes :
    (payload : List ℕ) → All IsByte payload → All IsByte (compress_wire_payload payload)
unfolding compress_wire_payload
compress_bytes payload h = compress_loop_bytes (length payload) payload h
