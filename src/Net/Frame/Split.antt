-- ===== src/Net/Frame/Split.antt =====
-- crates/net/src/lib.rs: `split_frames` on whole streams and on their parts.
use mathlib.Core.List.{append_assoc}
use helbreath_backend.Prelude.{
  ℕ, zero, suc, ◌+◌, ◌^◌, ◌≤◌, ◌<◌, ◌≡◌, refl, sym, ap, ◌∙◌, ◌⊎◌, inl, inr, false, List, [], ◌∷◌,
  ◌++◌, arith, length, All, All-append, length-append, length-drop, take, drop, take-append,
  drop-append, take-append-drop, length-take_of_le, ltb, Bool-cases, lt→ltb, ltb→lt,
}
use helbreath_backend.Net.Frame.{u16_from_le, at, split_loop, split_frames, encode_frame}

abbrev pub concat : List (List ℕ) → List ℕ
concat [] = []
concat (f ∷ fs) = f ++ concat fs

-- What the length field of the first two bytes asks for.
abbrev pub declared_size : List ℕ → ℕ
declared_size buffer = u16_from_le (at buffer 0) (at buffer 1) + 2

-- A frame has the size that it declares.
abbrev pub IsFrame : List ℕ → Type 0
IsFrame f = (2 ≤ length f) × (length f ≡ declared_size f)

-- No whole frame stands at the front.
abbrev pub IsPartial : List ℕ → Type 0
IsPartial b = (length b < 2) ⊎ (length b < declared_size b)

ge_of_not_ltb : (a b : ℕ) → ltb a b ≡ false → b ≤ a
ge_of_not_ltb a b h = ground arith

split_loop_partial : (fuel : ℕ) (b : List ℕ) → IsPartial b → split_loop fuel b ≡ ([], b)
unfolding split_loop
split_loop_partial zero b h = refl
split_loop_partial (suc fuel) b (inl h) = rw (lt→ltb _ _ h)
split_loop_partial (suc fuel) b (inr h) = elim (Bool-cases (ltb (length b) 2)) [
  | inl e ↦ rw e
  | inr e ↦ rw e (rw (lt→ltb _ _ h))
]

-- A frame at the front is cut off.
split_loop_frame :
    (fuel : ℕ) (f b : List ℕ)
    → IsFrame f
    → split_loop (suc fuel) (f ++ b) ≡ (f ∷ (split_loop fuel b).0, (split_loop fuel b).1)
unfolding split_loop
split_loop_frame fuel [] b h = absurd (omega arith)
split_loop_frame fuel (x ∷ []) b h = absurd (omega arith)
split_loop_frame fuel (x ∷ y ∷ f) b h =
    rw (← h.1) (
      rw (take-append (x ∷ y ∷ f) b, drop-append (x ∷ y ∷ f) b) (ground (arith, length-append f b)))

-- The loop finds the frames of any decomposition into frames and a partial rest.
split_loop-concat :
    (fuel : ℕ) (fs : List (List ℕ)) (rest : List ℕ)
    → All IsFrame fs
    → IsPartial rest
    → length (concat fs ++ rest) < fuel
    → split_loop fuel (concat fs ++ rest) ≡ (fs, rest)
split_loop-concat fuel [] rest frames partial enough = split_loop_partial fuel rest partial
split_loop-concat zero (f ∷ fs) rest frames partial enough = absurd (omega arith)
split_loop-concat (suc fuel) (f ∷ fs) rest frames partial enough =
    rw (append_assoc f (concat fs) rest) (
      split_loop_frame fuel f (concat fs ++ rest) frames.0
      ∙ rw (
          split_loop-concat fuel fs rest frames.1 partial (
            omega (
              arith,
              ap length (append_assoc f (concat fs) rest),
              length-append f (concat fs ++ rest),
            ))))

-- Frames cut from the front of a stream, in order, reassemble to it, and no whole frame is left.
pub split_frames-concat :
    (fs : List (List ℕ)) (rest : List ℕ)
    → All IsFrame fs
    → IsPartial rest
    → split_frames (concat fs ++ rest) ≡ (fs, rest)
unfolding split_frames
split_frames-concat fs rest frames partial =
    split_loop-concat (suc (length (concat fs ++ rest))) fs rest frames partial (omega arith)

-- What a loop returns decomposes its buffer.
abbrev pub Decomposes : List ℕ → List (List ℕ) × List ℕ → Type 0
Decomposes b (fs, rest) = (concat fs ++ rest ≡ b) × All IsFrame fs × IsPartial rest

declared_size-take :
    (n : ℕ) (b : List ℕ) → 2 ≤ n → 2 ≤ length b → declared_size (take n b) ≡ declared_size b
declared_size-take n [] h k = absurd (omega arith)
declared_size-take n (x ∷ []) h k = absurd (omega arith)
declared_size-take zero (x ∷ y ∷ b) h k = absurd (omega arith)
declared_size-take (suc zero) (x ∷ y ∷ b) h k = absurd (omega arith)
declared_size-take (suc (suc n)) (x ∷ y ∷ b) h k = refl

take-IsFrame :
    (b : List ℕ) → 2 ≤ length b → declared_size b ≤ length b → IsFrame (take (declared_size b) b)
take-IsFrame b h k =
    let long = length-take_of_le (declared_size b) b k in
    let same = declared_size-take (declared_size b) b (omega arith) h in
    (omega (arith, long), long ∙ sym same)

split_loop-Decomposes : (fuel : ℕ) (b : List ℕ) → length b < fuel → Decomposes b (split_loop fuel b)
unfolding split_loop
split_loop-Decomposes zero b h = absurd (omega arith)
split_loop-Decomposes (suc fuel) b h = elim (Bool-cases (ltb (length b) 2)) [
  | inl e ↦ rw e (refl, tt, inl (ltb→lt _ _ e))
  | inr e ↦ elim (Bool-cases (ltb (length b) (declared_size b))) [
    | inl e' ↦ rw (e, e') (refl, tt, inr (ltb→lt _ _ e'))
    | inr e' ↦
        let rest = drop (declared_size b) b in
        let front = take (declared_size b) b in
        let ih =
          split_loop-Decomposes fuel rest
            (omega (arith, length-drop (declared_size b) b, ge_of_not_ltb _ _ e)) in
        rw (e, e')
          (
            append_assoc front (concat (split_loop fuel rest).0) (split_loop fuel rest).1
                ∙ ap (λ t. front ++ t) ih.0
                ∙ take-append-drop (declared_size b) b,
            (take-IsFrame b (ge_of_not_ltb _ _ e) (ge_of_not_ltb _ _ e'), ih.1),
            ih.2,
          )
  ]
]

-- Frames cut from the front of a stream, in order, with what stays in the buffer, are the stream;
-- each has the size that it declares; and what stays holds no whole frame.
pub split_frames-Decomposes : (b : List ℕ) → Decomposes b (split_frames b)
unfolding split_frames
split_frames-Decomposes b = split_loop-Decomposes (suc (length b)) b (omega arith)

concat-append : (fs gs : List (List ℕ)) → concat (fs ++ gs) ≡ concat fs ++ concat gs
concat-append [] gs = refl
concat-append (f ∷ fs) gs =
    ap (λ t. f ++ t) (concat-append fs gs) ∙ sym (append_assoc f (concat fs) (concat gs))

-- How the bytes arrive does not matter: reading `a`, then `b` behind what `a` left, gives the frames
-- of `a ++ b` read at once, and leaves the same buffer.
pub split_frames-append :
    (a b : List ℕ)
    → split_frames (a ++ b) ≡ (
      (split_frames a).0 ++ (split_frames ((split_frames a).1 ++ b)).0,
      (split_frames ((split_frames a).1 ++ b)).1,
    )
split_frames-append a b =
    let one = split_frames-Decomposes a in
    let two = split_frames-Decomposes ((split_frames a).1 ++ b) in
    let fs = (split_frames a).0 in
    let gs = (split_frames ((split_frames a).1 ++ b)).0 in
    let rest = (split_frames ((split_frames a).1 ++ b)).1 in
    let whole : a ++ b ≡ concat (fs ++ gs) ++ rest =
      ap (λ t. t ++ b) (sym one.0)
      ∙ append_assoc (concat fs) (split_frames a).1 b
      ∙ ap (λ t. concat fs ++ t) (sym two.0)
      ∙ sym (append_assoc (concat fs) (concat gs) rest)
      ∙ ap (λ t. t ++ rest) (sym (concat-append fs gs)) in
    ap split_frames whole
    ∙ split_frames-concat (fs ++ gs) rest (All-append IsFrame fs gs one.1 two.1) two.2

encode_frame-IsFrame :
    (opcode : ℕ) (payload : List ℕ)
    → 2 + length payload < 2 ^ 16
    → IsFrame (encode_frame opcode payload)
unfolding encode_frame
encode_frame-IsFrame opcode payload short = (omega arith, omega arith)

-- A packet that a peer sends: its opcode and its payload.
abbrev pub encode_all : List (ℕ × List ℕ) → List (List ℕ)
encode_all [] = []
encode_all ((opcode, payload) ∷ ps) = encode_frame opcode payload ∷ encode_all ps

abbrev pub IsShort : ℕ × List ℕ → Type 0
IsShort (opcode, payload) = 2 + length payload < 2 ^ 16

encode_all-IsFrame : (ps : List (ℕ × List ℕ)) → All IsShort ps → All IsFrame (encode_all ps)
encode_all-IsFrame [] h = tt
encode_all-IsFrame ((opcode, payload) ∷ ps) h =
    (encode_frame-IsFrame opcode payload h.0, encode_all-IsFrame ps h.1)

-- Packets whose lengths fit the length field, encoded and sent back to back with part of a further
-- one behind them, are split into their frames, and the part stays in the buffer.
pub split_frames-encode_all :
    (ps : List (ℕ × List ℕ)) (rest : List ℕ)
    → All IsShort ps
    → IsPartial rest
    → split_frames (concat (encode_all ps) ++ rest) ≡ (encode_all ps, rest)
split_frames-encode_all ps rest short partial =
    split_frames-concat (encode_all ps) rest (encode_all-IsFrame ps short) partial
