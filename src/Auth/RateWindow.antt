-- ===== src/Auth/RateWindow.antt =====
-- apps/auth-service/src/main.rs: `is_rate_limited`. An instant is a number of nanoseconds.
use helbreath_backend.Prelude.{
  ℕ, ◌+◌, ◌-◌, ◌*◌, ◌/◌, ◌^◌, ◌≤◌, ◌≡◌, refl, sym, subst, Bool, true, false, List, [], ◌∷◌, Option,
  none, some, arith, ltb, if◌then◌else◌, Bool-cases, inl, inr,
}
use helbreath_backend.Prelude.Text.{Text}
use helbreath_backend.Prelude.Text.Equal.{eqb_text, eqb_text_iff, text_eq}
use helbreath_backend.Prelude.Assoc.{Assoc, lookup, insert}
use helbreath_backend.Prelude.Assoc.Laws.{lookup-insert}

pub record RateWindow : Type 0 where
  pub started_at : ℕ
  pub attempts : ℕ

-- 60 seconds.
abbrev pub window : ℕ
window = 60 * 10 ^ 9

abbrev pub max_attempts : ℕ
max_attempts = 30

-- `entry(key).or_insert(..)`
abbrev or_new : ℕ → Option RateWindow → RateWindow
or_new now none = record { started_at = now; attempts = 0 }
or_new now (some w) = w

-- A window that is over starts again.
abbrev rolled : ℕ → RateWindow → RateWindow
rolled now w =
    if ltb window (now - w.started_at) then record { started_at = now; attempts = 0 } else w

-- `saturating_add(1)` on a u32.
unfoldable pub counted : RateWindow → RateWindow
counted w = record w {
  attempts = if ltb w.attempts (2 ^ 32 - 1) then w.attempts + 1 else w.attempts;
}

unfoldable pub is_rate_limited : ℕ → Text → Assoc Text RateWindow → Bool × Assoc Text RateWindow
unfolding counted lookup insert
is_rate_limited now key windows =
    let entry = counted (rolled now (or_new now (lookup key windows))) in
    (ltb max_attempts entry.attempts, insert key entry windows)

-- The attempts of all keys, each with its instant: how many of key `k` pass.
unfoldable pub passed : Text → List (Text × ℕ) → Assoc Text RateWindow → ℕ
unfolding is_rate_limited
passed k [] windows = 0
passed k ((key, now) ∷ rest) windows =
    let (limited, windows') = is_rate_limited now key windows in
    let later = passed k rest windows' in
    if eqb_text key k then (if limited then later else 1 + later) else later

-- The instants do not run backwards, from `first` on, and end by `last`.
abbrev pub IsOrdered : ℕ → ℕ → List (Text × ℕ) → Type 0
IsOrdered first last [] = first ≤ last
IsOrdered first last ((key, now) ∷ rest) = (first ≤ now) × IsOrdered now last rest

-- What a key may still pass from `first` to `last`.
budget : ℕ → ℕ → Option RateWindow → ℕ
budget first last none = max_attempts + max_attempts * ((last - first) / window)
budget first last (some w) =
    (max_attempts - w.attempts) + max_attempts * ((last - w.started_at) / window)

StartsBy : ℕ → Option RateWindow → Type 0
StartsBy first none = Unit
StartsBy first (some w) = w.started_at ≤ first

IsOrdered-le :
    (first last : ℕ) (attempts : List (Text × ℕ)) → IsOrdered first last attempts → first ≤ last
IsOrdered-le first last [] h = h
IsOrdered-le first last ((key, now) ∷ rest) h = omega (arith, h.0, IsOrdered-le now last rest h.1)

-- One attempt takes what it passes off the budget.
step_budget :
    (first now last : ℕ) (o : Option RateWindow)
    → first ≤ now
    → now ≤ last
    → StartsBy first o
    → StartsBy now (some (counted (rolled now (or_new now o))))
      × ((if ltb max_attempts (counted (rolled now (or_new now o))).attempts then 0 else 1)
            + budget now last (some (counted (rolled now (or_new now o))))
          ≤ budget first last o)
unfolding StartsBy budget counted
step_budget first now last none l l' h = (ground arith, ground arith)
step_budget first now last (some w) l l' h = elim (Bool-cases (ltb window (now - w.started_at))) [
  | inl t ↦ rw t (ground arith, ground arith)
  | inr t ↦ rw t (ground arith, ground arith)
]

taken :
    (limited : Bool) (later rest all : ℕ)
    → (if limited then 0 else 1) + rest ≤ all
    → later ≤ rest
    → (if limited then later else 1 + later) ≤ all
taken true later rest all h l = omega (arith, h, l)
taken false later rest all h l = omega (arith, h, l)

-- Time that passes without an attempt of the key adds nothing.
idle_budget :
    (first now last : ℕ) (o : Option RateWindow)
    → first ≤ now
    → now ≤ last
    → StartsBy first o
    → StartsBy now o × (budget now last o ≤ budget first last o)
unfolding StartsBy budget
idle_budget first now last none l l' h = (tt, ground arith)
idle_budget first now last (some w) l l' h = (omega (arith, h, l), ground arith)

passed_bound :
    (k : Text) (attempts : List (Text × ℕ)) (first last : ℕ) (windows : Assoc Text RateWindow)
    → IsOrdered first last attempts
    → StartsBy first (lookup k windows)
    → passed k attempts windows ≤ budget first last (lookup k windows)
unfolding passed is_rate_limited
passed_bound k [] first last windows h b = omega arith
passed_bound k ((key, now) ∷ rest) first last windows h b =
    let entry = counted (rolled now (or_new now (lookup key windows))) in
    let ahead = IsOrdered-le now last rest h.1 in
    elim (Bool-cases (eqb_text key k)) [
      | inl t ↦
          let same = (eqb_text_iff key k).0 t in
          let stored : lookup k (insert key entry windows) ≡ some entry =
            rw (lookup-insert key k entry windows, t) refl in
          let step =
            step_budget first now last (lookup key windows) h.0 ahead
              (subst (λ j. StartsBy first (lookup j windows)) (sym same) b) in
          let ih : passed k rest (insert key entry windows) ≤ budget now last (some entry) =
            subst (λ o. passed k rest (insert key entry windows) ≤ budget now last o) stored
              (passed_bound k rest now last (insert key entry windows) h.1
                (subst (StartsBy now) (sym stored) step.0)) in
          rw t (
            subst
              (λ j.
                (if ltb max_attempts entry.attempts
                  then passed k rest (insert key entry windows)
                  else 1 + passed k rest (insert key entry windows))
                ≤ budget first last (lookup j windows))
              same (taken (ltb max_attempts entry.attempts) _ _ _ step.1 ih))
      | inr t ↦
          let stored : lookup k (insert key entry windows) ≡ lookup k windows =
            rw (lookup-insert key k entry windows, t) refl in
          let idle = idle_budget first now last (lookup k windows) h.0 ahead b in
          let ih : passed k rest (insert key entry windows)
              ≤ budget now last (lookup k (insert key entry windows)) =
            passed_bound k rest now last (insert key entry windows) h.1
              (subst (StartsBy now) (sym stored) idle.0) in
          let ih' =
            subst (λ o. passed k rest (insert key entry windows) ≤ budget now last o) stored ih in
          rw t (omega (arith, ih', idle.1))
    ]

-- Of any attempts from any addresses, in the order of their instants, at most 30 of one address
-- pass at once, and 30 more for each full minute from the first instant to the last.
pub passed-le :
    (k : Text) (attempts : List (Text × ℕ)) (first last : ℕ)
    → IsOrdered first last attempts
    → passed k attempts [] ≤ max_attempts + max_attempts * ((last - first) / window)
unfolding lookup StartsBy budget
passed-le k attempts first last h = passed_bound k attempts first last [] h tt
