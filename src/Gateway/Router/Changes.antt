-- ===== src/Gateway/Router/Changes.antt =====
-- apps/gateway/src/main.rs: a session behind what the connections did to the table.
use helbreath_backend.Prelude.{
  ◌≡◌, refl, ◌∙◌, Bool, true, false, ◌||◌, List, [], ◌∷◌, none, Bool-cases, inl, inr, nat_eq, ◌==◌,
}
use helbreath_backend.Prelude.Assoc.{Assoc, lookup, insert, remove, Distinct}
use helbreath_backend.Prelude.Assoc.Laws.{
  lookup-insert, lookup-remove, Distinct-insert, Distinct-remove,
}
use helbreath_backend.Domain.{Uuid}
use helbreath_backend.Gateway.{SessionRuntime, new_session, Change, opened, closed}
use helbreath_backend.Gateway.Router.{changed}

-- A change opens, or closes, a connection with this session.
abbrev pub opens : Uuid → List Change → Bool
opens session [] = false
opens session (opened u ip ∷ cs) = (u == session) || opens session cs
opens session (closed u ∷ cs) = opens session cs

abbrev pub closes : Uuid → List Change → Bool
closes session [] = false
closes session (opened u ip ∷ cs) = closes session cs
closes session (closed u ∷ cs) = (u == session) || closes session cs

-- The session is closed and gone, or it is as it was.
pub data Left (session : Uuid) (cs : List Change) (m : Assoc Uuid SessionRuntime) : Type 0 where
  gone : closes session cs ≡ true → lookup session (changed cs m) ≡ none → Left session cs m
  kept : lookup session (changed cs m) ≡ lookup session m → Left session cs m

pub Distinct-changed :
    (cs : List Change) (m : Assoc Uuid SessionRuntime) → Distinct m → Distinct (changed cs m)
unfolding changed
Distinct-changed [] m d = d
Distinct-changed (opened u ip ∷ cs) m d =
    Distinct-changed cs (insert u (new_session ip) m) (Distinct-insert u (new_session ip) m d)
Distinct-changed (closed u ∷ cs) m d = Distinct-changed cs (remove u m) (Distinct-remove u m d)

pub or_left : (a b : Bool) → a ≡ true → (a || b) ≡ true
or_left a b e = rw e refl

pub or_right : (a b : Bool) → b ≡ true → (a || b) ≡ true
or_right true b e = refl
or_right false b e = e

or_false : (a b : Bool) → (a || b) ≡ false → (a ≡ false) × (b ≡ false)
or_false true b e = absurd (cc e)
or_false false b e = (refl, e)

pub changed-Left :
    (session : Uuid) (cs : List Change) (m : Assoc Uuid SessionRuntime)
    → Distinct m
    → opens session cs ≡ false
    → Left session cs m
unfolding changed
changed-Left session [] m d e = kept refl
changed-Left session (opened u ip ∷ cs) m d e =
    let (other, later) = or_false (u == session) (opens session cs) e in
    let same : lookup session (insert u (new_session ip) m) ≡ lookup session m =
      rw (lookup-insert u session (new_session ip) m, other) refl in
    elim (changed-Left session cs (insert u (new_session ip) m) (Distinct-insert u _ m d) later) [
      | gone c n ↦ gone c n
      | kept k ↦ kept (k ∙ same)
    ]
changed-Left session (closed u ∷ cs) m d e =
    elim (changed-Left session cs (remove u m) (Distinct-remove u m d) e) [
      | gone c n ↦ gone (or_right (u == session) (closes session cs) c) n
      | kept k ↦ elim (Bool-cases (u == session)) [
        | inl t ↦
            gone (or_left (u == session) (closes session cs) t)
              (k ∙ rw (lookup-remove u session m d, t) refl)
        | inr t ↦ kept (k ∙ rw (lookup-remove u session m d, t) refl)
      ]
    ]

remove_other :
    (u j : Uuid) (m : Assoc Uuid SessionRuntime)
    → (u == j) ≡ false
    → lookup j (remove u m) ≡ lookup j m
unfolding lookup remove
remove_other u j [] e = refl
remove_other u j ((i, w) ∷ m) e = elim (Bool-cases (i == u)) [
  | inl t ↦ let same = (nat_eq.beq_iff i u).0 t in rw (t, same, e) refl
  | inr t ↦ elim (Bool-cases (i == j)) [
    | inl k ↦ rw (t, k) refl
    | inr k ↦ rw (t, k) (remove_other u j m e)
  ]
]

-- Where no change touches the session, it stays.
pub changed_stays :
    (session : Uuid) (cs : List Change) (m : Assoc Uuid SessionRuntime)
    → opens session cs ≡ false
    → closes session cs ≡ false
    → lookup session (changed cs m) ≡ lookup session m
unfolding changed
changed_stays session [] m e f = refl
changed_stays session (opened u ip ∷ cs) m e f =
    let (other, later) = or_false (u == session) (opens session cs) e in
    changed_stays session cs (insert u (new_session ip) m) later f
    ∙ rw (lookup-insert u session (new_session ip) m, other) refl
changed_stays session (closed u ∷ cs) m e f =
    let (other, later) = or_false (u == session) (closes session cs) f in
    changed_stays session cs (remove u m) e later ∙ remove_other u session m other
