-- ===== src/AdminApi/Guard.antt =====
-- apps/admin-api/src/main.rs: who may act.
use helbreath_backend.Prelude.{
  ℕ, ◌<◌, ◌≡◌, refl, ◌⊎◌, inl, inr, true, [], ◌∷◌, none, some, arith, ltb, ltb→lt, Result, ok, err,
  ◌++◌, ok_or, map_err, >>=-eq-ok, ok_or-eq, map_err-ok, Result-cases, Bool-cases,
}
use helbreath_backend.Prelude.Text.{Text, codes}
use helbreath_backend.Prelude.Text.Equal.{eqb_text, eqb_text_iff, text_eq}
use helbreath_backend.Prelude.Assoc.{Assoc, lookup, Distinct}
use helbreath_backend.AdminPortal.{Permission, AdminPrincipal, has_permission, require_permission}
use helbreath_backend.AdminApi.{
  ApiError, unauthorized, forbidden, bad_request, AdminSession, Headers, AppState,
  extract_bearer_token, retain_live, prune_expired_sessions, check_token, authenticate,
}
use helbreath_backend.AdminApi.Actions.{Moment, AdminRequest, needed, is_blank, behind, handle}

lookup-absent :
    (now : ℕ) (token : Text) (m : Assoc Text AdminSession)
    → lookup token m ≡ none
    → lookup token (retain_live now m) ≡ none
unfolding lookup retain_live
lookup-absent now token [] e = refl
lookup-absent now token ((t, x) ∷ m) e = ground (arith, e, lookup-absent now token m)

-- A session behind the pruning was there before, and is live.
lookup-retain_live :
    (now : ℕ) (token : Text) (m : Assoc Text AdminSession) (x : AdminSession)
    → Distinct m
    → lookup token (retain_live now m) ≡ some x
    → (lookup token m ≡ some x) × (now < x.expires_at)
unfolding lookup retain_live
lookup-retain_live now token [] x d e = absurd (cc e)
lookup-retain_live now token ((t, y) ∷ m) x d e = elim (Bool-cases (eqb_text t token)) [
  | inl b ↦ elim (Bool-cases (ltb now y.expires_at)) [
    | inl l ↦
        let same : y ≡ x = cc (rw (l, b) at e) in rw (b, ← same) (refl, ltb→lt now y.expires_at l)
    | inr l ↦
        let name = (eqb_text_iff t token).0 b in
        let gone : lookup token (retain_live now m) ≡ none =
          lookup-absent now token m (rw (← name) d.0) in
        absurd (cc (gone, rw l at e))
  ]
  | inr b ↦ elim (Bool-cases (ltb now y.expires_at)) [
    | inl l ↦ rw b (lookup-retain_live now token m x d.1 (rw (l, b) at e))
    | inr l ↦ rw b (lookup-retain_live now token m x d.1 (rw l at e))
  ]
]

-- A token of the headers is that of a live session whose administrator has the permission.
pub record IsGranted (now : ℕ) (headers : Headers) (permission : Permission) (s : AppState)
    : Type 0 where
  pub token : Text
  pub session : AdminSession
  pub sent : extract_bearer_token headers ≡ ok token
  pub known : lookup token s.sessions ≡ some session
  pub live : now < session.expires_at
  pub permitted : has_permission session.principal permission ≡ true

-- An error, with the database, the world service and the audit log as they were.
pub record IsRefused (s : AppState) (r : Result ApiError (Unit {0}) × AppState) : Type 0 where
  pub reason : ApiError
  pub answered : r.0 ≡ err reason
  pub same_repo : r.1.repo ≡ s.repo
  pub same_world : r.1.world ≡ s.world
  pub same_audits : r.1.audits ≡ s.audits

require_permission-ok :
    (p : AdminPrincipal) (permission : Permission)
    → require_permission p permission ≡ ok tt
    → has_permission p permission ≡ true
unfolding require_permission
require_permission-ok p permission e = elim (Bool-cases (has_permission p permission)) [
  | inl t ↦ t
  | inr t ↦ absurd (cc (rw t at e))
]

check_token-IsGranted :
    (now : ℕ) (headers : Headers) (permission : Permission) (s : AppState) (p : AdminPrincipal)
    → Distinct s.sessions
    → check_token headers permission (retain_live now s.sessions) ≡ ok p
    → IsGranted now headers permission s
unfolding check_token
check_token-IsGranted now headers permission s p d e =
    let rows = retain_live now s.sessions in
    let a = >>=-eq-ok (extract_bearer_token headers) _ e in
    let b =
      >>=-eq-ok (ok_or (lookup a.0 rows) (unauthorized (codes "invalid admin token"))) _ a.2 in
    let c =
      >>=-eq-ok
        (map_err (λ e. forbidden (codes "forbidden: " ++ e))
          (require_permission b.0.principal permission))
        _ b.2 in
    let there =
      lookup-retain_live now a.0 s.sessions b.0 d
        (ok_or-eq (lookup a.0 rows) (unauthorized (codes "invalid admin token")) b.0 b.1) in
    record {
      token = a.0;
      session = b.0;
      sent = a.1;
      known = there.0;
      live = there.1;
      permitted =
          require_permission-ok b.0.principal permission
            (map_err-ok _ (require_permission b.0.principal permission) tt c.1);
    }

-- Every request that acts is either one with the token of a live session whose administrator has the
-- permission that its handler asks for, or answered with an error that changes neither the
-- database nor the world service nor the audit log.
pub handle-IsGranted :
    (at : Moment) (headers : Headers) (req : AdminRequest) (s : AppState)
    → Distinct s.sessions
    → IsGranted at.now headers (needed req) s ⊎ IsRefused s (handle at headers req s)
unfolding handle authenticate prune_expired_sessions behind
handle-IsGranted at headers req s d =
    elim (Result-cases (check_token headers (needed req) (retain_live at.now s.sessions))) [
      | inl (p, e) ↦ inl (check_token-IsGranted at.now headers (needed req) s p d e)
      | inr (x, e) ↦ inr (refused x e)
    ]
  where
    pruned : AppState
    pruned = record s { sessions = retain_live at.now s.sessions }

    refused :
        (x : ApiError)
        → check_token headers (needed req) (retain_live at.now s.sessions) ≡ err x
        → IsRefused s (handle at headers req s)
    refused x e = elim (Bool-cases (is_blank req)) [
      | inl t ↦ rw t (record {
        reason = bad_request (codes "message cannot be empty");
        answered = refl;
        same_repo = refl;
        same_world = refl;
        same_audits = refl;
      })
      | inr t ↦
          rw (t, e)
            (record {
              reason = x;
              answered = refl;
              same_repo = refl;
              same_world = refl;
              same_audits = refl;
            })
    ]
