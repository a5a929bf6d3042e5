-- ===== src/AdminApi/Audit.antt =====
-- apps/admin-api/src/main.rs: the audit log of what the bootstrap administrator does.
use helbreath_backend.Prelude.{
  ◌≡◌, refl, Bool, false, ◌&&◌, ◌==◌, ℕ, Option, none, some, Result, ok, err, Bool-cases, inl, inr,
}
use helbreath_backend.Prelude.Int.{ℤ}
use helbreath_backend.Prelude.Text.{Text, codes, trim, is_empty, to_ascii_lowercase}
use helbreath_backend.Prelude.Text.Equal.{eqb_text}
use helbreath_backend.Prelude.Table.{exists_row}
use helbreath_backend.Domain.{Uuid}
use helbreath_backend.Infrastructure.{Database, RepoError}
use helbreath_backend.Infrastructure.Admin
use helbreath_backend.AdminPortal.{AdminPrincipal}
use helbreath_backend.AdminApi.{ApiError, AppState, Target, Settings, login_principal}
use helbreath_backend.AdminApi.Actions.{
  Moment, MapAction, activate, deactivate, invoke_world_map_control, audit_action, is_known,
  committed, register, unregister, restart, ModerationActionRequest, sanctioned, moderation_action,
  send_broadcast, AdminRequest, block_account, unblock_account, reset_account_password,
  move_character, disconnect_character, activate_map, deactivate_map, restart_map_instance,
  broadcast, toggle_event, moderation_request, set_status, act,
}

-- The audit log and the administrators stay.
record Same (s t : AppState) : Type 0 where
  audits : t.audits ≡ s.audits
  users : t.admin_users ≡ s.admin_users

control-Same :
    (at : Moment) (map_id : ℤ) (action : MapAction) (s t : AppState)
    → Same s t
    → Same s (invoke_world_map_control at map_id action t).1
unfolding invoke_world_map_control
control-Same at map_id action s t v = elim (Bool-cases at.is_reachable) [
  | inl b ↦ rw b (record { audits = v.audits; users = v.users })
  | inr b ↦ rw b v
]

module _ (p : AdminPrincipal) (s : AppState) (unknown : is_known p s ≡ false) where
  audit-Same :
      (action : Text) (target : Target) (t : AppState)
      → Same s t
      → Same s (audit_action p action target t)
  unfolding audit_action
  audit-Same action target t v = record { audits = rw (v.users, unknown) v.audits; users = v.users }

  committed-Same :
      (r : Result RepoError Database) (action : Text) (target : Target)
      → Same s (committed r action target p s).1
  unfolding committed
  committed-Same (ok db) action target =
      audit-Same action target (record s { repo = db }) (record { audits = refl; users = refl })
  committed-Same (err e) action target = record { audits = refl; users = refl }

  register-Same :
      (at : Moment) (map_id : ℤ) (action : Text) (r : Result ApiError Bool × AppState)
      → Same s r.1
      → Same s (register at map_id action r p).1
  unfolding register
  register-Same at map_id action (err e, t) v = v
  register-Same at map_id action (ok changed, t) v =
      let stored = Admin.activate_map at.now map_id t.repo in
      let v' : Same s (record t { repo = stored.1 }) = record {
        audits = v.audits;
        users = v.users;
      } in
      elim (Bool-cases stored.0) [
        | inl b ↦ rw b (audit-Same action _ _ v')
        | inr b ↦ rw b (control-Same at map_id deactivate s _ v')
      ]

  unregister-Same :
      (at : Moment) (map_id : ℤ) (r : Result ApiError Bool × AppState)
      → Same s r.1
      → Same s (unregister at map_id r p).1
  unfolding unregister
  unregister-Same at map_id (err e, t) v = v
  unregister-Same at map_id (ok changed, t) v =
      let stored = Admin.deactivate_map at.now map_id t.repo in
      let v' : Same s (record t { repo = stored.1 }) = record {
        audits = v.audits;
        users = v.users;
      } in
      elim (Bool-cases stored.0) [
        | inl b ↦ rw b (audit-Same _ _ _ v')
        | inr b ↦ rw b (control-Same at map_id activate s _ v')
      ]

  restart-Same :
      (at : Moment) (map_id : ℤ) (r : Result ApiError Bool × AppState)
      → Same s r.1
      → Same s (restart at map_id r p).1
  unfolding restart
  restart-Same at map_id (err e, t) v = v
  restart-Same at map_id (ok changed, t) v =
      register-Same at map_id (codes "world.map.restart")
        (invoke_world_map_control at map_id activate t) (control-Same at map_id activate s t v)

  same : Same s s
  same = record { audits = refl; users = refl }

  broadcast-Same : (at : Moment) (message : Text) → Same s (send_broadcast at message p s).1
  unfolding send_broadcast
  broadcast-Same at message = elim (Bool-cases at.is_reachable) [
    | inl b ↦ rw b (audit-Same _ _ _ (record { audits = refl; users = refl }))
    | inr b ↦ rw b same
  ]

  sanctioned-Same :
      (at : Moment) (action : Text) (req : ModerationActionRequest) (ends : Option (Option ℕ))
      → Same s (sanctioned at action req ends p s).1
  unfolding sanctioned
  sanctioned-Same at action req none = same
  sanctioned-Same at action req (some ends_at) = committed-Same _ _ _

  act-Same : (at : Moment) (req : AdminRequest) → Same s (act at req p s).1
  unfolding act set_status moderation_action
  act-Same at (block_account id) = audit-Same _ _ _ (record { audits = refl; users = refl })
  act-Same at (unblock_account id) = audit-Same _ _ _ (record { audits = refl; users = refl })
  act-Same at (reset_account_password id) = audit-Same _ _ _ same
  act-Same at (move_character id map_id x y) = committed-Same _ _ _
  act-Same at (disconnect_character id) = audit-Same _ _ _ same
  act-Same at (activate_map map_id) =
      register-Same at map_id _ _ (control-Same at map_id activate s s same)
  act-Same at (deactivate_map map_id) =
      unregister-Same at map_id _ (control-Same at map_id deactivate s s same)
  act-Same at (restart_map_instance map_id) =
      restart-Same at map_id _ (control-Same at map_id deactivate s s same)
  act-Same at (broadcast message) = broadcast-Same at message
  act-Same at (toggle_event code enabled) = audit-Same _ _ _ same
  act-Same at (moderation_request action req) = elim (Bool-cases (is_empty (trim req.reason))) [
    | inl b ↦ rw b same
    | inr b ↦ rw b (sanctioned-Same at action req _)
  ]

-- The bootstrap administrator has the identifier that is drawn for it.
login_principal-fresh :
    (settings : Settings) (fresh : Uuid) (email password : Text) (p : AdminPrincipal)
    → login_principal settings none fresh email password ≡ ok p
    → p.admin_user_id ≡ fresh
unfolding login_principal
login_principal-fresh settings fresh email password p e =
    let matches =
      eqb_text (to_ascii_lowercase (trim email)) (to_ascii_lowercase settings.bootstrap_admin_email)
      && eqb_text password settings.bootstrap_admin_password in
    elim (Bool-cases matches) [
      | inl t ↦ let same = ok_principal _ p (rw t at e) in rw (← same) refl
      | inr t ↦ absurd (cc (rw t at e))
    ]
  where
    ok_principal :
        (a b : AdminPrincipal) → ◌≡◌ {A = Result ApiError AdminPrincipal} (ok a) (ok b) → a ≡ b
    ok_principal a b h = cc h

-- No request among those of `AdminRequest` that the bootstrap administrator makes leaves a trace in the
-- audit log, if the identifier drawn at its login is no row of the administrators.
pub act_unaudited :
    (settings : Settings) (fresh : Uuid) (email password : Text) (p : AdminPrincipal) (at : Moment)
    (req : AdminRequest) (s : AppState)
    → login_principal settings none fresh email password ≡ ok p
    → exists_row (λ (id : Uuid). id == fresh) s.admin_users ≡ false
    → (act at req p s).1.audits ≡ s.audits
act_unaudited settings fresh email password p at req s e new =
    (act-Same p s (rw (login_principal-fresh settings fresh email password p e) new) at req).audits
