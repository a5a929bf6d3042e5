-- ===== src/Auth/Logout.antt =====
-- apps/auth-service/src/main.rs: what a session that is closed may still do.
use helbreath_backend.Prelude.{ℕ, ◌≡◌, refl, ap, true, false, none, Result, ok, err}
use helbreath_backend.Prelude.Text.{Text, codes}
use helbreath_backend.Domain.{Uuid}
use helbreath_backend.Auth.{AccountRepository, Argon2}
use helbreath_backend.Auth.Handlers.{
  CharacterCreateRequest, Timing, no_characters, not_created, not_selected, answer_logout, logout,
  list_for, list_characters, create_for, create_character, delete_for, delete_character, select_for,
  select_character, in_time, dropped_before, dropped_behind,
}

module _ {S : Type 0} (repo : AccountRepository S) (argon2 : Argon2) where
  -- No handler does anything for the session in this state: each refuses it and keeps the state.
  pub IsShut : Uuid → S → Type 0
  IsShut session s =
      (list_characters repo argon2 session s ≡ no_characters)
      × ((now : ℕ) (fresh : Uuid) (req : CharacterCreateRequest)
          → req.session_id ≡ session
          → create_character repo argon2 now fresh req s
            ≡ (not_created (codes "invalid_session"), s))
      × ((now : ℕ) (character : Uuid)
          → delete_character repo argon2 now session character s ≡ (false, s))
      × ((now : ℕ) (character : Uuid)
          → select_character repo argon2 now session character s
            ≡ (not_selected (codes "invalid_session"), s))

  closed-IsShut :
      (session : Uuid) (s : S) → repo.get_session_account session s ≡ ok none → IsShut session s
  unfolding IsShut list_characters list_for create_character create_for delete_character delete_for
      select_character select_for
  closed-IsShut session s e = (
    rw e refl,
    λ now fresh req same. rw (same, e) refl,
    λ now character. rw e refl,
    λ now character. rw e refl,
  )

  answered :
      (timing : Timing) (s s' : S) (r : Result Text S)
      → answer_logout repo argon2 timing s r ≡ (true, s')
      → r ≡ ok s'
  unfolding answer_logout
  answered in_time s s' (ok t) e = let same : t ≡ s' = ap (λ p. p.1) e in ap ok same
  answered in_time s s' (err t) e = let no : false ≡ true = ap (λ p. p.0) e in absurd (cc no)
  answered dropped_before s s' r e = let no : false ≡ true = ap (λ p. p.0) e in absurd (cc no)
  answered dropped_behind s s' (ok t) e = let no : false ≡ true = ap (λ p. p.0) e in absurd (cc no)
  answered dropped_behind s s' (err t) e = let no : false ≡ true = ap (λ p. p.0) e in absurd (cc no)

  -- Behind a logout that answers ok, the session lists, creates, deletes and selects no character:
  -- every handler refuses it and changes nothing.
  pub logout-IsShut :
      (timing : Timing) (now : ℕ) (session : Uuid) (s s' : S)
      → logout repo argon2 timing now session s ≡ (true, s')
      → IsShut session s'
  unfolding logout
  logout-IsShut timing now session s s' e = closed-IsShut session s' (
      repo.account_of_closed now session s s'
        (answered timing s s' (repo.close_session now session s) e))
