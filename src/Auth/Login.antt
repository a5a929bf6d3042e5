-- ===== src/Auth/Login.antt =====
-- crates/auth/src/lib.rs, apps/auth-service/src/main.rs: which logins are accepted.
use helbreath_backend.Prelude.{
  ℕ, ◌+◌, ◌≡◌, refl, sym, ap, ◌∙◌, Bool, true, false, Option, none, some, Result, ok, err,
  >>=-eq-ok, Bool-cases, inl, inr,
}
use helbreath_backend.Prelude.Text.{Text, codes, trim}
use helbreath_backend.Prelude.Assoc.{Assoc}
use helbreath_backend.Domain.{Uuid}
use helbreath_backend.Infrastructure.{AccountAuthRecord}
use helbreath_backend.Auth.{
  AccountRepository, Argon2, LoginOutcome, AuthService, password_ok, is_active, open_session,
  check_account, validate_credentials,
}
use helbreath_backend.Auth.RateWindow.{RateWindow, is_rate_limited}
use helbreath_backend.Auth.Handlers.{
  LoginRequest, LoginResponse, Timing, in_time, dropped_before, dropped_behind, AppState, or_else,
  answer_login, limit_login, login,
}

module _ {S : Type 0} where
  outcome_of : LoginOutcome → Result Text (LoginOutcome × S) → LoginOutcome
  outcome_of d (ok (o, s)) = o
  outcome_of d (err e) = d

  state_of : S → Result Text (LoginOutcome × S) → S
  state_of d (ok (o, s)) = s
  state_of d (err e) = d

  ok_pair :
      (r o : LoginOutcome) (s s' : S)
      → ◌≡◌ {A = Result Text (LoginOutcome × S)} (ok (r, s)) (ok (o, s'))
      → (r ≡ o) × (s ≡ s')
  unfolding outcome_of state_of
  ok_pair r o s s' e = (ap (outcome_of r) e, ap (state_of s) e)

module _ {S : Type 0} (repo : AccountRepository S) (argon2 : Argon2) (svc : AuthService) where
  -- What an accepted login shows: the account is found and active, the password is right, and the
  -- session is open for the account in the state behind it.
  pub record IsAccepted (session : Uuid) (username password : Text) (s s' : S) (o : LoginOutcome)
      : Type 0 where
    pub account : AccountAuthRecord
    pub found : repo.find_account_for_login username s ≡ ok (some account)
    pub enabled : is_active account.status ≡ true
    pub matches : password_ok argon2 account.password_hash password ≡ ok true
    pub opened : repo.get_session_account session s' ≡ ok (some account.id)
    pub answered : o.account_id ≡ some account.id

  -- An outcome: accepted with all that it shows, or refused with the repository as it was.
  IsOutcome : Uuid → Text → Text → S → S → LoginOutcome → Type 0
  IsOutcome session username password s s' o =
      (o.accepted ≡ true → IsAccepted session username password s s' o)
      × (o.accepted ≡ false → s' ≡ s)

  open_session-IsOutcome :
      (now : ℕ) (session : Uuid) (username password ip : Text) (account : AccountAuthRecord)
      (good : Bool) (s s' : S) (o : LoginOutcome)
      → repo.find_account_for_login username s ≡ ok (some account)
      → is_active account.status ≡ true
      → password_ok argon2 account.password_hash password ≡ ok good
      → open_session repo argon2 svc now session ip account good s ≡ ok (o, s')
      → IsOutcome session username password s s' o
  unfolding open_session IsOutcome
  open_session-IsOutcome now session username password ip account false s s' o f a m e =
      let p = ok_pair _ o s s' e in
      (
        λ t.
            let no : false ≡ true = ap (λ (x : LoginOutcome). x.accepted) p.0 ∙ t in absurd (cc no),
        λ t. sym p.1,
      )
  open_session-IsOutcome now session username password ip account true s s' o f a m e =
      let u =
        >>=-eq-ok
          (repo.upsert_session now session account.id svc.gateway_node ip
            (now + svc.session_ttl_seconds) s)
          (λ t. ok (record { accepted = true; account_id = some account.id; reason = none }, t))
          e in
      let p = ok_pair _ o u.0 s' u.2 in
      (
        λ t. record {
          account = account;
          found = f;
          enabled = a;
          matches = m;
          opened =
              ap (repo.get_session_account session) (sym p.1)
              ∙ repo.account_of_upserted now session account.id svc.gateway_node ip
                  (now + svc.session_ttl_seconds) s u.0 u.1;
          answered = ap (λ (x : LoginOutcome). x.account_id) (sym p.0);
        },
        λ t.
            let no : true ≡ false = ap (λ (x : LoginOutcome). x.accepted) p.0 ∙ t in absurd (cc no),
      )

  refused-IsOutcome :
      (session : Uuid) (username password : Text) (s s' : S) (r o : LoginOutcome)
      → r.accepted ≡ false
      → ◌≡◌ {A = Result Text (LoginOutcome × S)} (ok (r, s)) (ok (o, s'))
      → IsOutcome session username password s s' o
  unfolding IsOutcome
  refused-IsOutcome session username password s s' r o f e =
      let p = ok_pair r o s s' e in
      (
        λ t.
            let no : false ≡ true = sym f ∙ ap (λ (x : LoginOutcome). x.accepted) p.0 ∙ t in
            absurd (cc no),
        λ t. sym p.1,
      )

  check_account-IsOutcome :
      (now : ℕ) (session : Uuid) (username password ip : Text) (account : Option AccountAuthRecord)
      (s s' : S) (o : LoginOutcome)
      → repo.find_account_for_login username s ≡ ok account
      → check_account repo argon2 svc now session password ip account s ≡ ok (o, s')
      → IsOutcome session username password s s' o
  unfolding check_account
  check_account-IsOutcome now session username password ip none s s' o f e =
      refused-IsOutcome session username password s s' _ o refl e
  check_account-IsOutcome now session username password ip (some account) s s' o f e =
      elim (Bool-cases (is_active account.status)) [
        | inl t ↦
            let b =
              >>=-eq-ok (password_ok argon2 account.password_hash password)
                (λ good. open_session repo argon2 svc now session ip account good s) (rw t at e) in
            open_session-IsOutcome now session username password ip account b.0 s s' o f t b.1 b.2
        | inr t ↦ refused-IsOutcome session username password s s' _ o refl (rw t at e)
      ]

  validate_credentials-IsOutcome :
      (now : ℕ) (session : Uuid) (username password ip : Text) (s s' : S) (o : LoginOutcome)
      → validate_credentials repo argon2 svc now session username password ip s ≡ ok (o, s')
      → IsOutcome session username password s s' o
  unfolding validate_credentials
  validate_credentials-IsOutcome now session username password ip s s' o e =
      let b =
        >>=-eq-ok (repo.find_account_for_login username s)
          (λ account. check_account repo argon2 svc now session password ip account s) e in
      check_account-IsOutcome now session username password ip b.0 s s' o b.1 b.2

  -- What an answer shows, with the state behind it.
  pub IsAnswer : Timing → Uuid → Text → Text → S → LoginResponse → S → Type 0
  IsAnswer timing session username password s answer s' =
      (answer.accepted ≡ true
        → (o : LoginOutcome) × IsAccepted session username password s s' o
          × (o.account_id ≡ answer.account_id))
      × (timing ≡ in_time → answer.accepted ≡ false → s' ≡ s)

  answer_login-IsAnswer :
      (session : Uuid) (username password : Text) (timing : Timing) (s : S)
      (r : Result Text (LoginOutcome × S))
      → ((o : LoginOutcome) (s' : S) → r ≡ ok (o, s') → IsOutcome session username password s s' o)
      → IsAnswer timing session username password s
          (answer_login repo argon2 timing s r).0
          (answer_login repo argon2 timing s r).1
  unfolding answer_login IsOutcome IsAnswer
  answer_login-IsAnswer session username password in_time s (ok (o, s')) h =
      (λ t. (o, (h o s' refl).0 t, refl), λ i t. (h o s' refl).1 t)
  answer_login-IsAnswer session username password in_time s (err e) h =
      (λ t. absurd (cc t), λ i t. refl)
  answer_login-IsAnswer session username password dropped_before s r h =
      (λ t. absurd (cc t), λ i t. refl)
  answer_login-IsAnswer session username password dropped_behind s r h =
      (λ t. absurd (cc t), λ i t. absurd (cc i))

  limit_login-IsAnswer :
      (timing : Timing) (session : Uuid) (username password : Text)
      (l : Bool × Assoc Text RateWindow) (a : LoginResponse × S) (state : AppState S)
      → IsAnswer timing session username password state.repo a.0 a.1
      → IsAnswer timing session username password state.repo
          (limit_login repo argon2 l a state).0
          (limit_login repo argon2 l a state).1.repo
  unfolding limit_login IsAnswer
  limit_login-IsAnswer timing session username password (true, windows) a state h =
      (λ t. absurd (cc t), λ i t. refl)
  limit_login-IsAnswer timing session username password (false, windows) (a, s) state h = h

  -- An accepted login: the trimmed user name is that of an active account whose stored hash the
  -- password matches, the answer names the account, and the session is open for it. A refused
  -- login that ends in time leaves the repository as it was.
  pub login-IsAnswer :
      (timing : Timing) (now instant : ℕ) (fresh : Uuid) (req : LoginRequest) (state : AppState S)
      → IsAnswer timing
          (or_else req.session_id fresh)
          (trim req.username)
          req.password
          state.repo
          (login repo argon2 svc timing now instant fresh req state).0
          (login repo argon2 svc timing now instant fresh req state).1.repo
  unfolding login
  login-IsAnswer timing now instant fresh req state =
      let session = or_else req.session_id fresh in
      let ip = or_else req.remote_ip (codes "0.0.0.0") in
      limit_login-IsAnswer timing session (trim req.username) req.password
        (is_rate_limited instant ip state.rate_limiter) _ state
        (answer_login-IsAnswer session (trim req.username) req.password timing state.repo _
          (λ o s' e.
            validate_credentials-IsOutcome now session (trim req.username) req.password ip
              state.repo s' o e))
