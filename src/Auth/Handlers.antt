-- ===== src/Auth/Handlers.antt =====
-- apps/auth-service/src/main.rs: the handlers, over the state of the repository and the windows of
-- the rate limiter.
use helbreath_backend.Prelude.{
  ℕ, Bool, true, false, List, [], ◌∷◌, ◌++◌, map, Option, none, some, if◌then◌else◌, Result, ok,
  err,
}
use helbreath_backend.Prelude.Int.{ℤ, pos}
use helbreath_backend.Prelude.Text.{Text, codes, trim, to_ascii_lowercase}
use helbreath_backend.Prelude.Text.Equal.{eqb_text}
use helbreath_backend.Prelude.Assoc.{Assoc}
use helbreath_backend.Domain.{
  Uuid, CharacterClass, warrior, mage, archer, CharacterStats, Character,
}
use helbreath_backend.Infrastructure.{NewCharacterParams}
use helbreath_backend.Auth.{
  AccountRepository, Argon2, LoginOutcome, AuthService, validate_credentials,
}
use helbreath_backend.Auth.RateWindow.{RateWindow, is_rate_limited}

pub record LoginRequest : Type 0 where
  pub session_id : Option Uuid
  pub username : Text
  pub password : Text
  pub remote_ip : Option Text

pub record LoginResponse : Type 0 where
  pub accepted : Bool
  pub account_id : Option Uuid
  pub reason : Option Text

pub record CharacterCreateRequest : Type 0 where
  pub session_id : Uuid
  pub name : Text
  pub class : Text
  pub gender : Option ℤ
  pub skin_color : Option ℤ
  pub hair_style : Option ℤ
  pub hair_color : Option ℤ
  pub underwear_color : Option ℤ
  pub stats : Option CharacterStats

pub record CharacterSummary : Type 0 where
  pub character_id : Uuid
  pub name : Text
  pub class : Text
  pub map_id : ℤ
  pub x : ℤ
  pub y : ℤ
  pub level : ℤ

pub record CharacterListResponse : Type 0 where
  pub is_ok : Bool
  pub characters : List CharacterSummary

pub record CharacterCreateResponse : Type 0 where
  pub is_ok : Bool
  pub character : Option CharacterSummary
  pub reason : Option Text

pub record CharacterSelectResponse : Type 0 where
  pub is_ok : Bool
  pub character_id : Option Uuid
  pub map_id : Option ℤ
  pub x : Option ℤ
  pub y : Option ℤ
  pub reason : Option Text

-- The timeout of three seconds: the call ends in time, or is dropped before or behind its last
-- statement.
pub data Timing : Type 0 where
  in_time dropped_before dropped_behind : Timing

-- A repository, and the windows of the limiter.
pub record AppState (S : Type 0) : Type 0 where
  pub repo : S
  pub rate_limiter : Assoc Text RateWindow

abbrev pub or_else {ℓ} : {A : Type ℓ} → Option A → A → A
or_else none d = d
or_else (some a) d = a

unfoldable pub class_name : CharacterClass → Text
class_name warrior = codes "warrior"
class_name mage = codes "mage"
class_name archer = codes "archer"

unfoldable pub to_character_summary : Character → CharacterSummary
unfolding class_name
to_character_summary c = record {
  character_id = c.id;
  name = c.name;
  class = class_name c.class;
  map_id = c.map_id;
  x = c.x;
  y = c.y;
  level = c.level;
}

abbrev one_of : Text → List Text → Bool
one_of t [] = false
one_of t (u ∷ us) = if eqb_text t u then true else one_of t us

unfoldable pub parse_class : Text → Option CharacterClass
unfolding trim to_ascii_lowercase
parse_class raw =
    let t = to_ascii_lowercase (trim raw) in
    if one_of t (codes "warrior" ∷ codes "w" ∷ [])
    then some warrior
    else if one_of t (codes "mage" ∷ codes "magician" ∷ codes "m" ∷ [])
    then some mage
    else if one_of t (codes "archer" ∷ codes "a" ∷ [])
    then some archer
    else none

-- `req.stats.unwrap_or([10, 10, 10, 10, 10, 10])`
abbrev default_stats : CharacterStats
default_stats = record {
  strength = pos 10;
  vitality = pos 10;
  dexterity = pos 10;
  intelligence = pos 10;
  magic = pos 10;
  charisma = pos 10;
}

unfoldable pub params_of : CharacterCreateRequest → NewCharacterParams
unfolding trim parse_class
params_of req = record {
  name = trim req.name;
  class = or_else (parse_class req.class) warrior;
  gender = or_else req.gender (pos 0);
  skin_color = or_else req.skin_color (pos 0);
  hair_style = or_else req.hair_style (pos 0);
  hair_color = or_else req.hair_color (pos 0);
  underwear_color = or_else req.underwear_color (pos 0);
  stats = or_else req.stats default_stats;
}

abbrev pub refused_login : Text → LoginResponse
refused_login reason = record { accepted = false; account_id = none; reason = some reason }

abbrev pub no_characters : CharacterListResponse
no_characters = record { is_ok = false; characters = [] }

abbrev pub not_created : Text → CharacterCreateResponse
not_created reason = record { is_ok = false; character = none; reason = some reason }

abbrev pub not_selected : Text → CharacterSelectResponse
not_selected reason = record {
  is_ok = false;
  character_id = none;
  map_id = none;
  x = none;
  y = none;
  reason = some reason;
}

module _ {S : Type 0} (repo : AccountRepository S) (argon2 : Argon2) where
  abbrev state_behind : S → Result Text (LoginOutcome × S) → S
  state_behind s (ok (outcome, s')) = s'
  state_behind s (err e) = s

  -- The `match` on the outcome, with the state that the dropped call may have left.
  unfoldable pub answer_login : Timing → S → Result Text (LoginOutcome × S) → LoginResponse × S
  answer_login in_time s (ok (outcome, s')) = (
    record {
      accepted = outcome.accepted;
      account_id = outcome.account_id;
      reason = outcome.reason;
    },
    s',
  )
  answer_login in_time s (err e) = (refused_login (codes "internal_error:" ++ e), s)
  answer_login dropped_before s r = (refused_login (codes "timeout"), s)
  answer_login dropped_behind s r = (refused_login (codes "timeout"), state_behind s r)

  -- The attempt is refused at once, or answered.
  unfoldable pub limit_login :
      Bool × Assoc Text RateWindow → LoginResponse × S → AppState S → LoginResponse × AppState S
  limit_login (true, windows) answered state =
      (refused_login (codes "rate_limited"), record state { rate_limiter = windows })
  limit_login (false, windows) (answer, s) state =
      (answer, record { repo = s; rate_limiter = windows })

  -- `fresh` is the identifier that a request without one is given, and `instant` the clock of the
  -- limiter.
  unfoldable pub login :
      AuthService → Timing → ℕ → ℕ → Uuid → LoginRequest → AppState S → LoginResponse × AppState S
  unfolding trim is_rate_limited validate_credentials answer_login limit_login
  login svc timing now instant fresh req state =
      let remote_ip = or_else req.remote_ip (codes "0.0.0.0") in
      let result =
        validate_credentials repo argon2 svc now (or_else req.session_id fresh) (trim req.username)
          req.password remote_ip state.repo in
      limit_login (is_rate_limited instant remote_ip state.rate_limiter)
        (answer_login timing state.repo result) state

  unfoldable pub answer_logout : Timing → S → Result Text S → Bool × S
  answer_logout in_time s (ok s') = (true, s')
  answer_logout in_time s (err e) = (false, s)
  answer_logout dropped_before s r = (false, s)
  answer_logout dropped_behind s (ok s') = (false, s')
  answer_logout dropped_behind s (err e) = (false, s)

  unfoldable pub logout : Timing → ℕ → Uuid → S → Bool × S
  unfolding answer_logout
  logout timing now session s = answer_logout timing s (repo.close_session now session s)

  unfoldable pub answer_list : Result Text (List Character) → CharacterListResponse
  unfolding to_character_summary
  answer_list (ok characters) = record {
    is_ok = true;
    characters = map to_character_summary characters;
  }
  answer_list (err e) = no_characters

  -- Behind `get_session_account`, in each of the four handlers that follow.
  unfoldable pub list_for : Result Text (Option Uuid) → S → CharacterListResponse
  unfolding answer_list
  list_for (ok none) s = no_characters
  list_for (err e) s = no_characters
  list_for (ok (some account)) s = answer_list (repo.list_characters_for_account account s)

  unfoldable pub list_characters : Uuid → S → CharacterListResponse
  unfolding list_for
  list_characters session s = list_for (repo.get_session_account session s) s

  unfoldable pub answer_create : S → Result Text (Character × S) → CharacterCreateResponse × S
  unfolding to_character_summary
  answer_create s (ok (character, s')) = (
    record { is_ok = true; character = some (to_character_summary character); reason = none },
    s',
  )
  answer_create s (err e) = (not_created e, s)

  unfoldable pub create_for :
      Result Text (Option Uuid)
      → ℕ
      → Uuid
      → CharacterCreateRequest
      → S
      → CharacterCreateResponse × S
  unfolding params_of answer_create
  create_for (ok none) now fresh req s = (not_created (codes "invalid_session"), s)
  create_for (err e) now fresh req s = (not_created (codes "internal_error"), s)
  create_for (ok (some account)) now fresh req s =
      answer_create s (repo.create_character now fresh account (params_of req) s)

  unfoldable pub create_character :
      ℕ → Uuid → CharacterCreateRequest → S → CharacterCreateResponse × S
  unfolding create_for
  create_character now fresh req s =
      create_for (repo.get_session_account req.session_id s) now fresh req s

  unfoldable pub answer_delete : S → Result Text (Bool × S) → Bool × S
  answer_delete s (ok (done, s')) = (done, s')
  answer_delete s (err e) = (false, s)

  unfoldable pub delete_for : Result Text (Option Uuid) → ℕ → Uuid → S → Bool × S
  unfolding answer_delete
  delete_for (ok none) now character s = (false, s)
  delete_for (err e) now character s = (false, s)
  delete_for (ok (some account)) now character s =
      answer_delete s (repo.delete_character now account character s)

  unfoldable pub delete_character : ℕ → Uuid → Uuid → S → Bool × S
  unfolding delete_for
  delete_character now session character s =
      delete_for (repo.get_session_account session s) now character s

  unfoldable pub answer_select :
      S → Result Text (Option Character × S) → CharacterSelectResponse × S
  answer_select s (ok (some c, s')) = (
    record {
      is_ok = true;
      character_id = some c.id;
      map_id = some c.map_id;
      x = some c.x;
      y = some c.y;
      reason = none;
    },
    s',
  )
  answer_select s (ok (none, s')) =
      (not_selected (codes "character_not_found_or_session_closed"), s')
  answer_select s (err e) = (not_selected (codes "internal_error"), s)

  unfoldable pub select_for :
      Result Text (Option Uuid) → ℕ → Uuid → Uuid → S → CharacterSelectResponse × S
  unfolding answer_select
  select_for (ok none) now session character s = (not_selected (codes "invalid_session"), s)
  select_for (err e) now session character s = (not_selected (codes "internal_error"), s)
  select_for (ok (some account)) now session character s =
      answer_select s (repo.bind_session_character now session account character s)

  unfoldable pub select_character : ℕ → Uuid → Uuid → S → CharacterSelectResponse × S
  unfolding select_for
  select_character now session character s =
      select_for (repo.get_session_account session s) now session character s
