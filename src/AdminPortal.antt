-- ===== src/AdminPortal.antt =====
-- crates/admin_portal/src/lib.rs: the roles of the administrators and what each permits.
use helbreath_backend.Prelude.{
  ◌≡◌, refl, Bool, true, false, ◌||◌, List, [], ◌∷◌, ◌++◌, if◌then◌else◌, Result, ok, err, All,
  Bool-cases, inl, inr,
}
use helbreath_backend.Prelude.Text.{Text, codes}
use helbreath_backend.Domain.{Uuid}
use Prim.Native.String.{String}

pub data Role : Type 0 where
  super_admin admin gm support read_only : Role

pub data Permission : Type 0 where
  accounts_read accounts_write accounts_ban : Permission
  characters_read characters_write characters_disconnect : Permission
  world_read world_write moderation_write broadcast_send audit_read metrics_read : Permission

-- `Permission::code`
abbrev pub code : Permission → String
code accounts_read = "accounts.read"
code accounts_write = "accounts.write"
code accounts_ban = "accounts.ban"
code characters_read = "characters.read"
code characters_write = "characters.write"
code characters_disconnect = "characters.disconnect"
code world_read = "world.read"
code world_write = "world.write"
code moderation_write = "moderation.write"
code broadcast_send = "broadcast.send"
code audit_read = "audit.read"
code metrics_read = "metrics.read"

unfoldable pub permissions_for_role : Role → List Permission
permissions_for_role super_admin =
    accounts_read ∷ accounts_write ∷ accounts_ban ∷ characters_read ∷ characters_write
    ∷ characters_disconnect ∷ world_read ∷ world_write ∷ moderation_write ∷ broadcast_send
    ∷ audit_read ∷ metrics_read ∷ []
permissions_for_role admin =
    accounts_read ∷ accounts_write ∷ accounts_ban ∷ characters_read ∷ characters_write ∷ world_read
    ∷ world_write ∷ broadcast_send ∷ audit_read ∷ metrics_read ∷ []
permissions_for_role gm =
    characters_read ∷ characters_write ∷ characters_disconnect ∷ world_read ∷ world_write
    ∷ moderation_write ∷ broadcast_send ∷ metrics_read ∷ []
permissions_for_role support = accounts_read ∷ characters_read ∷ moderation_write ∷ []
permissions_for_role read_only =
    accounts_read ∷ characters_read ∷ world_read ∷ audit_read ∷ metrics_read ∷ []

-- The derived equality, on the codes, which are all different.
abbrev same : Permission → Permission → Bool
same accounts_read accounts_read = true
same accounts_write accounts_write = true
same accounts_ban accounts_ban = true
same characters_read characters_read = true
same characters_write characters_write = true
same characters_disconnect characters_disconnect = true
same world_read world_read = true
same world_write world_write = true
same moderation_write moderation_write = true
same broadcast_send broadcast_send = true
same audit_read audit_read = true
same metrics_read metrics_read = true
same _ _ = false

-- The set of roles is a list, in which the order and repetitions do not matter here.
pub record AdminPrincipal : Type 0 where
  pub admin_user_id : Uuid
  pub email : Text
  pub roles : List Role

unfoldable pub effective_permissions : List Role → List Permission
unfolding permissions_for_role
effective_permissions [] = []
effective_permissions (role ∷ roles) = permissions_for_role role ++ effective_permissions roles

pub holds : Permission → List Permission → Bool
holds needed [] = false
holds needed (p ∷ ps) = if same p needed then true else holds needed ps

unfoldable pub has_permission : AdminPrincipal → Permission → Bool
unfolding effective_permissions holds
has_permission principal needed = holds needed (effective_permissions principal.roles)

unfoldable pub require_permission : AdminPrincipal → Permission → Result Text (Unit {0})
unfolding has_permission
require_permission principal permission =
    if has_permission principal permission
    then ok tt
    else err (
        codes "missing permission "
        ++ codes (code permission)
        ++ codes " for user "
        ++ principal.email)

-- What only reads.
abbrev only_reads : Permission → Bool
only_reads accounts_read = true
only_reads characters_read = true
only_reads world_read = true
only_reads audit_read = true
only_reads metrics_read = true
only_reads _ = false

abbrev IsReadOnly : Role → Type 0
IsReadOnly role = role ≡ read_only

holds-append :
    (needed : Permission) (ps qs : List Permission)
    → holds needed (ps ++ qs) ≡ (holds needed ps || holds needed qs)
unfolding holds
holds-append needed [] qs = refl
holds-append needed (p ∷ ps) qs = elim (Bool-cases (same p needed)) [
  | inl t ↦ rw t refl
  | inr t ↦ rw t (holds-append needed ps qs)
]

roles_read :
    (roles : List Role) (needed : Permission)
    → All IsReadOnly roles
    → only_reads needed ≡ false
    → holds needed (effective_permissions roles) ≡ false
unfolding effective_permissions holds
roles_read [] needed h e = refl
roles_read (role ∷ roles) needed h e =
    rw
      (
        holds-append needed (permissions_for_role role) (effective_permissions roles),
        h.0,
        roles_read roles needed h.1 e,
      )
      (cannot needed e)
  where
    cannot :
        (needed : Permission)
        → only_reads needed ≡ false
        → (holds needed (permissions_for_role read_only) || false) ≡ false
    cannot accounts_read e = cc e
    cannot characters_read e = cc e
    cannot world_read e = cc e
    cannot audit_read e = cc e
    cannot metrics_read e = cc e
    cannot accounts_write e = refl
    cannot accounts_ban e = refl
    cannot characters_write e = refl
    cannot characters_disconnect e = refl
    cannot world_write e = refl
    cannot moderation_write e = refl
    cannot broadcast_send e = refl

-- An administrator whose roles are all read-only is refused every permission that does more than
-- read.
has_permission_read_only :
    (principal : AdminPrincipal) (needed : Permission)
    → All IsReadOnly principal.roles
    → only_reads needed ≡ false
    → has_permission principal needed ≡ false
unfolding has_permission
has_permission_read_only principal needed h e = roles_read principal.roles needed h e
