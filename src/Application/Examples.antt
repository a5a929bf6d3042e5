-- ===== src/Application/Examples.antt =====
-- crates/application/src/lib.rs: the rules of the commands on concrete commands.
use helbreath_backend.Prelude.{◌≡◌, ◌↔◌, ok}
use helbreath_backend.Prelude.Text.{codes}
use helbreath_backend.Domain.{in_world}
use helbreath_backend.Application.{chat, validate_client_command}
use helbreath_backend.Application.Permission.{
  IsOpen, stage_of, HasText, validate_client_command_iff,
}

validate_client_command_iff_example :
    (validate_client_command in_world (chat (codes "hi")) ≡ ok tt)
    ↔ (IsOpen (stage_of (chat (codes "hi"))) in_world × HasText (chat (codes "hi")))
validate_client_command_iff_example = validate_client_command_iff in_world (chat (codes "hi"))
