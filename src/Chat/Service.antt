-- ===== src/Chat/Service.antt =====
-- apps/chat-service/src/main.rs: the handlers, the chat service behind them and the deque of the
-- newest envelopes.
use helbreath_backend.Prelude.{
  ℕ, ◌≤◌, ◌≡◌, refl, ap, ◌∙◌, ◌||◌, List, [], ◌∷◌, ◌++◌, Option, none, some, arith, ltb,
  if◌then◌else◌, Bool-cases, inl, inr, take,
}
use helbreath_backend.Prelude.Int.{ℤ}
use helbreath_backend.Prelude.Text.{Text, trim, is_empty}
use helbreath_backend.Prelude.Buffer.{push_full, push_full-last, last, last-last, take-reverse}
use helbreath_backend.Domain.{Uuid}
use helbreath_backend.Chat.{ChatCommand, ChatEnvelope, say_map, whisper, guild, envelope_of, run}
use mathlib.Core.List.{reverse}
use Prim.Native.String.{String}

pub data ChatRequest : Type 0 where
  say_map_request : Uuid → ℤ → Text → ChatRequest
  whisper_request : Uuid → Text → Text → ChatRequest
  guild_request : Uuid → Uuid → Text → ChatRequest

pub data Answer : Type 0 where
  accepted : Answer
  refused : String → Answer

-- A handler's answer, and the commands that it sends to the chat service.
handle_say_map : Uuid → ℤ → Text → Answer × List ChatCommand
unfolding trim
handle_say_map from map_id message =
    if is_empty (trim message)
    then (refused "empty_message", [])
    else (accepted, say_map from map_id message ∷ [])

handle_whisper : Uuid → Text → Text → Answer × List ChatCommand
unfolding trim
handle_whisper from to message =
    if is_empty (trim message) || is_empty (trim to)
    then (refused "invalid_payload", [])
    else (accepted, whisper from to message ∷ [])

handle_guild : Uuid → Uuid → Text → Answer × List ChatCommand
unfolding trim
handle_guild from guild_id message =
    if is_empty (trim message)
    then (refused "empty_message", [])
    else (accepted, guild from guild_id message ∷ [])

unfoldable pub handle : ChatRequest → Answer × List ChatCommand
unfolding handle_say_map handle_whisper handle_guild
handle (say_map_request from map_id message) = handle_say_map from map_id message
handle (whisper_request from to message) = handle_whisper from to message
handle (guild_request from guild_id message) = handle_guild from guild_id message

-- The loop of `sink_task`, over what it receives.
unfoldable pub sink : List ChatEnvelope → List ChatEnvelope → List ChatEnvelope
unfolding push_full
sink recent [] = recent
sink recent (msg ∷ msgs) = sink (push_full 256 msg recent) msgs

-- `query.limit.unwrap_or(20).clamp(1, 200)`
unfoldable pub query_limit : Option ℕ → ℕ
query_limit none = 20
query_limit (some n) = if ltb n 1 then 1 else if ltb 200 n then 200 else n

-- The rows of `outbound`: the newest first.
unfoldable pub outbound : Option ℕ → List ChatEnvelope → List ChatEnvelope
unfolding query_limit
outbound limit recent = take (query_limit limit) (reverse recent)

-- The requests one after the other: what the handlers send.
unfoldable pub commands_of : List ChatRequest → List ChatCommand
unfolding handle
commands_of [] = []
commands_of (r ∷ rs) = (handle r).1 ++ commands_of rs

sink-last : (past msgs : List ChatEnvelope) → sink (last 256 past) msgs ≡ last 256 (past ++ msgs)
unfolding sink
sink-last past [] = ap (last 256) (append_nil past)
  where
    append_nil : (xs : List ChatEnvelope) → xs ≡ xs ++ []
    append_nil [] = refl
    append_nil (x ∷ xs) = ap (λ t. x ∷ t) (append_nil xs)
sink-last past (msg ∷ msgs) =
    ap (λ r. sink r msgs) (push_full-last 256 msg past (omega arith))
    ∙ sink-last (past ++ (msg ∷ [])) msgs
    ∙ ap (last 256) (append_cons past)
  where
    append_cons : (xs : List ChatEnvelope) → (xs ++ (msg ∷ [])) ++ msgs ≡ xs ++ (msg ∷ msgs)
    append_cons [] = refl
    append_cons (x ∷ xs) = ap (λ t. x ∷ t) (append_cons xs)

query_limit-le : (limit : Option ℕ) → query_limit limit ≤ 256
unfolding query_limit
query_limit-le none = omega arith
query_limit-le (some n) = ground arith

-- The message that a request carries, if its texts have more than white space.
abbrev pub said : ChatRequest → List ChatEnvelope
said (say_map_request from map_id message) =
    if is_empty (trim message)
    then []
    else record { from_character_id = from; message = message; channel = "map" } ∷ []
said (whisper_request from to message) =
    if is_empty (trim message) || is_empty (trim to)
    then []
    else record { from_character_id = from; message = message; channel = "whisper" } ∷ []
said (guild_request from guild_id message) =
    if is_empty (trim message)
    then []
    else record { from_character_id = from; message = message; channel = "guild" } ∷ []

abbrev pub all_said : List ChatRequest → List ChatEnvelope
all_said [] = []
all_said (r ∷ rs) = said r ++ all_said rs

run-append : (xs ys : List ChatCommand) → run (xs ++ ys) ≡ run xs ++ run ys
unfolding run
run-append [] ys = refl
run-append (x ∷ xs) ys = ap (λ t. envelope_of x ∷ t) (run-append xs ys)

run-handle : (r : ChatRequest) → run (handle r).1 ≡ said r
unfolding handle handle_say_map handle_whisper handle_guild run envelope_of
run-handle (say_map_request from map_id message) = elim (Bool-cases (is_empty (trim message))) [
  | inl t ↦ rw t refl
  | inr t ↦ rw t refl
]
run-handle (whisper_request from to message) =
    elim (Bool-cases (is_empty (trim message) || is_empty (trim to))) [
      | inl t ↦ rw t refl
      | inr t ↦ rw t refl
    ]
run-handle (guild_request from guild_id message) = elim (Bool-cases (is_empty (trim message))) [
  | inl t ↦ rw t refl
  | inr t ↦ rw t refl
]

run-commands_of : (rs : List ChatRequest) → run (commands_of rs) ≡ all_said rs
unfolding commands_of run
run-commands_of [] = refl
run-commands_of (r ∷ rs) =
    run-append (handle r).1 (commands_of rs) ∙ rw (run-handle r, run-commands_of rs) refl

-- A query behind any requests gives the newest messages, the newest first, as many as its limit
-- clamped to 1..200, or 20 without one: of each request that has more than white space in its
-- texts its sender, its message and the kind of its channel.
pub outbound-sink :
    (rs : List ChatRequest) (limit : Option ℕ)
    → outbound limit (sink [] (run (commands_of rs)))
      ≡ reverse (last (query_limit limit) (all_said rs))
unfolding outbound
outbound-sink rs limit =
    rw (sink-last [] (run (commands_of rs)), run-commands_of rs)
      (take-reverse (query_limit limit) (last 256 (all_said rs))
        ∙ ap reverse (last-last (query_limit limit) 256 (all_said rs) (query_limit-le limit)))
