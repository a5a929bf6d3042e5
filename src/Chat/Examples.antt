-- ===== src/Chat/Examples.antt =====
-- apps/chat-service/src/main.rs: the chat on concrete requests.
use helbreath_backend.Prelude.{◌≡◌, some, List, [], ◌∷◌}
use helbreath_backend.Prelude.Buffer.{last}
use helbreath_backend.Chat.{run}
use helbreath_backend.Chat.Service.{
  ChatRequest, whisper_request, guild_request, query_limit, outbound, sink, commands_of, all_said,
  outbound-sink,
}
use mathlib.Core.List.{reverse}

abbrev requests : List ChatRequest
requests = whisper_request 5 (97 ∷ []) (104 ∷ []) ∷ guild_request 5 1 (32 ∷ []) ∷ []

outbound-sink_example :
    outbound (some 500) (sink [] (run (commands_of requests)))
    ≡ reverse (last (query_limit (some 500)) (all_said requests))
outbound-sink_example = outbound-sink requests (some 500)
