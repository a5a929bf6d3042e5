-- ===== src/WorldService/Outbound.antt =====
-- apps/world-service/src/main.rs: the task that keeps the newest outbound events, and the query.
use helbreath_backend.Prelude.{
  ℕ, suc, ◌+◌, ◌%◌, ◌^◌, ◌≤◌, ◌<◌, ◌≡◌, refl, ap, ap₂, ◌∙◌, List, [], ◌∷◌, ◌++◌, Option, none, some,
  arith, ltb, if◌then◌else◌, length, take,
}
use helbreath_backend.Prelude.Buffer.{
  trim_to, trim_to-last, last, last-snoc, take-reverse, last-last,
}
use helbreath_backend.MapServer.{OutboundEvent}
use helbreath_backend.WorldService.{WorldOutboundRecord, outbound_to_record}
use mathlib.Core.List.{reverse, reverse-reverse}

-- The variable `seq` of `outbound_task`, and the deque that it shares with the handlers.
pub record OutboundLog : Type 0 where
  pub seq : ℕ
  pub recent_outbound : List WorldOutboundRecord

abbrev pub new_log : OutboundLog
new_log = record { seq = 0; recent_outbound = [] }

-- One round of `outbound_task`.
unfoldable pub store : OutboundEvent → OutboundLog → OutboundLog
unfolding outbound_to_record trim_to
store event log =
    let seq = (log.seq + 1) % 2 ^ 64 in
    record {
      seq = seq;
      recent_outbound = trim_to 256 (log.recent_outbound ++ (outbound_to_record seq event ∷ []));
    }

unfoldable pub outbound_task : List OutboundEvent → OutboundLog → OutboundLog
unfolding store
outbound_task [] log = log
outbound_task (event ∷ events) log = outbound_task events (store event log)

-- `query.limit.unwrap_or(20).clamp(1, 200)`
unfoldable pub query_limit : Option ℕ → ℕ
query_limit none = 20
query_limit (some n) = if ltb n 1 then 1 else if ltb 200 n then 200 else n

-- The `rows` of `world_map_outbound`.
unfoldable pub outbound_rows : Option ℕ → OutboundLog → List WorldOutboundRecord
unfolding query_limit
outbound_rows limit log = reverse (take (query_limit limit) (reverse log.recent_outbound))

-- The events numbered from `first` on, without any bound: what the log stands for.
abbrev pub numbered : ℕ → List OutboundEvent → List WorldOutboundRecord
numbered first [] = []
numbered first (event ∷ events) = outbound_to_record first event ∷ numbered (suc first) events

append_nil {ℓ} : {A : Type ℓ} (xs : List A) → xs ≡ xs ++ []
append_nil [] = refl
append_nil (x ∷ xs) = ap (λ t. x ∷ t) (append_nil xs)

append_cons {ℓ} :
    {A : Type ℓ} (xs : List A) (x : A) (ys : List A) → (xs ++ (x ∷ [])) ++ ys ≡ xs ++ (x ∷ ys)
append_cons [] x ys = refl
append_cons (y ∷ xs) x ys = ap (λ t. y ∷ t) (append_cons xs x ys)

outbound_task_from :
    (events : List OutboundEvent) (seq : ℕ) (past : List WorldOutboundRecord)
    → seq + length events < 2 ^ 64
    → outbound_task events (record { seq = seq; recent_outbound = last 256 past }) ≡ record {
      seq = seq + length events;
      recent_outbound = last 256 (past ++ numbered (suc seq) events);
    }
unfolding outbound_task store
outbound_task_from [] seq past small =
    ap₂ (λ n r. record { seq = n; recent_outbound = r }) (omega arith)
      (ap (last 256) (append_nil past))
outbound_task_from (event ∷ events) seq past small =
    let here : (seq + 1) % 2 ^ 64 ≡ suc seq = omega (arith, small) in
    let stored = outbound_to_record (suc seq) event in
    let kept : trim_to 256 (last 256 past ++ (stored ∷ [])) ≡ last 256 (past ++ (stored ∷ [])) =
      trim_to-last 256 (last 256 past ++ (stored ∷ [])) ∙ last-snoc 256 past stored in
    rw (here, kept)
      (outbound_task_from events (suc seq) (past ++ (stored ∷ [])) (omega (arith, small))
        ∙ ap₂ (λ n r. record { seq = n; recent_outbound = last 256 r }) (omega arith)
            (append_cons past stored (numbered (suc (suc seq)) events)))

query_limit-le : (limit : Option ℕ) → query_limit limit ≤ 256
unfolding query_limit
query_limit-le none = omega arith
query_limit-le (some n) = ground arith

-- Of fewer than 2 ^ 64 events a query gives the last ones, as many as its limit clamped to
-- 1..200, or 20 without one, in the order in which they came, each with its number from 1 on.
pub outbound_rows-outbound_task :
    (events : List OutboundEvent) (limit : Option ℕ)
    → length events < 2 ^ 64
    → outbound_rows limit (outbound_task events new_log)
      ≡ last (query_limit limit) (numbered 1 events)
unfolding outbound_rows outbound_task
outbound_rows-outbound_task events limit small =
    let state : outbound_task events new_log
        ≡ record { seq = length events; recent_outbound = last 256 (numbered 1 events) } =
      outbound_task_from events 0 [] (omega (arith, small))
      ∙ ap (λ n. record { seq = n; recent_outbound = last 256 (numbered 1 events) })
          (let sum : 0 + length events ≡ length events = omega arith in sum) in
    rw (state, take-reverse (query_limit limit) (last 256 (numbered 1 events)))
      (reverse-reverse (last (query_limit limit) (last 256 (numbered 1 events)))
        ∙ last-last (query_limit limit) 256 (numbered 1 events) (query_limit-le limit))
