-- ===== src/WorldService/Service/Represents.antt =====
-- apps/world-service/src/main.rs: the manager and the coordinator as one set of active maps, and what
-- an activation and a deactivation do to it.
use helbreath_backend.Prelude.{
  ℕ, ◌==◌, ◌≡◌, refl, sym, ◌∙◌, Bool, true, false, List, [], ◌∷◌, Option, none, some, if◌then◌else◌,
  Bool-cases, Option-cases, inl, inr,
}
use helbreath_backend.Prelude.Int.{ℤ, eqb_ℤ, eqb_ℤ_iff, int_eq}
use helbreath_backend.Prelude.Assoc.{Assoc, lookup, Distinct}
use helbreath_backend.Prelude.Assoc.Laws.{
  lookup-insert, lookup-remove, Distinct-insert, Distinct-remove,
}
use helbreath_backend.World.{
  WorldMessage, RoutedCommand, Effect, send, reply, register_map, unregister_map, handle, run,
}
use helbreath_backend.WorldService.{MapRuntimeHandle}
use helbreath_backend.WorldService.Manager.{
  is_active, activate, take_handle, unregister, deactivate,
}
use helbreath_backend.WorldService.Service.{Service, receive, receive_all, forward, tell, settle}

-- The channel of a map that has a runtime.
abbrev pub channel_of : Option MapRuntimeHandle → Option ℕ
channel_of none = none
channel_of (some h) = some h.router_task

-- The abstract view: the channel of each active map.
abbrev pub Active : Type 0
Active = ℤ → Option ℕ

-- No map is active.
abbrev pub no_maps : Active
no_maps j = none

-- The manager and the coordinator both hold exactly the active maps, with the same channels.
pub record Represents (a : Active) (s : Service) : Type 0 where
  pub runtimes : Distinct s.map_manager.runtimes
  pub senders : Distinct s.coordinator.map_senders
  pub running : (j : ℤ) → channel_of (lookup j s.map_manager.runtimes) ≡ a j
  pub routed : (j : ℤ) → lookup j s.coordinator.map_senders ≡ a j

channel_of-receive :
    (channel : ℕ) (r : RoutedCommand) (h : MapRuntimeHandle)
    → (receive channel r h).router_task ≡ h.router_task
unfolding receive
channel_of-receive channel r h = elim (Bool-cases (h.router_task == channel)) [
  | inl t ↦ rw t refl
  | inr t ↦ rw t refl
]

channel_of-receive_all :
    (j : ℤ) (channel : ℕ) (r : RoutedCommand) (rs : Assoc ℤ MapRuntimeHandle)
    → channel_of (lookup j (receive_all channel r rs)) ≡ channel_of (lookup j rs)
unfolding receive_all lookup
channel_of-receive_all j channel r [] = refl
channel_of-receive_all j channel r ((k, h) ∷ rs) = elim (Bool-cases (eqb_ℤ k j)) [
  | inl t ↦ rw (t, channel_of-receive channel r h) refl
  | inr t ↦ rw t (channel_of-receive_all j channel r rs)
]

none_of_channel : (o : Option MapRuntimeHandle) → channel_of o ≡ none → o ≡ none
none_of_channel none e = refl
none_of_channel (some h) e = cc

Distinct-receive_all :
    (channel : ℕ) (r : RoutedCommand) (rs : Assoc ℤ MapRuntimeHandle)
    → Distinct rs
    → Distinct (receive_all channel r rs)
unfolding receive_all
Distinct-receive_all channel r [] d = tt
Distinct-receive_all channel r ((k, h) ∷ rs) d = (
  none_of_channel (lookup k (receive_all channel r rs))
      (rw (channel_of-receive_all k channel r rs, d.0) refl),
  Distinct-receive_all channel r rs d.1,
)

pub channel_of-forward :
    (j : ℤ) (es : List Effect) (rs : Assoc ℤ MapRuntimeHandle)
    → channel_of (lookup j (forward es rs)) ≡ channel_of (lookup j rs)
unfolding forward
channel_of-forward j [] rs = refl
channel_of-forward j (send channel r ∷ es) rs =
    channel_of-forward j es (receive_all channel r rs) ∙ channel_of-receive_all j channel r rs
channel_of-forward j (reply channel stats ∷ es) rs = channel_of-forward j es rs

Distinct-forward :
    (es : List Effect) (rs : Assoc ℤ MapRuntimeHandle) → Distinct rs → Distinct (forward es rs)
unfolding forward
Distinct-forward [] rs d = d
Distinct-forward (send channel r ∷ es) rs d =
    Distinct-forward es (receive_all channel r rs) (Distinct-receive_all channel r rs d)
Distinct-forward (reply channel stats ∷ es) rs d = Distinct-forward es rs d

-- What the coordinator's messages leave of the view.
pub tell-Represents :
    (a : Active) (ms : List WorldMessage) (s : Service)
    → Distinct s.map_manager.runtimes
    → ((j : ℤ) → channel_of (lookup j s.map_manager.runtimes) ≡ a j)
    → Distinct (run s.coordinator ms).0.map_senders
    → ((j : ℤ) → lookup j (run s.coordinator ms).0.map_senders ≡ a j)
    → Represents a (tell ms s)
unfolding tell
tell-Represents a ms s d running d' routed = record {
  runtimes = Distinct-forward (run s.coordinator ms).1 s.map_manager.runtimes d;
  senders = d';
  running = λ j. channel_of-forward j (run s.coordinator ms).1 s.map_manager.runtimes ∙ running j;
  routed = routed;
}

-- What the answered requests do to the active maps.
abbrev pub put : ℤ → ℕ → Active → Active
put map_id channel a j =
    if eqb_ℤ map_id j then some (elim (a map_id) [ none ↦ channel | some c ↦ c ]) else a j

abbrev pub drop_map : ℤ → Active → Active
drop_map map_id a j = if eqb_ℤ map_id j then none else a j

put_active :
    (a : Active) (map_id : ℤ) (channel c : ℕ) (j : ℤ)
    → a map_id ≡ some c
    → a j ≡ put map_id channel a j
put_active a map_id channel c j e = elim (Bool-cases (eqb_ℤ map_id j)) [
  | inl t ↦ let same = (eqb_ℤ_iff map_id j).0 t in rw (t, e) (rw (← same) e)
  | inr t ↦ rw t refl
]

put_new :
    (a : Active) (map_id : ℤ) (channel : ℕ) (j : ℤ)
    → a map_id ≡ none
    → (if eqb_ℤ map_id j then some channel else a j) ≡ put map_id channel a j
put_new a map_id channel j e = rw e refl

drop_absent : (a : Active) (map_id j : ℤ) → a map_id ≡ none → a j ≡ drop_map map_id a j
drop_absent a map_id j e = elim (Bool-cases (eqb_ℤ map_id j)) [
  | inl t ↦ let same = (eqb_ℤ_iff map_id j).0 t in rw t (rw (← same) e)
  | inr t ↦ rw t refl
]

pub channel_of-if :
    (b : Bool) (h : MapRuntimeHandle) (o : Option MapRuntimeHandle)
    → channel_of (if b then some h else o) ≡ (if b then some h.router_task else channel_of o)
channel_of-if true h o = refl
channel_of-if false h o = refl

channel_of-if_none :
    (b : Bool) (o : Option MapRuntimeHandle)
    → channel_of (if b then none else o) ≡ (if b then none else channel_of o)
channel_of-if_none true o = refl
channel_of-if_none false o = refl

-- A view that is the same everywhere.
Represents-same :
    (a b : Active) (s : Service) → Represents a s → ((j : ℤ) → a j ≡ b j) → Represents b s
Represents-same a b s v e = record {
  runtimes = v.runtimes;
  senders = v.senders;
  running = λ j. v.running j ∙ e j;
  routed = λ j. v.routed j ∙ e j;
}

-- Nothing is sent.
tell_nothing : (a : Active) (s : Service) → Represents a s → Represents a (tell [] s)
unfolding run
tell_nothing a s v = tell-Represents a [] s v.runtimes v.running v.senders v.routed

module _ (a : Active) (s : Service) (v : Represents a s) where
  pub activate-Represents :
      (channel : ℕ) (map_id : ℤ)
      → Represents (put map_id channel a) (settle (activate true channel map_id s.map_manager) s)
  unfolding activate is_active settle run handle
  activate-Represents channel map_id = elim (Option-cases (lookup map_id s.map_manager.runtimes)) [
    | inl e ↦
        let absent : a map_id ≡ none = sym (v.running map_id) ∙ rw e refl in
        rw e (
          tell-Represents (put map_id channel a) (register_map map_id channel ∷ []) _
            (Distinct-insert map_id _ s.map_manager.runtimes v.runtimes)
            (λ j. rw (lookup-insert map_id j _ s.map_manager.runtimes) (
              channel_of-if (eqb_ℤ map_id j) _ (lookup j s.map_manager.runtimes)
              ∙ rw (v.running j) (put_new a map_id channel j absent)))
            (Distinct-insert map_id channel s.coordinator.map_senders v.senders)
            (λ j.
              rw (lookup-insert map_id j channel s.coordinator.map_senders, v.routed j)
                (put_new a map_id channel j absent)))
    | inr (h, e) ↦
        let present : a map_id ≡ some h.router_task = sym (v.running map_id) ∙ rw e refl in
        rw e (
          Represents-same a (put map_id channel a) (tell [] s) (tell_nothing a s v)
            (λ j. put_active a map_id channel h.router_task j present))
  ]

  pub deactivate-Represents :
      (map_id : ℤ) → Represents (drop_map map_id a) (settle (deactivate map_id s.map_manager) s)
  unfolding deactivate is_active take_handle unregister settle run handle
  deactivate-Represents map_id = elim (Option-cases (lookup map_id s.map_manager.runtimes)) [
    | inl e ↦
        let absent : a map_id ≡ none = sym (v.running map_id) ∙ rw e refl in
        rw e (
          Represents-same a (drop_map map_id a) (tell [] s) (tell_nothing a s v)
            (λ j. drop_absent a map_id j absent))
    | inr (h, e) ↦ rw e (
        tell-Represents (drop_map map_id a) (unregister_map map_id ∷ []) _
          (Distinct-remove map_id s.map_manager.runtimes v.runtimes)
          (λ j. rw (lookup-remove map_id j s.map_manager.runtimes v.runtimes) (
            channel_of-if_none (eqb_ℤ map_id j) (lookup j s.map_manager.runtimes)
            ∙ rw (v.running j) refl))
          (Distinct-remove map_id s.coordinator.map_senders v.senders)
          (λ j. rw (lookup-remove map_id j s.coordinator.map_senders v.senders, v.routed j) refl))
  ]
