-- ===== src/Gateway/Router/Routed.antt =====
-- apps/gateway/src/main.rs: the routing of one command keeps the sessions sound, and its requests carry
-- a character.
use helbreath_backend.Prelude.{
  ◌⊎◌, ◌≡◌, refl, sym, ap, ◌∙◌, Bool, true, false, Option, none, some, arith, Bool-cases,
  Option-cases, inl, inr, nat_eq, ◌==◌,
}
use helbreath_backend.Prelude.Int.{ℤ}
use helbreath_backend.Prelude.Assoc.{Assoc, lookup, Distinct}
use helbreath_backend.Domain.{Uuid}
use helbreath_backend.Application.{
  LoginPayload, ClientCommand, login, character_list, character_create, character_delete,
  character_select, enter_world, move, attack, cast_skill, pickup_item, drop_item, use_item,
  npc_interaction, chat, whisper, guild_chat, heartbeat, logout,
}
use helbreath_backend.Gateway.{
  Between, SessionRuntime, WorldRouteCommandRequest, auth_logout, auth_character_list,
  auth_character_create, AuthLoginResponse, AuthCharacterSelectResponse, Answers, Gateway,
}
use helbreath_backend.Gateway.Router.{
  is_authenticated, is_in_world, is_character_selected, character_of, send, update,
  route_world_command, route_in_world, logged_in, deleted, selected, route_auth_login,
  route_auth_character_delete, route_auth_character_select, route_client_command, changed,
  meanwhile, enter, if_authenticated,
}
use helbreath_backend.Gateway.Router.Changes.{
  opens, closes, gone, kept, Distinct-changed, changed-Left,
}
use helbreath_backend.Gateway.Router.Safe.{
  meanwhile-IsSafe, IsSound, Carries, IsSafe, lookup-IsSound, send-IsSafe, update-IsSafe,
  remove-IsSafe, out_of_world, character-Carries, in_world_character,
}

selected_fields :
    (o : Option SessionRuntime)
    → is_character_selected o ≡ true
    → (s : SessionRuntime) × (o ≡ some s)
      × ((a : Uuid) × (s.account_id ≡ some a))
      × ((c : Uuid) × (s.character_id ≡ some c))
unfolding is_character_selected
selected_fields none e = absurd (cc e)
selected_fields (some s) e = elim (Option-cases s.account_id) [
  | inl n ↦ ground (arith, n)
  | inr (a, n) ↦ elim (Option-cases s.character_id) [
    | inl k ↦ ground (arith, k)
    | inr (c, k) ↦ (s, refl, (a, n), (c, k))
  ]
]

deleted-IsSound :
    (character : Uuid) (s : SessionRuntime) → IsSound s → IsSound (deleted character s)
unfolding deleted
deleted-IsSound character s h = elim (Option-cases s.character_id) [
  | inl e ↦ rw (e, deleted) h
  | inr (c, e) ↦ elim (Bool-cases (c == character)) [
    | inl t ↦ rw (e, t, deleted) (out_of_world _ refl)
    | inr t ↦ rw (e, t, deleted) h
  ]
]

some_inj : (s t : SessionRuntime) → some s ≡ some t → s ≡ t
some_inj s t e = cc

-- No connection that opens while the router works on the command draws the session's identifier.
pub record IsFresh (session : Uuid) (between : Between) : Type 0 where
  pub request : opens session between.at_request ≡ false
  pub write : opens session between.at_write ≡ false

-- A session that is still there behind both rounds of changes was there in front of them.
found_before :
    (session : Uuid) (between : Between) (m : Assoc Uuid SessionRuntime) (t : SessionRuntime)
    → Distinct m
    → IsFresh session between
    → lookup session (changed between.at_write (changed between.at_request m)) ≡ some t
    → lookup session m ≡ some t
found_before session between m t d fresh e =
    let read = changed between.at_request m in
    elim (changed-Left session between.at_write read (Distinct-changed _ m d) fresh.write) [
      | gone c n ↦ absurd (cc (n, e))
      | kept k ↦ elim (changed-Left session between.at_request m d fresh.request) [
        | gone c n ↦ absurd (cc (n, k, e))
        | kept k' ↦ sym k' ∙ sym k ∙ e
      ]
    ]

module _ (P : Uuid → Type 0) (between : Between) (session : Uuid) (fresh : IsFresh session between)
    (excuse : closes session between.at_request ≡ true → P session) where
  still_carried :
      (r : WorldRouteCommandRequest) (m : Assoc Uuid SessionRuntime)
      → Distinct m
      → (c : Uuid) × (character_of (lookup session m) ≡ some c)
      → Carries r (character_of (lookup session (changed between.at_request m))) ⊎ P session
  still_carried r m d (c, e) = elim (changed-Left session between.at_request m d fresh.request) [
    | gone closed n ↦ inr (excuse closed)
    | kept k ↦ inl (character-Carries r _ (c, ap character_of k ∙ e))
  ]

  world_command-IsSafe :
      (map_id : ℤ) (r : WorldRouteCommandRequest) (g : Gateway)
      → Carries r (character_of (lookup session (changed between.at_request g.sessions)))
        ⊎ P session
      → IsSafe P g
      → IsSafe P (route_world_command between session map_id r g)
  unfolding route_world_command
  world_command-IsSafe map_id r g k h =
      send-IsSafe P _ _ k (meanwhile-IsSafe P between.at_request g h)

  route_in_world-IsSafe :
      (hint : Option ℤ) (r : WorldRouteCommandRequest) (g : Gateway)
      → IsSafe P g
      → IsSafe P (route_in_world between session hint r g)
  unfolding route_in_world
  route_in_world-IsSafe hint r g h =
      let checked = meanwhile between.at_check g in
      let h' = meanwhile-IsSafe P between.at_check g h in
      elim (Bool-cases (is_in_world (lookup session checked.sessions))) [
        | inl e ↦
            rw (e, route_in_world)
              (world_command-IsSafe _ r checked
                (still_carried r checked.sessions h'.distinct
                  (in_world_character session checked h'.sound e))
                h')
        | inr e ↦ rw (e, route_in_world) h'
      ]

  asked-IsSafe :
      (map_id : ℤ) (g : Gateway)
      → is_character_selected (lookup session g.sessions) ≡ true
      → IsSafe P g
      → IsSafe P (route_world_command between session map_id WorldRouteCommandRequest.enter_world g)
  asked-IsSafe map_id g e h =
      let (s, n, a, (c, k)) = selected_fields (lookup session g.sessions) e in
      world_command-IsSafe map_id WorldRouteCommandRequest.enter_world g
        (still_carried WorldRouteCommandRequest.enter_world g.sessions h.distinct
          (c, ap character_of n ∙ k))
        h

  entered-IsSafe :
      (map_id : ℤ) (g : Gateway)
      → is_character_selected (lookup session g.sessions) ≡ true
      → IsSafe P g
      → IsSafe P (
          update session
            (λ s. record s { in_world = true })
            (meanwhile between.at_write
              (route_world_command between session map_id WorldRouteCommandRequest.enter_world g)))
  entered-IsSafe map_id g e h =
      let (s, n, a, (c, k)) = selected_fields (lookup session g.sessions) e in
      let asked : Gateway =
        route_world_command between session map_id WorldRouteCommandRequest.enter_world g in
      update-IsSafe P session (λ s. record s { in_world = true }) (meanwhile between.at_write asked)
        (λ t m.
          let there =
            found_before session between g.sessions t h.distinct fresh
              (unfold route_world_command send in m) in
          let same : s ≡ t = some_inj s t (sym n ∙ there) in
          record { account = λ x. rw (← same) a; character = λ x. rw (← same) (c, k) })
        (meanwhile-IsSafe P between.at_write _ (asked-IsSafe map_id g e h))

  enter-IsSafe :
      (answer : Bool) (map_id : ℤ) (g : Gateway)
      → IsSafe P g
      → IsSafe P (enter between answer session map_id g)
  unfolding enter
  enter-IsSafe answer map_id g h =
      let checked = meanwhile between.at_check g in
      let h' = meanwhile-IsSafe P between.at_check g h in
      elim (Bool-cases (is_character_selected (lookup session checked.sessions))) [
        | inl e ↦ elim (Bool-cases answer) [
          | inl t ↦ rw (e, t, enter) (entered-IsSafe map_id checked e h')
          | inr t ↦ rw (e, t, enter) (asked-IsSafe map_id checked e h')
        ]
        | inr e ↦ rw (e, enter) h'
      ]

  route_auth_login-IsSafe :
      (answer : Option AuthLoginResponse) (payload : LoginPayload) (g : Gateway)
      → IsSafe P g
      → IsSafe P (route_auth_login between answer session payload g)
  unfolding route_auth_login logged_in
  route_auth_login-IsSafe none payload g h =
      send-IsSafe P _ _ tt (meanwhile-IsSafe P between.at_request g h)
  route_auth_login-IsSafe (some body) payload g h =
      let asked = send-IsSafe P _ _ tt (meanwhile-IsSafe P between.at_request g h) in
      elim (Bool-cases body.accepted) [
        | inl e ↦ rw e (
            update-IsSafe P session (logged_in body) _ (λ s n. out_of_world _ refl)
              (meanwhile-IsSafe P between.at_write _ asked))
        | inr e ↦ rw e asked
      ]

  route_auth_character_delete-IsSafe :
      (answer : Option Bool) (character : Uuid) (g : Gateway)
      → IsSafe P g
      → IsSafe P (route_auth_character_delete between answer session character g)
  unfolding route_auth_character_delete
  route_auth_character_delete-IsSafe (some true) character g h =
      let late = meanwhile-IsSafe P between.at_write _ (send-IsSafe P _ g tt h) in
      update-IsSafe P session (deleted character) _
        (λ s n. deleted-IsSound character s (lookup-IsSound session _ s late.sound n)) late
  route_auth_character_delete-IsSafe (some false) character g h = send-IsSafe P _ g tt h
  route_auth_character_delete-IsSafe none character g h = send-IsSafe P _ g tt h

  route_auth_character_select-IsSafe :
      (answer : Option AuthCharacterSelectResponse) (character : Uuid) (g : Gateway)
      → IsSafe P g
      → IsSafe P (route_auth_character_select between answer session character g)
  unfolding route_auth_character_select selected
  route_auth_character_select-IsSafe none character g h = send-IsSafe P _ g tt h
  route_auth_character_select-IsSafe (some body) character g h = elim (Bool-cases body.is_ok) [
    | inl e ↦ rw e (
        update-IsSafe P session (selected body) _ (λ s n. out_of_world _ refl)
          (meanwhile-IsSafe P between.at_write _ (send-IsSafe P _ g tt h)))
    | inr e ↦ rw e (send-IsSafe P _ g tt h)
  ]

  if_authenticated-IsSafe :
      (then_do : Gateway → Gateway) (g : Gateway)
      → ((g' : Gateway) → IsSafe P g' → IsSafe P (then_do g'))
      → IsSafe P g
      → IsSafe P (if_authenticated between session then_do g)
  unfolding if_authenticated
  if_authenticated-IsSafe then_do g k h =
      let checked = meanwhile between.at_check g in
      let h' = meanwhile-IsSafe P between.at_check g h in
      elim (Bool-cases (is_authenticated (lookup session checked.sessions))) [
        | inl e ↦ rw (e, if_authenticated) (k checked h')
        | inr e ↦ rw (e, if_authenticated) h'
      ]

  pub route_client_command-IsSafe :
      (answers : Answers) (hint : Option ℤ) (c : ClientCommand) (g : Gateway)
      → IsSafe P g
      → IsSafe P (route_client_command answers between session hint c g)
  unfolding route_client_command
  route_client_command-IsSafe answers hint (login payload) g h =
      route_auth_login-IsSafe answers.login payload g h
  route_client_command-IsSafe answers hint character_list g h =
      if_authenticated-IsSafe (send (auth_character_list session)) g
        (λ g' h'. send-IsSafe P (auth_character_list session) g' tt h') h
  route_client_command-IsSafe answers hint (character_create payload) g h =
      if_authenticated-IsSafe (send (auth_character_create session payload)) g
        (λ g' h'. send-IsSafe P (auth_character_create session payload) g' tt h') h
  route_client_command-IsSafe answers hint (character_delete character) g h =
      if_authenticated-IsSafe (route_auth_character_delete between answers.delete session character)
        g (route_auth_character_delete-IsSafe answers.delete character) h
  route_client_command-IsSafe answers hint (character_select character) g h =
      if_authenticated-IsSafe (route_auth_character_select between answers.select session character)
        g (route_auth_character_select-IsSafe answers.select character) h
  route_client_command-IsSafe answers hint enter_world g h = enter-IsSafe answers.world _ g h
  route_client_command-IsSafe answers hint heartbeat g h =
      world_command-IsSafe _ WorldRouteCommandRequest.heartbeat g (inl tt) h
  route_client_command-IsSafe answers hint logout g h = remove-IsSafe P session _ (
      meanwhile-IsSafe P between.at_write _ (
        send-IsSafe P (auth_logout session) _ tt
          (world_command-IsSafe _ WorldRouteCommandRequest.logout g (inl tt) h)))
  route_client_command-IsSafe answers hint (move x y r) g h = route_in_world-IsSafe hint _ g h
  route_client_command-IsSafe answers hint (attack t) g h = route_in_world-IsSafe hint _ g h
  route_client_command-IsSafe answers hint (cast_skill s t) g h = route_in_world-IsSafe hint _ g h
  route_client_command-IsSafe answers hint (pickup_item e) g h = route_in_world-IsSafe hint _ g h
  route_client_command-IsSafe answers hint (drop_item s q) g h = route_in_world-IsSafe hint _ g h
  route_client_command-IsSafe answers hint (use_item s) g h = route_in_world-IsSafe hint _ g h
  route_client_command-IsSafe answers hint (npc_interaction n) g h =
      route_in_world-IsSafe hint _ g h
  route_client_command-IsSafe answers hint (chat m) g h = route_in_world-IsSafe hint _ g h
  route_client_command-IsSafe answers hint (whisper t m) g h = route_in_world-IsSafe hint _ g h
  route_client_command-IsSafe answers hint (guild_chat m) g h = route_in_world-IsSafe hint _ g h
