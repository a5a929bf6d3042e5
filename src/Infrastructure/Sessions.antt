-- ===== src/Infrastructure/Sessions.antt =====
-- crates/infrastructure/src/lib.rs: the character that a session is bound to.
use helbreath_backend.Prelude.{
  ℕ, ◌==◌, ◌≡◌, refl, ap, ◌∙◌, Bool, true, false, ◌&&◌, List, [], ◌∷◌, ◌++◌, Option, none, some,
  arith, ltb, if◌then◌else◌, Yields, yields_rules, Bool-cases, Option-cases, inl, inr, length, All,
  All-append,
}
use helbreath_backend.Prelude.Int.{ℤ}
use helbreath_backend.Prelude.Text.{Text}
use helbreath_backend.Prelude.Table.{
  find_first, exists_row, update_where, count_where, exists-update_where, exists-append,
  exists-find_first, All-update, All-map, count-exists,
}
use helbreath_backend.Domain.{Uuid}
use helbreath_backend.Infrastructure.{
  NewCharacterParams, AccountRow, SessionRow, closed, CharacterRow, MapRow, Database, is_closed,
}
use helbreath_backend.Infrastructure.Accounts.{
  has_session, renewed, opened, upsert_session, collides, new_row, create_at, insert_character,
  is_character, mark_deleted, is_bound, unbind, delete_character, load_character, is_session_of,
  select_bound, bind_loaded, bind_session_character,
}
use helbreath_backend.Infrastructure.Admin.{placed, move_character}
use helbreath_backend.Infrastructure.Run.{or_unchanged_of}

-- A session that is not closed and has a character: that is a character of the session's account
-- which is not deleted.
pub record IsBound (characters : List CharacterRow) (s : SessionRow) : Type 0 where
  pub live :
      (c : Uuid)
      → s.character_id ≡ some c
      → is_closed s.state ≡ false
      → (a : Uuid) × (s.account_id ≡ some a) × (exists_row (is_character a c) characters ≡ true)

abbrev pub AllBound : Database → Type 0
AllBound db = All (IsBound db.characters) db.sessions

more-IsBound :
    (characters others : List CharacterRow) (s : SessionRow)
    → ((a c : Uuid)
        → exists_row (is_character a c) characters ≡ true
        → exists_row (is_character a c) others ≡ true)
    → IsBound characters s
    → IsBound others s
more-IsBound characters others s h v = record {
  live = λ c e o. let w = v.live c e o in (w.0, w.1, h w.0 c w.2);
}

closed-IsBound :
    (characters : List CharacterRow) (s : SessionRow)
    → is_closed s.state ≡ true
    → IsBound characters s
closed-IsBound characters s e = record { live = λ c f o. absurd (cc (e, o)) }

unbound-IsBound :
    (characters : List CharacterRow) (s : SessionRow) → s.character_id ≡ none → IsBound characters s
unbound-IsBound characters s e = record { live = λ c f o. absurd (cc (e, f)) }

pub upsert-AllBound :
    (now : ℕ) (session account : Uuid) (node ip : Text) (expires : ℕ) (db : Database)
    → exists_row (has_session session) db.sessions ≡ false
    → AllBound db
    → Yields AllBound (upsert_session now session account node ip expires db)
unfolding upsert_session opened
upsert-AllBound now session account node ip expires db fresh v =
    let row = opened now session account node ip expires in
    let kept : All (IsBound db.characters) (
        if exists_row (has_session session) db.sessions
        then update_where (has_session session) (renewed account node ip expires) db.sessions
        else db.sessions ++ (row ∷ [])) =
      rw fresh (
        All-append (IsBound db.characters) db.sessions (row ∷ []) v
          (unbound-IsBound db.characters row refl, tt)) in
    search (yields_rules, kept)

insert-AllBound :
    (row : CharacterRow) (db : Database)
    → AllBound db
    → AllBound (or_unchanged_of db (insert_character row db))
unfolding insert_character
insert-AllBound row db v =
    let kept : All (IsBound (db.characters ++ (row ∷ []))) db.sessions =
      All-map (IsBound db.characters) (IsBound (db.characters ++ (row ∷ []))) db.sessions
        (λ s b.
          more-IsBound db.characters (db.characters ++ (row ∷ [])) s
            (λ a c e. exists-append (is_character a c) db.characters (row ∷ []) e) b)
        v in
    elim (Bool-cases (ltb 16 (length row.name))) [
      | inl t ↦ rw t v
      | inr t ↦
          rw t
            (elim (Bool-cases
              (exists_row (λ (r : AccountRow). r.id == row.account_id) db.accounts)) [
                | inl u ↦
                    rw u
                      (elim (Bool-cases (
                        exists_row (collides row.id row.account_id row.name row.slot)
                          db.characters)) [ inl w ↦ rw w v | inr w ↦ rw w kept ])
                | inr u ↦ rw u v
              ])
    ]

pub create_at-AllBound :
    (now : ℕ) (id account : Uuid) (params : NewCharacterParams) (o : Option (ℕ × MapRow))
    (db : Database)
    → AllBound db
    → AllBound (or_unchanged_of db (create_at now id account params o db))
unfolding create_at
create_at-AllBound now id account params none db v = v
create_at-AllBound now id account params (some (slot, m)) db v =
    insert-AllBound (new_row now id account params slot m) db v

-- A deletion hits no other character.
still_there :
    (now : ℕ) (account character a c : Uuid) (rs : List CharacterRow)
    → (c == character && a == account) ≡ false
    → exists_row
        (is_character a c)
        (update_where (is_character account character) (mark_deleted now) rs)
      ≡ exists_row (is_character a c) rs
unfolding mark_deleted
still_there now account character a c rs e =
    exists-update_where (is_character a c) (is_character account character) (mark_deleted now) rs
      (λ x t. ground (arith, e, t))

-- The sessions that a deletion leaves, if it hits a character.
deleted-IsBound :
    (now : ℕ) (account character : Uuid) (characters : List CharacterRow) (s : SessionRow)
    → (is_bound account character s ≡ true
        → exists_row (is_character account character) characters ≡ false)
    → IsBound characters s
    → IsBound (update_where (is_character account character) (mark_deleted now) characters) s
deleted-IsBound now account character characters s h v = record {
  live = λ c e o.
      let w = v.live c e o in
      elim (Bool-cases (c == character && w.0 == account)) [
        | inl t ↦
            let bound : is_bound account character s ≡ true = rw (e, w.1, o) (ground (arith, t)) in
            let here : exists_row (is_character account character) characters ≡ true =
              ground (arith, t, w.2) in
            absurd (cc (h bound, here))
        | inr t ↦ (w.0, w.1, still_there now account character w.0 c characters t ∙ w.2)
      ];
}

pub delete-AllBound :
    (now : ℕ) (account character : Uuid) (db : Database)
    → AllBound db
    → AllBound (delete_character now account character db).1
unfolding delete_character unbind
delete-AllBound now account character db v =
    let rows = update_where (is_character account character) (mark_deleted now) db.characters in
    elim (Bool-cases (ltb 0 (count_where (is_character account character) db.characters))) [
      | inl t ↦ rw t (
          All-update (IsBound db.characters) (IsBound rows) (is_bound account character) unbind
            db.sessions (λ s b e. unbound-IsBound rows (unbind s) refl)
            (λ s b e.
              deleted-IsBound now account character db.characters s (λ g. absurd (cc (e, g))) b)
            v)
      | inr t ↦ rw t (
          All-map (IsBound db.characters) (IsBound rows) db.sessions
            (λ s b. deleted-IsBound now account character db.characters s (λ g. nothing t) b) v)
    ]
  where
    nothing :
        ltb 0 (count_where (is_character account character) db.characters) ≡ false
        → exists_row (is_character account character) db.characters ≡ false
    nothing t = elim (Bool-cases (exists_row (is_character account character) db.characters)) [
      | inl u ↦
          absurd (ground (arith, t, count-exists (is_character account character) db.characters u))
      | inr u ↦ u
    ]

-- A session is bound to a character that is there.
selected-IsBound :
    (now : ℕ) (session account character : Uuid) (characters : List CharacterRow) (s : SessionRow)
    → exists_row (is_character account character) characters ≡ true
    → is_session_of session account s ≡ true
    → IsBound characters (select_bound now character s)
unfolding select_bound
selected-IsBound now session account character characters s here e = record {
  live = λ c f o. elim (Option-cases s.account_id) [
    | inl g ↦ absurd (ground (arith, e, g))
    | inr (a, g) ↦
        let same : a ≡ account = ground (arith, e, g) in
        let what : character ≡ c = cc f in (account, g ∙ ap some same, rw (← what) here)
  ];
}

pub bind-AllBound :
    (now : ℕ) (session account character : Uuid) (db : Database)
    → AllBound db
    → AllBound (bind_session_character now session account character db).1
unfolding bind_session_character load_character bind_loaded
bind-AllBound now session account character db v =
    elim (Option-cases (find_first (is_character account character) db.characters)) [
      | inl e ↦ rw e v
      | inr (r, e) ↦ rw e (
          All-update (IsBound db.characters) (IsBound db.characters) (is_session_of session account)
            (select_bound now character) db.sessions
            (λ s b t.
              selected-IsBound now session account character db.characters s
                (exists-find_first (is_character account character) db.characters r e) t)
            (λ s b t. b) v)
    ]

pub place-AllBound :
    (now : ℕ) (character : Uuid) (map_id x y : ℤ) (db : Database)
    → AllBound db
    → Yields AllBound (move_character now character map_id x y db)
unfolding move_character
place-AllBound now character map_id x y db v =
    let rows =
      update_where (λ (r : CharacterRow). r.id == character) (placed now map_id x y)
        db.characters in
    let kept : All (IsBound rows) db.sessions =
      All-map (IsBound db.characters) (IsBound rows) db.sessions
        (λ s b.
          more-IsBound db.characters rows s
            (λ a c e.
              exists-update_where (is_character a c) (λ (r : CharacterRow). r.id == character)
                (placed now map_id x y) db.characters (λ r t. unfold placed in refl)
              ∙ e)
            b)
        v in
    search (yields_rules, kept)

pub closing-AllBound :
    (q : SessionRow → Bool) (now : ℕ) (db : Database)
    → AllBound db
    → All (IsBound db.characters) (
        update_where q
          (λ (r : SessionRow). record r { state = closed; closed_at = some now })
          db.sessions)
closing-AllBound q now db v =
    All-update (IsBound db.characters) (IsBound db.characters) q _ db.sessions
      (λ s b t. closed-IsBound db.characters _ refl) (λ s b t. b) v
