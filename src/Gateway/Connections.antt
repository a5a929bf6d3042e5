-- ===== src/Gateway/Connections.antt =====
-- apps/gateway/src/main.rs: the connections of an address, as `run_game_tcp` counts them.
use helbreath_backend.Prelude.{
  ℕ, ◌+◌, ◌-◌, ◌≤◌, ◌≡◌, refl, leb, ◌==◌, List, [], ◌∷◌, Option, none, some, if◌then◌else◌, arith,
  nat_eq, Bool-cases, inl, inr, Option-cases,
}
use helbreath_backend.Prelude.Assoc.{Assoc, lookup, insert, remove, Distinct}
use helbreath_backend.Prelude.Assoc.Laws.{
  lookup-insert, lookup-remove, Distinct-insert, Distinct-remove,
}
use helbreath_backend.Gateway.{IpAddr}

-- The counts, and the addresses of the connections whose task runs.
pub record Connections : Type 0 where
  pub counts : Assoc IpAddr ℕ
  pub running : List IpAddr

-- `get(..).copied().unwrap_or(0)`
unfoldable pub current : IpAddr → Assoc IpAddr ℕ → ℕ
unfolding lookup
current ip counts = elim (lookup ip counts) [ none ↦ 0 | some n ↦ n ]

unfoldable pub on_accept : ℕ → IpAddr → Connections → Connections
unfolding current insert
on_accept limit ip c =
    if leb limit (current ip c.counts)
    then c
    else record { counts = insert ip (current ip c.counts + 1) c.counts; running = ip ∷ c.running }

-- One connection of the address is over.
unfoldable pub drop_one : IpAddr → List IpAddr → List IpAddr
drop_one ip [] = []
drop_one ip (a ∷ rest) = if a == ip then rest else a ∷ drop_one ip rest

unfoldable pub release : IpAddr → Assoc IpAddr ℕ → Assoc IpAddr ℕ
unfolding lookup insert remove
release ip counts = elim (lookup ip counts) [
  | none ↦ counts
  | some n ↦ if leb n 1 then remove ip counts else insert ip (n - 1) counts
]

unfoldable pub on_end : IpAddr → Connections → Connections
unfolding release drop_one
on_end ip c = record { counts = release ip c.counts; running = drop_one ip c.running }

-- The connections of an address that run.
abbrev pub count : IpAddr → List IpAddr → ℕ
count ip [] = 0
count ip (a ∷ rest) = (if a == ip then 1 else 0) + count ip rest

-- Each count is the number of connections that run, at least 1 where it stands, at most the limit.
pub record IsExact (limit : ℕ) (c : Connections) : Type 0 where
  pub distinct : Distinct c.counts
  pub exact : (ip : IpAddr) → current ip c.counts ≡ count ip c.running
  pub within : (ip : IpAddr) → current ip c.counts ≤ limit

-- What can happen: an address connects, or a connection of it that runs comes to its end.
pub data IsReached (limit : ℕ) : Connections → Type 0 where
  start : IsReached limit (record { counts = []; running = [] })
  accepted :
      (ip : IpAddr) (c : Connections) → IsReached limit c → IsReached limit (on_accept limit ip c)
  over :
      (ip : IpAddr) (c : Connections)
      → 1 ≤ count ip c.running
      → IsReached limit c
      → IsReached limit (on_end ip c)

current-insert :
    (ip j n : ℕ) (counts : Assoc IpAddr ℕ)
    → current j (insert ip n counts) ≡ (if ip == j then n else current j counts)
unfolding current
current-insert ip j n counts =
    rw (lookup-insert ip j n counts, current)
      (elim (Bool-cases (ip == j)) [ inl e ↦ rw e refl | inr e ↦ rw e refl ])

current-remove :
    (ip j : ℕ) (counts : Assoc IpAddr ℕ)
    → Distinct counts
    → current j (remove ip counts) ≡ (if ip == j then 0 else current j counts)
unfolding current
current-remove ip j counts d =
    rw (lookup-remove ip j counts d, current)
      (elim (Bool-cases (ip == j)) [ inl e ↦ rw e refl | inr e ↦ rw e refl ])

count-drop_one :
    (ip j : ℕ) (l : List IpAddr)
    → 1 ≤ count ip l
    → count j (drop_one ip l) ≡ count j l - (if ip == j then 1 else 0)
unfolding drop_one
count-drop_one ip j [] h = omega arith
count-drop_one ip j (a ∷ rest) h = ground (arith, count-drop_one ip j rest)

current-eq :
    (ip : ℕ) (counts : Assoc IpAddr ℕ) (o : Option ℕ)
    → lookup ip counts ≡ o
    → current ip counts ≡ elim o [ none ↦ 0 | some n ↦ n ]
unfolding current
current-eq ip counts o e = rw (e, current) refl

-- The count of one address goes down by one, and no other changes.
abbrev IsOneLess : ℕ → Assoc IpAddr ℕ → Assoc IpAddr ℕ → Type 0
IsOneLess ip before after =
    Distinct after × ((j : ℕ) → current j after ≡ current j before - (if ip == j then 1 else 0))

release-IsOneLess :
    (ip : ℕ) (counts : Assoc IpAddr ℕ) → Distinct counts → IsOneLess ip counts (release ip counts)
unfolding release
release-IsOneLess ip counts d = elim (Option-cases (lookup ip counts)) [
  | inl e ↦
      rw (e, release)
        (
          d,
          λ j. elim (Bool-cases (ip == j)) [
            | inl t ↦
                let same : ip ≡ j = ground arith in
                let z = current-eq ip counts none e in rw (← same) (ground (arith, z))
            | inr t ↦ ground arith
          ],
        )
  | inr (n, e) ↦ elim (Bool-cases (leb n 1)) [
    | inl t ↦
        rw (e, t, release)
          (
            Distinct-remove ip counts d,
            λ j. ground (arith, current-remove ip j counts d, current-eq ip counts (some n) e),
          )
    | inr t ↦
        rw (e, t, release)
          (
            Distinct-insert ip (n - 1) counts d,
            λ j.
                ground (arith, current-insert ip j (n - 1) counts, current-eq ip counts (some n) e),
          )
  ]
]

on_accept-IsExact :
    (limit ip : ℕ) (c : Connections) → IsExact limit c → IsExact limit (on_accept limit ip c)
unfolding on_accept
on_accept-IsExact limit ip c h = elim (Bool-cases (leb limit (current ip c.counts))) [
  | inl e ↦ rw e h
  | inr e ↦ rw e record {
    distinct = Distinct-insert ip (current ip c.counts + 1) c.counts h.distinct;
    exact = λ j.
        ground
          (arith, current-insert ip j (current ip c.counts + 1) c.counts, h.exact j, h.exact ip);
    within =
        λ j. ground (arith, current-insert ip j (current ip c.counts + 1) c.counts, h.within j);
  }
]

on_end-IsExact :
    (limit ip : ℕ) (c : Connections)
    → 1 ≤ count ip c.running
    → IsExact limit c
    → IsExact limit (on_end ip c)
unfolding on_end
on_end-IsExact limit ip c some_run h =
    let less = release-IsOneLess ip c.counts h.distinct in
    record {
      distinct = less.0;
      exact = λ j. omega (arith, less.1 j, h.exact j, count-drop_one ip j c.running some_run);
      within = λ j. omega (arith, less.1 j, h.within j);
    }

-- However the connections of all addresses come and go: the count of an address is the number of its
-- connections that run, and it is at most the limit.
pub reached-IsExact : (limit : ℕ) (c : Connections) → IsReached limit c → IsExact limit c
unfolding current
reached-IsExact limit _ start = record {
  distinct = tt;
  exact = λ ip. refl;
  within = λ ip. omega arith;
}
reached-IsExact limit _ (accepted ip c r) = on_accept-IsExact limit ip c (reached-IsExact limit c r)
reached-IsExact limit _ (over ip c h r) = on_end-IsExact limit ip c h (reached-IsExact limit c r)
