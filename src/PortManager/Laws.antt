-- ===== src/PortManager/Laws.antt =====
-- No port is lost or held twice, and what a search for a port returns.
use rtc_client.Common.{
  ℕ, ◌+◌, ◌≤◌, ◌≡◌, refl, Bool, true, false, List, [], ◌∷◌, ◌==◌, if◌then◌else◌, arith, All,
  Bool-cases, inl, inr, eq_self, subst, sym,
}
use rtc_client.PortManager.Sets.{
  set_insert, contains, count, count-append, count-set_insert, count-set_erase,
}
use rtc_client.PortManager.{PortManager, Search, refill, search_loop, get_udp_port, release_port}

-- How often the manager holds a port, available or in use.
abbrev pub held : ℕ → PortManager → ℕ
held p m = count p m.available_ports + count p m.ports_in_use

abbrev pub IsExact : PortManager → Type 0
IsExact m = (p : ℕ) → held p m ≤ 1

-- The ports that a search goes through: the available ones, or all in use where there is none.
abbrev pub candidates : PortManager → List ℕ
candidates m = (refill m.available_ports m.ports_in_use).0

count-cons : (p q : ℕ) (l : List ℕ) → count p (q ∷ l) ≡ (if p == q then 1 else 0) + count p l
unfolding count
count-cons p q l = refl

count-refill :
    (p : ℕ) (l used : List ℕ)
    → count p (refill l used).0 + count p (refill l used).1 ≡ count p l + count p used
unfolding refill count
count-refill p [] used = omega arith
count-refill p (x ∷ l) used = refl

module _ (check : ℕ → Bool) where
  -- A search moves the ports that it tries and leaves none out.
  search_loop-count :
      (p port : ℕ) (l used : List ℕ)
      → ((q : ℕ) → count q l + count q used ≤ 1)
      → let s = search_loop check port l used in
        count p s.available + count p s.used ≡ count p l + count p used
  unfolding search_loop count
  search_loop-count p port [] used h = refl
  search_loop-count p port (x ∷ l) used h =
      ground (arith, added p, search_loop-count p x l (set_insert x used) later)
    where
      absent : count x used ≡ 0
      absent = ground (arith, h x)

      added : (q : ℕ) → count q (set_insert x used) ≡ (if q == x then 1 else 0) + count q used
      added q = count-set_insert q x used absent

      later : (q : ℕ) → count q l + count q (set_insert x used) ≤ 1
      later q = omega (arith, h q, added q)

  search_hit :
      (port x : ℕ) (l used : List ℕ)
      → check x ≡ true
      → search_loop check port (x ∷ l) used
        ≡ record { port = x; found = true; available = l; used = set_insert x used }
  unfolding search_loop
  search_hit port x l used free = rw free

  search_miss :
      (port x : ℕ) (l used : List ℕ)
      → check x ≡ false
      → search_loop check port (x ∷ l) used ≡ search_loop check x l (set_insert x used)
  unfolding search_loop
  search_miss port x l used busy = rw busy

  -- The port that is found passes the check, was among the ports, and is in use behind the search.
  abbrev Finds : List ℕ → Search → Type 0
  Finds l s =
      (check s.port ≡ true)
      × (count s.port l ≡ 1)
      × (count s.port s.available ≡ 0)
      × (count s.port s.used ≡ 1)

  search_loop-found :
      (port : ℕ) (l used : List ℕ)
      → ((q : ℕ) → count q l + count q used ≤ 1)
      → (search_loop check port l used).found ≡ true
      → Finds l (search_loop check port l used)
  search_loop-found port [] used h e = unfold search_loop in cc
  search_loop-found port (x ∷ l) used h e = elim (Bool-cases (check x)) [
    | inl free ↦
        subst (Finds (x ∷ l)) (sym (search_hit port x l used free))
          (free, first, absent.1, omega (arith, added x, absent, self))
    | inr busy ↦ subst (Finds (x ∷ l)) (sym (search_miss port x l used busy)) (
        widen (search_loop check x l (set_insert x used)) (
          search_loop-found x l (set_insert x used) later
            (subst (λ s. s.found ≡ true) (search_miss port x l used busy) e)))
  ]
    where
      self : ◌≡◌ {A = ℕ} (if x == x then 1 else 0) 1
      self = rw (eq_self x)

      absent : (count x used ≡ 0) × (count x l ≡ 0)
      absent = omega (arith, count-cons x x l, h x, self)

      first : count x (x ∷ l) ≡ 1
      first = omega (arith, count-cons x x l, self, absent)

      added : (q : ℕ) → count q (set_insert x used) ≡ (if q == x then 1 else 0) + count q used
      added q = count-set_insert q x used absent.0

      later : (q : ℕ) → count q l + count q (set_insert x used) ≤ 1
      later q = omega (arith, h q, added q, count-cons q x l)

      widen : (s : Search) → Finds l s → Finds (x ∷ l) s
      widen s f = (f.0, ground (arith, count-cons s.port x l, f, absent), f.2, f.3)

  -- Where none is found every port failed the check.
  search_loop-none :
      (port : ℕ) (l used : List ℕ)
      → let s = search_loop check port l used in
        s.found ≡ false → All (λ p. check p ≡ false) l × (s.available ≡ [])
  unfolding search_loop
  search_loop-none port [] used e = (tt, refl)
  search_loop-none port (x ∷ l) used e = ground (arith, search_loop-none x l (set_insert x used))

-- The hypothesis of the search, behind `refill`.
ready_exact :
    (m : PortManager)
    → IsExact m
    → (q : ℕ)
    → count q (refill m.available_ports m.ports_in_use).0
        + count q (refill m.available_ports m.ports_in_use).1
      ≤ 1
ready_exact m h q = omega (arith, h q, count-refill q m.available_ports m.ports_in_use)

count_one : (p q : ℕ) → count p (q ∷ []) ≡ (if p == q then 1 else 0)
unfolding count
count_one p q = omega arith

self : (q : ℕ) → ◌≡◌ {A = ℕ} (if q == q then 1 else 0) 1
self q = rw (eq_self q)

-- `get_udp_port` neither loses a port nor holds one twice, whether or not it finds one.
pub get_udp_port-held :
    (check : ℕ → Bool) (port p : ℕ) (m : PortManager)
    → IsExact m
    → held p (get_udp_port check port m).1 ≡ held p m
unfolding get_udp_port
get_udp_port-held check port p m h = ground (
  arith,
  search_loop-count check p port ready used (ready_exact m h),
  count-refill p m.available_ports m.ports_in_use,
  count-refill p (search_loop check port ready used).available
      (search_loop check port ready used).used,
)
  where
    ready : List ℕ
    ready = (refill m.available_ports m.ports_in_use).0

    used : List ℕ
    used = (refill m.available_ports m.ports_in_use).1

-- The port that `get_udp_port` returns passed the check, was held by the manager, and is then in
-- use and not available.
pub get_udp_port-found :
    (check : ℕ → Bool) (port : ℕ) (m : PortManager)
    → IsExact m
    → (get_udp_port check port m).0.found ≡ true
    → let (s, m') = get_udp_port check port m in
      (check s.port ≡ true)
      × (held s.port m ≡ 1)
      × (count s.port m'.available_ports ≡ 0)
      × (count s.port m'.ports_in_use ≡ 1)
unfolding get_udp_port
get_udp_port-found check port m h e = ground (
  arith,
  search_loop-found check port ready used (ready_exact m h),
  search_loop-count check (search_loop check port ready used).port port ready used
      (ready_exact m h),
  count-refill (search_loop check port ready used).port m.available_ports m.ports_in_use,
)
  where
    ready : List ℕ
    ready = (refill m.available_ports m.ports_in_use).0

    used : List ℕ
    used = (refill m.available_ports m.ports_in_use).1

-- Where `get_udp_port` returns false every candidate failed the check, and then no port is in use:
-- all ports that the manager holds are available again.
pub get_udp_port-none :
    (check : ℕ → Bool) (port : ℕ) (m : PortManager)
    → (get_udp_port check port m).0.found ≡ false
    → All (λ p. check p ≡ false) (candidates m) × ((get_udp_port check port m).1.ports_in_use ≡ [])
unfolding get_udp_port refill
get_udp_port-none check port m e = ground (
  arith,
  search_loop-none check port (refill m.available_ports m.ports_in_use).0
      (refill m.available_ports m.ports_in_use).1,
)

-- `release_port` succeeds exactly on the ports in use, adds the port to the available ones where it
-- succeeds, and holds every port as often as before.
pub release_port-held :
    (q p : ℕ) (m : PortManager)
    → ((release_port q m).0 ≡ contains q m.ports_in_use)
      × (held p (release_port q m).1 ≡ held p m)
      × (count q (release_port q m).1.available_ports
          ≡ count q m.available_ports + (if (release_port q m).0 then 1 else 0))
unfolding release_port
release_port-held q p m = elim (Bool-cases (contains q m.ports_in_use)) [
  | inl used ↦ rw used (
    refl,
    omega (
      arith,
      count-append p m.available_ports (q ∷ []),
      count-set_erase p q m.ports_in_use used,
      count_one p q,
    ),
    omega (arith, count-append q m.available_ports (q ∷ []), count_one q q, self q),
  )
  | inr unused ↦ rw unused (refl, refl, omega arith)
]
