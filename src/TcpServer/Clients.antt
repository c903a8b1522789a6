-- ===== src/TcpServer/Clients.antt =====
-- What the slot table of app/src/tcp_server.c promises: the clients, in no order and in no slots, at most
-- MAX_CLIENTS of them.
use mathlib.Core.Quot
use mathlib.Core.Quot.{Quot, Quot-set}
use native.Mathlib.Nat.{ℕ_set}
use zephyr_development.Prelude.{
  ℕ, ◌+◌, ◌-◌, ◌<◌, ◌≤◌, ◌≡◌, refl, Bool, true, false, ◌||◌, Option, none, some, List, [], ◌∷◌,
  arith, ltb, ◌==◌, if◌then◌else◌, length, min, Bool-cases, inl, inr,
}
use zephyr_development.TcpServer.{
  Slot, Server, Revents, max_clients, deactivate, activate, active_fds,
}
use zephyr_development.TcpServer.Slots.{has_active, IsGood}

abbrev pub count : ℕ → List ℕ → ℕ
count a [] = 0
count a (x ∷ xs) = (if x == a then 1 else 0) + count a xs

-- The same clients, each as often.
abbrev pub SameClients : List ℕ → List ℕ → Type 0
SameClients xs ys = ((a : ℕ) → count a xs ≡ count a ys) × (length xs ≡ length ys)

abbrev pub Clients : Type 0
Clients = Quot SameClients

abbrev pub size : Clients → ℕ
size = Quot.lift ℕ_set length (λ xs ys h. h.1)

abbrev pub put : ℕ → Clients → Clients
put x =
    Quot.lift Quot-set (λ xs. Quot.mk (x ∷ xs))
      (λ xs ys h. Quot.sound ((λ a. omega (arith, h.0 a)), omega (arith, h.1)))

abbrev pub without : ℕ → List ℕ → List ℕ
without x [] = []
without x (y ∷ ys) = let rest = without x ys in if y == x then ys else y ∷ rest

count-without :
    (a x : ℕ) (ys : List ℕ) → count a (without x ys) ≡ count a ys - (if x == a then 1 else 0)
count-without a x [] = omega arith
count-without a x (y ∷ ys) = ground (arith, count-without a x ys)

count_le : (a : ℕ) (ys : List ℕ) → count a ys ≤ length ys
count_le a [] = omega arith
count_le a (y ∷ ys) = ground (arith, count_le a ys)

length-without : (x : ℕ) (ys : List ℕ) → length (without x ys) ≡ length ys - min 1 (count x ys)
length-without x [] = omega arith
length-without x (y ∷ ys) = ground (arith, length-without x ys, count_le x ys)

pub SameClients-without :
    (x : ℕ) (xs ys : List ℕ) → SameClients xs ys → SameClients (without x xs) (without x ys)
SameClients-without x xs ys h = (
  (λ a. omega (arith, count-without a x xs, count-without a x ys, h.0 a)),
  omega (arith, length-without x xs, length-without x ys, h.0 x, h.1),
)

abbrev pub remove : ℕ → Clients → Clients
remove x =
    Quot.lift Quot-set (λ xs. Quot.mk (without x xs))
      (λ xs ys h. Quot.sound (SameClients-without x xs ys h))

-- A new client is taken while there is room.
abbrev pub admit : ℕ → Clients → Clients
admit fd clients = if ltb (size clients) max_clients then put fd clients else clients

-- A client goes when it hangs up or its stream ends.
abbrev pub is_gone : Revents → Option (List ℕ) → Bool
is_gone revents none = revents.pollhup
is_gone revents (some []) = revents.pollhup || revents.pollin
is_gone revents (some (b ∷ bytes)) = revents.pollhup

abbrev pub serve : ℕ → Revents → Option (List ℕ) → Clients → Clients
serve fd revents received clients = if is_gone revents received then remove fd clients else clients

-- The clients that the table holds.
abbrev pub clients : Server → Clients
clients server = Quot.mk (active_fds server.slots)

-- What `activate` does to the clients.
abbrev pub Joins : ℕ → List Slot → Option (List Slot) → Type 0
Joins fd ss none = length (active_fds ss) ≡ length ss
Joins fd ss (some ss') =
    (length (active_fds ss) < length ss) × SameClients (active_fds ss') (fd ∷ active_fds ss)

active_le : (ss : List Slot) → length (active_fds ss) ≤ length ss
active_le [] = omega arith
active_le (s ∷ ss) = ground (arith, active_le ss)

Joins-taken :
    (fd : ℕ) (s : Slot) (ss : List Slot) (o : Option (List Slot))
    → s.active ≡ true
    → Joins fd ss o
    → Joins fd (s ∷ ss) (elim o [ none ↦ none | some ss' ↦ some (s ∷ ss') ])
Joins-taken fd s ss none e j = ground arith
Joins-taken fd s ss (some ss') e j =
    (ground arith, ((λ a. ground (arith, j.1.0 a)), ground (arith, j.1.1)))

pub activate-Joins : (fd : ℕ) (ss : List Slot) → Joins fd ss (activate fd ss)
unfolding activate
activate-Joins fd [] = refl
activate-Joins fd (s ∷ ss) = elim (Bool-cases s.active) [
  | inl e ↦ simp e (Joins-taken fd s ss (activate fd ss) e (activate-Joins fd ss))
  | inr e ↦ simp e (ground (arith, active_le ss), ((λ a. ground arith), ground arith))
]

pub deactivate-without :
    (fd : ℕ) (ss : List Slot)
    → IsGood ss
    → has_active fd ss ≡ true
    → (ss' : List Slot) × (deactivate fd ss ≡ some ss')
      × SameClients (active_fds ss') (without fd (active_fds ss))
unfolding deactivate
deactivate-without fd [] g h = cc
deactivate-without fd (s ∷ ss) g h = elim (Bool-cases (s.fd == fd)) [
  | inl e ↦ (record s { active = false } ∷ ss, rw e refl, ((λ a. ground arith), ground arith))
  | inr e ↦
      let (ss', found, same) = deactivate-without fd ss g.1 (ground arith) in
      (s ∷ ss', rw (e, found) refl, ((λ a. ground (arith, same.0 a)), ground (arith, same.1)))
]
