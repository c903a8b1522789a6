-- ===== src/TcpServer/Slots.antt =====
-- The slot table of app/src/tcp_server.c: what the two searches do to the active descriptors.
use zephyr_development.Prelude.{
  ℕ, ◌+◌, ◌≡◌, refl, Bool, true, false, ◌&&◌, ◌||◌, Option, none, some, List, [], ◌∷◌, arith, ◌==◌,
  if◌then◌else◌, length, Bool-cases, inl, inr,
}
use zephyr_development.TcpServer.{Slot, deactivate, activate, active_fds}

-- Whether a slot holds the descriptor as active.
abbrev pub has_active : ℕ → List Slot → Bool
has_active fd [] = false
has_active fd (s ∷ ss) = (s.active && (s.fd == fd)) || has_active fd ss

-- A slot's descriptor, active or left over, is not active in a later slot.
abbrev pub IsGood : List Slot → Type 0
IsGood [] = Unit
IsGood (s ∷ ss) = (has_active s.fd ss ≡ false) × IsGood ss

-- `activate` on a table that does not hold the descriptor.
pub record Activated (fd : ℕ) (ss ss' : List Slot) : Type 0 where
  pub good : IsGood ss'
  pub count : length (active_fds ss') ≡ length (active_fds ss) + 1
  pub total : length ss' ≡ length ss
  pub holds : (x : ℕ) → has_active x ss' ≡ ((fd == x) || has_active x ss)

abbrev pub AfterActivate : ℕ → List Slot → Option (List Slot) → Type 0
AfterActivate fd ss none = length (active_fds ss) ≡ length ss
AfterActivate fd ss (some ss') = Activated fd ss ss'

activate_free :
    (fd : ℕ) (s : Slot) (ss : List Slot)
    → IsGood (s ∷ ss)
    → has_active fd (s ∷ ss) ≡ false
    → s.active ≡ false
    → Activated fd (s ∷ ss) (record { fd = fd; active = true } ∷ ss)
activate_free fd s ss g h e = record {
  good = ground arith;
  count = ground arith;
  total = refl;
  holds = λ x. ground arith;
}

activate_taken :
    (fd : ℕ) (s : Slot) (ss : List Slot) (o : Option (List Slot))
    → IsGood (s ∷ ss)
    → has_active fd (s ∷ ss) ≡ false
    → s.active ≡ true
    → AfterActivate fd ss o
    → AfterActivate fd (s ∷ ss) (elim o [ none ↦ none | some ss' ↦ some (s ∷ ss') ])
activate_taken fd s ss none g h e a = ground arith
activate_taken fd s ss (some ss') g h e a = record {
  good = ground (arith, a.holds s.fd);
  count = ground arith;
  total = omega arith;
  holds = λ x. ground (arith, a.holds x);
}

pub activate-Activated :
    (fd : ℕ) (ss : List Slot)
    → IsGood ss
    → has_active fd ss ≡ false
    → AfterActivate fd ss (activate fd ss)
unfolding activate
activate-Activated fd [] g h = refl
activate-Activated fd (s ∷ ss) g h =
    let ih = activate-Activated fd ss g.1 (ground arith) in
    elim (Bool-cases s.active) [
      | inl e ↦ simp e (activate_taken fd s ss (activate fd ss) g h e ih)
      | inr e ↦ simp e (activate_free fd s ss g h e)
    ]

pub record Deactivated (fd : ℕ) (ss ss' : List Slot) : Type 0 where
  pub good : IsGood ss'
  pub count : length (active_fds ss') + 1 ≡ length (active_fds ss)
  pub total : length ss' ≡ length ss
  pub holds : (x : ℕ) → has_active x ss' ≡ (if fd == x then false else has_active x ss)

pub deactivate-Deactivated :
    (fd : ℕ) (ss : List Slot)
    → IsGood ss
    → has_active fd ss ≡ true
    → (ss' : List Slot) × (deactivate fd ss ≡ some ss') × Deactivated fd ss ss'
unfolding deactivate
deactivate-Deactivated fd [] g h = cc
deactivate-Deactivated fd (s ∷ ss) g h = elim (Bool-cases (s.fd == fd)) [
  | inl e ↦ (
    record s { active = false } ∷ ss,
    rw e refl,
    record { good = g; count = ground arith; total = refl; holds = λ x. ground arith },
  )
  | inr e ↦
      let (ss', found, d) = deactivate-Deactivated fd ss g.1 (ground arith) in
      (
        s ∷ ss',
        rw (e, found) refl,
        record {
          good = ground (arith, d.holds s.fd);
          count = ground arith;
          total = omega arith;
          holds = λ x. ground (arith, d.holds x);
        },
      )
]
