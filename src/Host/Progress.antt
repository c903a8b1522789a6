-- ===== src/Host/Progress.antt =====
-- `print_progress` of host-dfu-app/tcp_client.c and host-dfu-app/dfu_host.c.
pub mod Printed
use native.Mathlib.Nat.{div-add-mod', mod-lt, mod-eq_of_lt, div-le_of_le-mul, mul-div_right}
use zephyr_development.Prelude.{
  ℕ, zero, suc, ◌+◌, ◌-◌, ◌*◌, ◌/◌, ◌%◌, ◌^◌, ◌≤◌, ◌<◌, ◌≡◌, ◌↔◌, ap, ◌∙◌, Option, none, some, List,
  [], ◌∷◌, ◌++◌, arith, ltb, ◌==◌, if◌then◌else◌, replicate, Bool-cases, inl, inr,
}

-- The line printed: the fifty characters between the brackets, and the three numbers behind them.
pub record Line : Type 0 where
  pub bar : List ℕ
  pub pct : ℕ
  pub done : ℕ
  pub total : ℕ

-- The loop from `i` on, with `left` rounds to go.
unfoldable pub bar_from : ℕ → ℕ → ℕ → List ℕ
bar_from bars zero i = []
bar_from bars (suc left) i = (if ltb i bars then b'#' else b' ') ∷ bar_from bars left (i + 1)

-- `size_t` has 64 bits. None is the division by a total of 0.
unfoldable pub print_progress : ℕ → ℕ → Option Line
unfolding bar_from
print_progress done total =
    let pct = (done * 100) % 2 ^ 64 / total in
    if total == 0
    then none
    else some (record { bar = bar_from (pct / 2) 50 0; pct = pct; done = done; total = total })

bar_from_lem :
    (bars left i : ℕ)
    → bars ≤ i + left
    → bar_from bars left i ≡ replicate (bars - i) b'#' ++ replicate (left - (bars - i)) b' '
unfolding bar_from
bar_from_lem bars zero i h = ground arith
bar_from_lem bars (suc left) i h = elim (Bool-cases (ltb i bars)) [
  | inl e ↦
      let more : bars - i ≡ suc (bars - (i + 1)) = ground arith in
      let spaces : suc left - suc (bars - (i + 1)) ≡ left - (bars - (i + 1)) = omega arith in
      rw (e, more, spaces) (ap (◌∷◌ b'#') (bar_from_lem bars left (i + 1) (omega arith)))
  | inr e ↦
      let none_left : bars - i ≡ 0 = ground arith in
      let none_next : bars - (i + 1) ≡ 0 = ground arith in
      let rest = rw none_next at (bar_from_lem bars left (i + 1) (omega arith)) in
      let spaces : suc left - 0 ≡ suc (left - 0) = omega arith in
      rw (e, none_left, spaces) (ap (◌∷◌ b' ') rest)
]

-- The percentage of a total, and the product that is divided.
abbrev pub percent : ℕ → ℕ → ℕ
percent done total = done * 100 / total

percent_bound : (done total : ℕ) → 0 < total → done ≤ total → percent done total ≤ 100
percent_bound done total positive h = div-le_of_le-mul total (omega arith)

percent_full :
    (done total : ℕ) → 0 < total → done ≤ total → (percent done total ≡ 100) ↔ (done ≡ total)
percent_full done total positive h = (
  λ e.
      let split = div-add-mod' (done * 100) total in
      let product = ap (λ p. p * total) e in
      omega (arith, split, product, mod-lt (done * 100) positive),
  λ e. ap (λ d. percent d total) e ∙ mul-div_right 100 positive,
)

-- For a total above 0 of which a hundred times fits 64 bits, and a part of it, the progress line
-- shows the percentage rounded down, at most 100 and 100 exactly at the end, and a bar of fifty
-- characters of which half as many as the percentage, rounded down, are marks, at the front.
pub print_progress_lem :
    (done total : ℕ)
    → 0 < total
    → done ≤ total
    → total * 100 < 2 ^ 64
    → (pct : ℕ) × (print_progress done total
        ≡ some (record {
          bar = replicate (pct / 2) b'#' ++ replicate (50 - pct / 2) b' ';
          pct = pct;
          done = done;
          total = total;
        }))
      × (pct ≤ 100)
      × (pct * total ≤ done * 100)
      × (done * 100 < pct * total + total)
      × ((pct ≡ 100) ↔ (done ≡ total))
unfolding print_progress
print_progress_lem done total positive h fits =
    let pct = percent done total in
    let wrap : (done * 100) % 2 ^ 64 ≡ done * 100 = mod-eq_of_lt (omega arith) in
    let split = div-add-mod' (done * 100) total in
    let bound = percent_bound done total positive h in
    let bar = bar_from_lem (pct / 2) 50 0 (omega arith) in
    (
      pct,
      rw (wrap, print_progress, bar) (ground (arith, positive)),
      bound,
      omega (arith, split),
      omega (arith, split, mod-lt (done * 100) positive),
      percent_full done total positive h,
    )
