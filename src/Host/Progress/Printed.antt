-- ===== src/Host/Progress/Printed.antt =====
-- The progress lines that `dfu_download` of host-dfu-app/tcp_client.c and host-dfu-app/dfu_host.c prints.
use zephyr_development.Prelude.{
  ℕ, zero, suc, ◌+◌, ◌-◌, ◌*◌, ◌^◌, ◌≤◌, ◌<◌, ◌≡◌, ◌↔◌, refl, Option, none, some, List, [], ◌∷◌,
  ◌++◌, ◌/◌, replicate, ℤ, pos, is_zero, arith, ltb, if◌then◌else◌, length, take, drop, Bool-cases,
  inl, inr,
}
use zephyr_development.Host.{SendAndAck, download_cmd, download_from, dfu_download}
use zephyr_development.Host.Progress.{Line, print_progress, print_progress_lem}

module _ {W : Type 0} (send_and_ack : SendAndAck W) where
  -- The lines of `download_from` with the same arguments, the first one first: one for each chunk that is
  -- acknowledged.
  unfoldable pub printed_from : ℕ → List ℕ → ℕ → ℕ → W → List (Option Line)
  printed_from chunk_size fw zero offset w = []
  printed_from chunk_size fw (suc fuel) offset w =
      let left = length fw - offset in
      let chunk = if ltb chunk_size left then chunk_size else left in
      let sent = send_and_ack download_cmd (download_cmd ∷ take chunk (drop offset fw)) w in
      let rest = printed_from chunk_size fw fuel (offset + chunk) sent.1 in
      if ltb offset (length fw)
      then (if is_zero sent.0 then print_progress (offset + chunk) (length fw) ∷ rest else [])
      else []

  -- The lines of `dfu_download`.
  unfoldable pub printed : ℕ → List ℕ → W → List (Option Line)
  printed chunk_size fw = printed_from chunk_size fw (suc (length fw)) 0

-- A line about a part of `total`: the percentage is rounded down and is 100 exactly at the last byte, and of the
-- fifty characters of the bar half as many as the percentage, rounded down, are marks, at the front.
pub record IsLine (total : ℕ) (l : Line) : Type 0 where
  pub whole : l.total ≡ total
  pub part : l.done ≤ total
  pub low : l.pct * total ≤ l.done * 100
  pub high : l.done * 100 < l.pct * total + total
  pub full : (l.pct ≡ 100) ↔ (l.done ≡ total)
  pub bar : l.bar ≡ replicate (l.pct / 2) b'#' ++ replicate (50 - l.pct / 2) b' '

-- No line divides by 0, and each shows more bytes than the one before.
abbrev pub IsRising : ℕ → ℕ → List (Option Line) → Type 0
IsRising before total [] = Unit
IsRising before total (none ∷ lines) = ⊥
IsRising before total (some l ∷ lines) =
    (before < l.done) × IsLine total l × IsRising l.done total lines

-- How many bytes the last line shows.
abbrev pub shown : ℕ → List (Option Line) → ℕ
shown before [] = before
shown before (none ∷ lines) = shown before lines
shown before (some l ∷ lines) = shown l.done lines

abbrev pub IsSuccess : Option ℤ → Type 0
IsSuccess r = r ≡ some (pos 0)

module _ {W : Type 0} (send_and_ack : SendAndAck W) (k : ℕ) (positive : 0 < k) (fw : List ℕ)
    (fits : length fw * 100 < 2 ^ 64) where
  abbrev IsShown : ℕ → List (Option Line) → Option ℤ → Type 0
  IsShown offset lines r =
      IsRising offset (length fw) lines × (IsSuccess r ↔ (shown offset lines ≡ length fw))

  IsShown-line :
      (before offset : ℕ) (lines : List (Option Line)) (r : Option ℤ)
      → before < offset
      → offset ≤ length fw
      → IsShown offset lines r
      → IsShown before (print_progress offset (length fw) ∷ lines) r
  IsShown-line before offset lines r more h s =
      let (pct, e, bound, low, high, full) =
        print_progress_lem offset (length fw) (omega arith) h fits in
      let line : IsLine (length fw) (record {
        bar = replicate (pct / 2) b'#' ++ replicate (50 - pct / 2) b' ';
        pct = pct;
        done = offset;
        total = length fw;
      }) =
        record { whole = refl; part = h; low = low; high = high; full = full; bar = refl } in
      rw e ((more, line, s.0), s.1)

  printed_from_lem :
      (fuel offset : ℕ) (w : W)
      → offset ≤ length fw
      → length fw - offset < fuel
      → IsShown offset
          (printed_from send_and_ack k fw fuel offset w)
          (download_from send_and_ack k fw fuel offset w).0
  unfolding printed_from download_from
  printed_from_lem zero offset w h lt = absurd (omega arith)
  printed_from_lem (suc fuel) offset w h lt =
      let left = length fw - offset in
      let chunk = if ltb k left then k else left in
      let sent = send_and_ack download_cmd (download_cmd ∷ take chunk (drop offset fw)) w in
      elim (Bool-cases (ltb offset (length fw))) [
        | inr e ↦ rw e (tt, ((λ s. ground arith), (λ s. refl)))
        | inl e ↦ elim (Bool-cases (is_zero sent.0)) [
          | inr bad ↦ rw (e, bad) (tt, ((λ s. cc), (λ s. absurd (ground arith))))
          | inl good ↦
              let size : (0 < chunk) × (chunk ≤ left) = ground arith in
              rw (e, good)
                (IsShown-line offset (offset + chunk) _ _ (omega arith) (omega arith)
                  (printed_from_lem fuel (offset + chunk) sent.1 (omega arith) (omega arith)))
        ]
      ]

  -- For an image of which a hundred times the size fits 64 bits, a positive chunk size and any
  -- transport, no progress line of the download loop divides by 0; each shows more bytes than the
  -- one before and at most all, the percentage rounded down, 100 exactly at the last byte, and a
  -- bar of fifty characters of which half as many as the percentage, rounded down, are marks, at
  -- the front; and the loop succeeds exactly if the last line, or 0 where there is none, shows all
  -- the bytes.
  pub printed_lem :
      (w : W)
      → IsRising 0 (length fw) (printed send_and_ack k fw w)
        × (IsSuccess (dfu_download send_and_ack k fw w).0
            ↔ (shown 0 (printed send_and_ack k fw w) ≡ length fw))
  unfolding printed dfu_download
  printed_lem w = printed_from_lem (suc (length fw)) 0 w (omega arith) (omega arith)
