-- ===== src/Host/Download.antt =====
-- The download loops against their reference: send the chunks in order, and stop at a failure.
use zephyr_development.Prelude.{
  ℕ, zero, suc, ◌+◌, ◌-◌, ◌≤◌, ◌<◌, ◌≡◌, refl, sym, ap, ◌∙◌, some, List, [], ◌∷◌, ◌++◌, ℤ, pos, neg,
  is_zero, Io, arith, ltb, if◌then◌else◌, length, take, drop, Bool-cases, inl, inr, drop-drop,
  length-drop, take_clip, drop_clip,
}
use zephyr_development.Host.{
  SendAndAck, start_cmd, download_cmd, end_cmd, download_from, dfu_download, dfu_sequence,
}
use mathlib.Core.List.{map}
use zephyr_development.Host.Chunks.{chunks, chunks_of, chunks_of_fuel}

-- A command and its data.
abbrev pub Request : Type 0
Request = ℕ × List ℕ

abbrev pub download_requests : List (List ℕ) → List Request
download_requests = map (λ c. (download_cmd, c))

-- The requests of a whole update.
abbrev pub requests : ℕ → List ℕ → List Request
requests k fw = (start_cmd, []) ∷ (download_requests (chunks k fw) ++ (end_cmd, []) ∷ [])

module _ {W : Type 0} (send_and_ack : SendAndAck W) where
  -- Sends the requests in order while each is acknowledged.
  unfoldable pub send_all : List Request → Io W ℤ
  send_all [] w = (pos 0, w)
  send_all ((cmd, body) ∷ rs) w =
      let sent = send_and_ack cmd (cmd ∷ body) w in
      let rest = send_all rs sent.1 in if is_zero sent.0 then rest else (neg 1, sent.1)

  pub send_all-append :
      (ps qs : List Request) (w : W)
      → send_all (ps ++ qs) w
        ≡ (let r = send_all ps w in if is_zero r.0 then send_all qs r.1 else r)
  unfolding send_all
  send_all-append [] qs w = refl
  send_all-append ((cmd, body) ∷ ps) qs w =
      ground (arith, send_all-append ps qs (send_and_ack cmd (cmd ∷ body) w).1)

  -- What every packet keeps, the whole run keeps.
  pub send_all_inv {κ} :
      (P : W → Type κ)
      → ((cmd : ℕ) (pkt : List ℕ) (w : W) → P w → P (send_and_ack cmd pkt w).1)
      → (rs : List Request) (w : W) → P w
      → P (send_all rs w).1
  unfolding send_all
  send_all_inv P keep [] w h = h
  send_all_inv P keep ((cmd, body) ∷ rs) w h =
      let h' = keep cmd (cmd ∷ body) w h in
      elim (Bool-cases (is_zero (send_and_ack cmd (cmd ∷ body) w).0)) [
        | inl e ↦ rw e (send_all_inv P keep rs (send_and_ack cmd (cmd ∷ body) w).1 h')
        | inr e ↦ rw e h'
      ]

  module _ (k : ℕ) (positive : 0 < k) (fw : List ℕ) where
    clip_bounds :
        (left : ℕ) → 0 < left → let c = if ltb k left then k else left in (0 < c) × (c ≤ left)
    clip_bounds left h = ground arith

    -- With enough fuel the loop ends, and does what its reference does.
    download_from_lem :
        (fuel offset : ℕ) (w : W) (rest : List ℕ)
        → drop offset fw ≡ rest
        → offset ≤ length fw
        → length fw - offset < fuel
        → download_from send_and_ack k fw fuel offset w
          ≡ (let r = send_all (download_requests (chunks_of k fuel rest)) w in (some r.0, r.1))
    unfolding download_from send_all chunks_of
    download_from_lem zero offset w rest e h lt = absurd (omega arith)
    download_from_lem (suc fuel) offset w [] e h lt =
        ground (arith, length-drop offset fw, ap length e)
    download_from_lem (suc fuel) offset w (y ∷ ys) e h lt =
        let left = length fw - offset in
        let c = if ltb k left then k else left in
        let size : length (y ∷ ys) ≡ left = omega (arith, length-drop offset fw, ap length e) in
        let taken : take c (drop offset fw) ≡ take k (y ∷ ys) =
          rw e (take_clip left k (y ∷ ys) size) in
        let dropped : drop (offset + c) fw ≡ drop k (y ∷ ys) =
          sym (drop-drop c offset fw) ∙ ap (drop c) e ∙ drop_clip left k (y ∷ ys) size in
        let bounds = clip_bounds left (omega arith) in
        let sent = send_and_ack download_cmd (download_cmd ∷ take k (y ∷ ys)) w in
        rw taken (
          ground (
            arith,
            download_from_lem fuel (offset + c) sent.1 (drop k (y ∷ ys)) dropped (omega arith)
                (omega arith),
          ))

    -- `dfu_download` always returns, and does what sending the chunks of the image in order until one
    -- fails does.
    pub dfu_download-send_all :
        (w : W)
        → dfu_download send_and_ack k fw w
          ≡ (let r = send_all (download_requests (chunks k fw)) w in (some r.0, r.1))
    unfolding dfu_download chunks
    dfu_download-send_all w =
        rw (download_from_lem (suc (length fw)) 0 w fw refl (omega arith) (omega arith)) (
          ap (λ cs. let r = send_all (download_requests cs) w in (some r.0, r.1))
            (chunks_of_fuel k positive (suc (length fw)) (length fw) fw (omega arith)
              (omega arith)))

    -- For a positive chunk size and any transport, the sequence always returns and does what
    -- sending START, the chunks of the image and END in order until one fails does.
    pub dfu_sequence-send_all :
        (w : W)
        → dfu_sequence send_and_ack k fw w ≡ (let r = send_all (requests k fw) w in (some r.0, r.1))
    unfolding dfu_sequence send_all
    dfu_sequence-send_all w =
        let started = send_and_ack start_cmd (start_cmd ∷ []) w in
        let loads = download_requests (chunks k fw) in
        let ends : List Request = (end_cmd, []) ∷ [] in
        ground (arith, dfu_download-send_all started.1, send_all-append loads ends started.1)
