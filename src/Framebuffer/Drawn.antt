-- ===== src/Framebuffer/Drawn.antt =====
-- What a row of the icon leaves on the screen, byte by byte.
use titanium.Base.{ℕ, zero, suc, ◌+◌, ◌-◌, ◌*◌, ◌/◌, ◌%◌, ◌^◌, ◌≤◌, ◌<◌, ◌≡◌, refl, sym, ap, ◌∙◌}
use titanium.Base.{ltb, if◌then◌else◌, arith, inl, inr, ◌⊎◌, lt→ltb, le→leb}
use titanium.Madt.Layout.{u32_at}
use titanium.Framebuffer.Galley.{Framebuffer}
use titanium.Framebuffer.Icon.{icon_height, write_u32, px_data, draw_icon_row}

-- A pixel of the icon is four bytes; red and blue change places on the screen.
abbrev pub swapped : ℕ → ℕ
swapped k = if ltb k 3 then 2 - k else k

write_u32-inside :
    (p value : ℕ) (mem : ℕ → ℕ) (k : ℕ)
    → k < 4
    → write_u32 p value mem (p + k) ≡ value / 2 ^ (8 * k) % 256
unfolding write_u32
write_u32-inside p value mem k small =
    let same : p + k - p ≡ k = omega arith in
    rw (le→leb p (p + k) (omega arith), lt→ltb (p + k) (p + 4) (omega arith))
      (ap (λ j. value / 2 ^ (8 * j) % 256) same)

write_u32-outside :
    (p value : ℕ) (mem : ℕ → ℕ) (q : ℕ) → (q < p) ⊎ (p + 4 ≤ q) → write_u32 p value mem q ≡ mem q
unfolding write_u32
write_u32-outside p value mem q apart = ground arith

-- The channels of a pixel, by its byte.
abbrev channel : ℕ → ℕ → ℕ → ℕ → ℕ → ℕ
channel r g b a zero = r
channel r g b a (suc zero) = g
channel r g b a (suc (suc zero)) = b
channel r g b a (suc (suc (suc k))) = a

px_data-channels :
    (r g b a k : ℕ)
    → r < 256
    → g < 256
    → b < 256
    → a < 256
    → k < 4
    → px_data (r + 2 ^ 8 * g + 2 ^ 16 * (b + 2 ^ 8 * a)) / 2 ^ (8 * k) % 256 ≡ channel b g r a k
unfolding px_data
px_data-channels r g b a zero lr lg lb la small = omega arith
px_data-channels r g b a (suc zero) lr lg lb la small = omega arith
px_data-channels r g b a (suc (suc zero)) lr lg lb la small = omega arith
px_data-channels r g b a (suc (suc (suc zero))) lr lg lb la small = omega arith
px_data-channels r g b a (suc (suc (suc (suc k)))) lr lg lb la small = absurd (omega arith)

module _ (icon : ℕ → ℕ) (bytes : (i : ℕ) → icon i < 256) where
  swapped-channel :
      (i k : ℕ)
      → k < 4
      → channel (icon (i + 2)) (icon (i + 1)) (icon i) (icon (i + 2 + 1)) k ≡ icon (i + swapped k)
  swapped-channel i zero small = refl
  swapped-channel i (suc zero) small = refl
  swapped-channel i (suc (suc zero)) small = let e : i ≡ i + 0 = omega arith in ap icon e
  swapped-channel i (suc (suc (suc zero))) small =
      let e : i + 2 + 1 ≡ i + 3 = omega arith in ap icon e
  swapped-channel i (suc (suc (suc (suc k)))) small = absurd (omega arith)

  px_data-u32_at :
      (i k : ℕ) → k < 4 → px_data (u32_at icon i) / 2 ^ (8 * k) % 256 ≡ icon (i + swapped k)
  px_data-u32_at i k small =
      px_data-channels (icon i) (icon (i + 1)) (icon (i + 2)) (icon (i + 2 + 1)) k (bytes i)
        (bytes (i + 1)) (bytes (i + 2)) (bytes (i + 2 + 1)) small
      ∙ swapped-channel i k small

  module _ (address : ℕ) (framebuffer : Framebuffer) where
    -- A row: each byte of the columns drawn, and nothing else.
    pub draw_icon_row_lem :
        (n x y sx row : ℕ) (mem : ℕ → ℕ)
        → ((c k : ℕ)
            → x ≤ c
            → c < x + n
            → k < 4
            → draw_icon_row icon address framebuffer n x y sx row mem (row + 4 * (sx + c) + k)
              ≡ icon (4 * (c + y * icon_height) + swapped k))
          × ((q : ℕ)
              → (q < row + 4 * (sx + x)) ⊎ (row + 4 * (sx + (x + n)) ≤ q)
              → draw_icon_row icon address framebuffer n x y sx row mem q ≡ mem q)
    unfolding draw_icon_row
    draw_icon_row_lem zero x y sx row mem = (λ c k a b l. absurd (omega arith), λ q apart. refl)
    draw_icon_row_lem (suc n) x y sx row mem =
        let p = row + 4 * (sx + x) in
        let value = px_data (u32_at icon (4 * (x + y * icon_height))) in
        let (drawn, same) = draw_icon_row_lem n (suc x) y sx row (write_u32 p value mem) in
        (
          λ c k a b l. elim (here_or_later c a) [
            | inl h ↦
                let first : row + 4 * (sx + c) + k ≡ p + k =
                  ap (λ j. row + 4 * (sx + j) + k) (sym h) in
                same (row + 4 * (sx + c) + k) (inl (omega arith))
                ∙ ap (write_u32 p value mem) first
                ∙ write_u32-inside p value mem k l
                ∙ px_data-u32_at (4 * (x + y * icon_height)) k l
                ∙ ap (λ j. icon (4 * (j + y * icon_height) + swapped k)) h
            | inr h ↦ drawn c k h (omega arith) l
          ],
          λ q apart. same q (beyond q apart) ∙ write_u32-outside p value mem q (besides q apart),
        )
      where
        here_or_later : (c : ℕ) → x ≤ c → (x ≡ c) ⊎ (suc x ≤ c)
        here_or_later c a = ground arith

        beyond :
            (q : ℕ)
            → (q < row + 4 * (sx + x)) ⊎ (row + 4 * (sx + (x + suc n)) ≤ q)
            → (q < row + 4 * (sx + suc x)) ⊎ (row + 4 * (sx + (suc x + n)) ≤ q)
        beyond q (inl a) = inl (omega arith)
        beyond q (inr a) = inr (omega arith)

        besides :
            (q : ℕ)
            → (q < row + 4 * (sx + x)) ⊎ (row + 4 * (sx + (x + suc n)) ≤ q)
            → (q < row + 4 * (sx + x)) ⊎ (row + 4 * (sx + x) + 4 ≤ q)
        besides q (inl a) = inl a
        besides q (inr a) = inr (omega arith)
