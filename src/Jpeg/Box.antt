-- ===== src/Jpeg/Box.antt =====
-- The rectangle that `compressJpegLoop` finds: it covers what has changed, and lies in the frame.
use encoder_with_web_socket.Prelude.{
  ℕ, zero, suc, ◌+◌, ◌≤◌, ◌<◌, ◌≡◌, ap, inl, inr, true, false, arith, ℕ_discrete, Bool-cases,
}
use encoder_with_web_socket.Jpeg.{
  Bytes, Region, differs, mark, visit, is_last, fresh_region, scan_row, scan_rows, changed_region,
}

-- The pixel in row `i` and column `j` lies in the region, as the loop keeps it.
record Covers (r : Region) (i j : ℕ) : Type 0 where
  left : r.min_x ≤ j
  right : j ≤ r.max_x
  top : r.min_y ≤ i
  bottom : i ≤ r.max_y
  found : r.is_changed ≡ true

module _ (prev cur : Bytes) (width height : ℕ) where
  visit-Covers_old :
      (i j a b : ℕ) (r : Region) → Covers r a b → Covers (visit prev cur width i j r) a b
  unfolding visit mark
  visit-Covers_old i j a b r c = elim (Bool-cases (differs prev cur width i j)) [
    | inl d ↦ rw d (ground arith)
    | inr d ↦ rw d c
  ]

  visit-Covers_new :
      (i j : ℕ) (r : Region)
      → differs prev cur width i j ≡ true
      → Covers (visit prev cur width i j r) i j
  unfolding visit mark
  visit-Covers_new i j r d = rw d (ground arith)

  row-Covers_old :
      (i j n a b : ℕ) (r : Region)
      → Covers r a b
      → Covers (scan_row prev cur width height i j n r) a b
  unfolding scan_row
  row-Covers_old i j zero a b r c = c
  row-Covers_old i j (suc n) a b r c = elim (Bool-cases (is_last width height i j)) [
    | inl l ↦ rw l c
    | inr l ↦ rw l (row-Covers_old i (j + 1) n a b _ (visit-Covers_old i j a b r c))
  ]

  row-Covers_new :
      (i j n b : ℕ) (r : Region)
      → j + n ≡ width
      → j ≤ b
      → b < width
      → is_last width height i b ≡ false
      → differs prev cur width i b ≡ true
      → Covers (scan_row prev cur width height i j n r) i b
  unfolding scan_row
  row-Covers_new i j zero b r e h k l d = absurd (omega arith)
  row-Covers_new i j (suc n) b r e h k l d = elim (ℕ_discrete j b) [
    | yes here ↦
        rw (ap (is_last width height i) here, l)
          (row-Covers_old i (j + 1) n i b _ (rw here (visit-Covers_new i b r d)))
    | no later ↦ elim (Bool-cases (is_last width height i j)) [
      | inl stop ↦ absurd (ground arith)
      | inr go ↦ rw go (row-Covers_new i (j + 1) n b _ (omega arith) (omega arith) k l d)
    ]
  ]

  rows-Covers_old :
      (i n a b : ℕ) (r : Region) → Covers r a b → Covers (scan_rows prev cur width height i n r) a b
  unfolding scan_rows
  rows-Covers_old i zero a b r c = c
  rows-Covers_old i (suc n) a b r c =
      rows-Covers_old (i + 1) n a b _ (row-Covers_old i 0 width a b r c)

  rows-Covers_new :
      (i n a b : ℕ) (r : Region)
      → i ≤ a
      → a < i + n
      → b < width
      → is_last width height a b ≡ false
      → differs prev cur width a b ≡ true
      → Covers (scan_rows prev cur width height i n r) a b
  unfolding scan_rows
  rows-Covers_new i zero a b r h k w l d = absurd (omega arith)
  rows-Covers_new i (suc n) a b r h k w l d = elim (ℕ_discrete i a) [
    | yes here ↦
        rows-Covers_old (i + 1) n a b _
          (rw here (row-Covers_new a 0 width b r (omega arith) (omega arith) w l d))
    | no later ↦ rows-Covers_new (i + 1) n a b _ (omega arith) (omega arith) w l d
  ]

  -- Every pixel but the last whose four bytes differ makes the frame a changed one, and lies in the
  -- rectangle that is compressed.
  pub changed_region-covers :
      (i j : ℕ)
      → i < height
      → j < width
      → is_last width height i j ≡ false
      → differs prev cur width i j ≡ true
      → let r = changed_region prev cur width height in
        (r.is_changed ≡ true) × (r.min_x ≤ j) × (j < r.max_x) × (r.min_y ≤ i) × (i < r.max_y)
  unfolding changed_region
  changed_region-covers i j h w l d =
      let c =
        rows-Covers_new 0 height i j (fresh_region width height) (omega arith) (omega arith) w l
          d in
      (c.found, c.left, omega (arith, c.right), c.top, omega (arith, c.bottom))
