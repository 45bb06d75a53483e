-- ===== src/Jpeg/Frame.antt =====
-- The rectangle against the frame: where it lies, which bytes are compared, which never are.
use encoder_with_web_socket.Prelude.{
  ℕ, zero, suc, ◌+◌, ◌-◌, ◌*◌, ◌≤◌, ◌<◌, ◌≡◌, refl, ap, ◌⊎◌, inl, inr, true, false, not, arith,
  ℕ_discrete, Bool-cases, get_elem?,
}
use encoder_with_web_socket.Jpeg.{
  Bytes, Region, same_byte_refl, same_bytes, differs, mark, visit, is_last, fresh_region, scan_row,
  scan_rows, changed_region,
}

-- Nothing found yet, or a rectangle of the frame, its last column and row included.
abbrev Within : ℕ → ℕ → Region → Type 0
Within w h r =
    (r ≡ fresh_region w h)
    ⊎ ((r.is_changed ≡ true)
        × (r.min_x ≤ r.max_x)
        × (r.max_x < w)
        × (r.min_y ≤ r.max_y)
        × (r.max_y < h))

module _ (prev cur : Bytes) (width height : ℕ) where
  visit-Within :
      (i j : ℕ) (r : Region)
      → i < height
      → j < width
      → Within width height r
      → Within width height (visit prev cur width i j r)
  unfolding visit mark
  visit-Within i j r hi hj v = elim (Bool-cases (differs prev cur width i j)) [
    | inl d ↦ rw d (inr (mark-within v))
    | inr d ↦ rw d v
  ]
    where
      mark-within :
          Within width height r
          → let m = mark r i j in
            (m.is_changed ≡ true)
            × (m.min_x ≤ m.max_x)
            × (m.max_x < width)
            × (m.min_y ≤ m.max_y)
            × (m.max_y < height)
      mark-within (inl e) = rw e (ground arith)
      mark-within (inr p) = ground arith

  row-Within :
      (i j n : ℕ) (r : Region)
      → i < height
      → j + n ≤ width
      → Within width height r
      → Within width height (scan_row prev cur width height i j n r)
  unfolding scan_row
  row-Within i j zero r hi hj v = v
  row-Within i j (suc n) r hi hj v = elim (Bool-cases (is_last width height i j)) [
    | inl l ↦ rw l v
    | inr l ↦
        rw l (row-Within i (j + 1) n _ hi (omega arith) (visit-Within i j r hi (omega arith) v))
  ]

  rows-Within :
      (i n : ℕ) (r : Region)
      → i + n ≤ height
      → Within width height r
      → Within width height (scan_rows prev cur width height i n r)
  unfolding scan_rows
  rows-Within i zero r h v = v
  rows-Within i (suc n) r h v =
      rows-Within (i + 1) n _ (omega arith) (row-Within i 0 width r (omega arith) (omega arith) v)

  -- A changed frame is compressed in a rectangle that is not empty and lies in the frame.
  pub changed_region_bounds :
      let r = changed_region prev cur width height in
      r.is_changed ≡ true
      → (r.min_x < r.max_x) × (r.max_x ≤ width) × (r.min_y < r.max_y) × (r.max_y ≤ height)
  unfolding changed_region
  changed_region_bounds c =
      bounds (rows-Within 0 height (fresh_region width height) (omega arith) (inl refl)) c
    where
      bounds :
          {r : Region}
          → Within width height r
          → r.is_changed ≡ true
          → (r.min_x < r.max_x + 1)
            × (r.max_x + 1 ≤ width)
            × (r.min_y < r.max_y + 1)
            × (r.max_y + 1 ≤ height)
      bounds (inl e) k = ground arith
      bounds (inr p) k = omega (arith, p)

  -- No compared pixel differs.
  abbrev pub AllSame : Type 0
  AllSame =
      (i j : ℕ)
      → i < height
      → j < width
      → is_last width height i j ≡ false
      → differs prev cur width i j ≡ false

  row-same :
      (i j n : ℕ) (r : Region)
      → AllSame
      → i < height
      → j + n ≤ width
      → scan_row prev cur width height i j n r ≡ r
  unfolding scan_row visit
  row-same i j zero r all hi hj = refl
  row-same i j (suc n) r all hi hj = elim (Bool-cases (is_last width height i j)) [
    | inl l ↦ rw l
    | inr l ↦ rw (l, all i j hi (omega arith) l) (row-same i (j + 1) n r all hi (omega arith))
  ]

  rows-same :
      (i n : ℕ) (r : Region) → AllSame → i + n ≤ height → scan_rows prev cur width height i n r ≡ r
  unfolding scan_rows
  rows-same i zero r all h = refl
  rows-same i (suc n) r all h =
      rw (row-same i 0 width r all (omega arith) (omega arith))
        (rows-same (i + 1) n r all (omega arith))

  -- If no compared pixel differs, the frame counts as unchanged.
  changed_region-same : AllSame → (changed_region prev cur width height).is_changed ≡ false
  unfolding changed_region
  changed_region-same all = rw (rows-same 0 height (fresh_region width height) all (omega arith))

same_bytes-agree :
    (prev cur : Bytes) (i n m : ℕ)
    → ((k : ℕ) → k < m → get_elem? prev k ≡ get_elem? cur k)
    → i + n ≤ m
    → same_bytes prev cur i n ≡ true
unfolding same_bytes
same_bytes-agree prev cur i zero m h b = refl
same_bytes-agree prev cur i (suc n) m h b =
    rw (h i (omega arith), same_byte_refl (get_elem? cur i))
      (same_bytes-agree prev cur (i + 1) n m h (omega arith))

times_mono : (a b w : ℕ) → a ≤ b → a * w ≤ b * w
times_mono a b w h = grind arith

-- The four bytes that are compared at a pixel lie in the frame, before its last two bytes.
compared_in_frame :
    (w h i j : ℕ) → i < h → j < w → is_last w h i j ≡ false → i * w * 3 + j * 3 + 4 + 2 ≤ h * w * 3
compared_in_frame w h i j hi hj l = elim (ℕ_discrete i (h - 1)) [
  | yes bottom ↦
      let j_inner : j + 2 ≤ w = ground arith in
      let rows : i + 1 ≡ h = omega arith in
      let bytes : (i + 1) * w ≡ h * w = ap (λ (t : ℕ). t * w) rows in omega arith
  | no inner ↦ let rows : (i + 2) * w ≤ h * w = times_mono (i + 2) h w (omega arith) in omega arith
]

-- A change in nothing but the last two bytes of a frame is never sent: its last pixel's green and blue.
pub changed_region-misses :
    (prev cur : Bytes) (w h : ℕ)
    → ((k : ℕ) → k + 2 < h * w * 3 → get_elem? prev k ≡ get_elem? cur k)
    → (changed_region prev cur w h).is_changed ≡ false
changed_region-misses prev cur w h agree = changed_region-same prev cur w h λ i j hi hj l. ap not (
    same_bytes-agree prev cur (i * w * 3 + j * 3) 4 (h * w * 3 - 2) (λ k b. agree k (omega arith))
      (omega (arith, compared_in_frame w h i j hi hj l)))
