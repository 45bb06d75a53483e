-- ===== src/Jpeg.antt =====
-- JpegCompressor.hpp and JpegCompressor.cpp: the loop that sends the changed part of the screen.
pub mod Box
pub mod Loop
pub mod Rounds
pub mod Numbers
pub mod Frame
pub mod Canvas
pub mod Threads
pub mod Failed
pub mod Viewer
pub mod Tests
pub mod ThreadTests
use encoder_with_web_socket.Prelude.{
  ℕ, zero, suc, ◌+◌, ◌-◌, ◌*◌, ◌≡◌, refl, Bool, true, false, not, ◌&&◌, Option, none, some, List,
  arith, ltb, ◌==◌, if◌then◌else◌, get_elem?,
}

abbrev pub Bytes : Type 0
Bytes = List ℕ

-- The variables `minX`, `minY`, `maxX`, `maxY` and `isChanged` of `compressJpegLoop`.
pub record Region : Type 0 where
  pub min_x : ℕ
  pub min_y : ℕ
  pub max_x : ℕ
  pub max_y : ℕ
  pub is_changed : Bool

abbrev pub same_byte : Option ℕ → Option ℕ → Bool
same_byte none none = true
same_byte none (some b) = false
same_byte (some a) none = false
same_byte (some a) (some b) = a == b

pub same_byte_refl : (a : Option ℕ) → same_byte a a ≡ true
same_byte_refl none = refl
same_byte_refl (some b) = ground arith

-- Whether the `n` bytes from index `i` on are the same in both buffers.
unfoldable pub same_bytes : Bytes → Bytes → ℕ → ℕ → Bool
same_bytes prev cur i zero = true
same_bytes prev cur i (suc n) =
    same_byte (get_elem? prev i) (get_elem? cur i) && same_bytes prev cur (i + 1) n

-- `*((int*)(prevBuf + o)) ^ *((int*)(data + o))` at the offset `o` of a pixel: four bytes.
abbrev pub differs : Bytes → Bytes → ℕ → ℕ → ℕ → Bool
differs prev cur width i j = not (same_bytes prev cur (i * width * 3 + j * 3) 4)

-- The body of the inner loop on a pixel that differs.
unfoldable pub mark : Region → ℕ → ℕ → Region
mark r i j = record {
  min_x = if ltb j r.min_x then j else r.min_x;
  min_y = if ltb i r.min_y then i else r.min_y;
  max_x = if ltb r.max_x j then j else r.max_x;
  max_y = if ltb r.max_y i then i else r.max_y;
  is_changed = true;
}

-- The body of the inner loop.
unfoldable pub visit : Bytes → Bytes → ℕ → ℕ → ℕ → Region → Region
visit prev cur width i j r = if differs prev cur width i j then mark r i j else r

-- The pixel at which the inner loop breaks.
abbrev pub is_last : ℕ → ℕ → ℕ → ℕ → Bool
is_last width height i j = (i == height - 1) && (j == width - 1)

abbrev pub fresh_region : ℕ → ℕ → Region
fresh_region width height = record {
  min_x = width;
  min_y = height;
  max_x = 0;
  max_y = 0;
  is_changed = false;
}

module _ (prev cur : Bytes) (width height : ℕ) where
  -- The inner loop from column `j` on, with `n` columns left; it breaks at the last pixel.
  unfoldable pub scan_row : ℕ → ℕ → ℕ → Region → Region
  scan_row i j zero r = r
  scan_row i j (suc n) r =
      let rest = scan_row i (j + 1) n (visit prev cur width i j r) in
      if is_last width height i j then r else rest

  -- The outer loop from row `i` on, with `n` rows left.
  unfoldable pub scan_rows : ℕ → ℕ → Region → Region
  scan_rows i zero r = r
  scan_rows i (suc n) r = scan_rows (i + 1) n (scan_row i 0 width r)

  -- The comparison with the frame before, `maxX++` and `maxY++` included.
  unfoldable pub changed_region : Region
  changed_region =
      let r = scan_rows 0 height (fresh_region width height) in
      record r { max_x = r.max_x + 1; max_y = r.max_y + 1 }

-- The region of a frame that has no frame before it.
abbrev pub whole_region : ℕ → ℕ → Region
whole_region width height = record {
  min_x = 0;
  min_y = 0;
  max_x = width;
  max_y = height;
  is_changed = true;
}
