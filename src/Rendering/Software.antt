-- ===== src/Rendering/Software.antt =====
-- include/rendering/software_renderer.h and src/rendering/software_renderer.c: pixels, rectangles
-- and the life of a framebuffer. An `int` is an integer that does not overflow; `pixels` is none
-- for NULL, and `calloc` is a parameter that tells whether it gives a block. Lines, circles and the
-- output as a file are not modelled.
pub mod Pixel
mod Tests
use c_comprehensive_template.Prelude.{
  ℕ, zero, suc, ◌+◌, ◌*◌, ◌/◌, Bool, true, false, not, ◌||◌, Option, none, some, List, length, map,
  set, replicate, ltb, leb, ◌==◌, if◌then◌else◌, size_max, ℤ, pos, negsuc,
}
use c_comprehensive_template.Core.Error.{ErrorCode, ok, nomem, invalid_arg, overflow}

pub record Framebuffer : Type 0 where
  pub pixels : Option (List ℕ)
  pub width : ℕ
  pub height : ℕ

abbrev pub pixel_size : ℕ
pixel_size = 4

-- An int that has to be positive, as a size_t.
abbrev as_size : ℤ → ℕ
as_size (pos n) = n
as_size (negsuc n) = 0

unfoldable pub create : (ℕ → Bool) → Option Framebuffer → ℤ → ℤ → ErrorCode × Option Framebuffer
create calloc none width height = (invalid_arg, none)
create calloc (some fb) width height =
    let w = as_size width in
    let h = as_size height in
    if w == 0 || h == 0
    then (invalid_arg, some fb)
    else if ltb (size_max / w) h
    then (overflow, some fb)
    else if ltb (size_max / pixel_size) (w * h)
    then (overflow, some fb)
    else if not (calloc (w * h))
    then (nomem, some (record fb { pixels = none }))
    else (ok, some (record { pixels = some (replicate (w * h) 0); width = w; height = h }))

unfoldable pub destroy : Option Framebuffer → Option Framebuffer
destroy none = none
destroy (some fb) = some (record fb { pixels = none })

-- framebuffer_clear: every pixel gets the color.
unfoldable pub clear : Framebuffer → ℕ → Framebuffer
clear fb color = record fb {
  pixels = elim fb.pixels [ none ↦ none | some ps ↦ some (map (λ p. color) ps) ];
}

-- ps[i] = color: none for a write past the end of the block.
unfoldable pub write_pixel : List ℕ → ℕ → ℕ → Option (List ℕ)
write_pixel ps i color = if leb (length ps) i then none else some (set ps i color)

-- In this and the next three, none is a write outside the buffer.
unfoldable pub set_pixel : Framebuffer → ℤ → ℤ → ℕ → Option Framebuffer
set_pixel fb (pos x) (pos y) color = elim fb.pixels [
  | none ↦ some fb
  | some ps ↦
      if leb fb.width x || leb fb.height y
      then some fb
      else elim (write_pixel ps (y * fb.width + x) color) [
        | none ↦ none
        | some qs ↦ some (record fb { pixels = some qs })
      ]
]
set_pixel fb (negsuc x) y color = some fb
set_pixel fb (pos x) (negsuc y) color = some fb

abbrev next_int : ℤ → ℤ
next_int (pos n) = pos (suc n)
next_int (negsuc zero) = pos 0
next_int (negsuc (suc n)) = negsuc n

-- The columns of a row of a rectangle from col on.
unfoldable pub fill_row : ℕ → Framebuffer → ℤ → ℤ → ℕ → Option Framebuffer
fill_row zero fb col row color = some fb
fill_row (suc n) fb col row color = elim (set_pixel fb col row color) [
  | none ↦ none
  | some fb' ↦ fill_row n fb' (next_int col) row color
]

unfoldable pub fill_rows : ℕ → ℕ → Framebuffer → ℤ → ℤ → ℕ → Option Framebuffer
fill_rows zero w fb x row color = some fb
fill_rows (suc n) w fb x row color = elim (fill_row w fb x row color) [
  | none ↦ none
  | some fb' ↦ fill_rows n w fb' x (next_int row) color
]

unfoldable pub fill_rect : Framebuffer → ℤ → ℤ → ℤ → ℤ → ℕ → Option Framebuffer
fill_rect fb x y w h color = fill_rows (as_size h) (as_size w) fb x y color
