-- ===== src/Rendering/Software/Tests.antt =====
-- Four pixels in two rows.
use c_comprehensive_template.Prelude.{◌≡◌, refl, some, [], ◌∷◌, pos, negsuc, arith}
use c_comprehensive_template.Rendering.Software.{
  Framebuffer, write_pixel, set_pixel, fill_rect, fill_rows, fill_row,
}
use c_comprehensive_template.Rendering.Software.Pixel.{After, set_pixel_lem}

abbrev small : Framebuffer
small = record { pixels = some (0 ∷ 0 ∷ 0 ∷ 0 ∷ []); width = 2; height = 2 }

-- A rectangle that starts left of the framebuffer and ends below it.
clipped :
    fill_rect small (negsuc 0) (pos 1) (pos 2) (pos 5) 7
    ≡ some (record small { pixels = some (0 ∷ 0 ∷ 7 ∷ 0 ∷ []) })
unfolding fill_rect fill_rows fill_row set_pixel write_pixel
clipped = refl

set_pixel_example :
    (g : Framebuffer) × (set_pixel small (pos 1) (pos 0) 9 ≡ some g)
    × After small (0 ∷ 0 ∷ 0 ∷ 0 ∷ []) (pos 1) (pos 0) 9 0 1 g
set_pixel_example =
    set_pixel_lem small (0 ∷ 0 ∷ 0 ∷ 0 ∷ []) (pos 1) (pos 0) 9 0 1 (refl, refl) (omega arith)
      (omega arith)
