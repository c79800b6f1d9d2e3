-- ===== src/Rendering/Software/Pixel.antt =====
-- framebuffer_set_pixel: inside the buffer it changes one pixel, and outside none.
use c_comprehensive_template.Prelude.{
  ℕ, ◌+◌, ◌*◌, ◌<◌, ◌≡◌, inl, inr, refl, ◌∙◌, Bool-cases, true, false, ◌||◌, ◌&&◌, some, List,
  length, length-set, get_or, set, get_or-set_self, get_or-set_ne, leb, if◌then◌else◌, ℤ, pos,
  negsuc, ℕ_discrete, same_int, arith,
}
use c_comprehensive_template.Math.MatX.Tile.{apart_lem, row_end}
use c_comprehensive_template.Rendering.Software.{Framebuffer, write_pixel, set_pixel}

-- A framebuffer with a pixel for each place.
abbrev pub IsValid : Framebuffer → List ℕ → Type 0
IsValid fb ps = (fb.pixels ≡ some ps) × (length ps ≡ fb.height * fb.width)

-- What set_pixel leaves, seen at the pixel in column j and row i.
abbrev pub After : Framebuffer → List ℕ → ℤ → ℤ → ℕ → ℕ → ℕ → Framebuffer → Type 0
After fb ps x y color i j g =
    (qs : List ℕ) × IsValid g qs
    × (g.width ≡ fb.width)
    × (g.height ≡ fb.height)
    × (get_or qs (i * fb.width + j) 0 ≡ (
        if same_int x (pos j) && same_int y (pos i) then color else get_or ps (i * fb.width + j) 0))

outside_lem :
    (fb : Framebuffer) (ps : List ℕ) (x y color : ℕ)
    → fb.pixels ≡ some ps
    → (leb fb.width x || leb fb.height y) ≡ true
    → set_pixel fb (pos x) (pos y) color ≡ some fb
unfolding set_pixel
outside_lem fb ps x y color held outside = simp (set_pixel, held, outside)

inside_lem :
    (fb : Framebuffer) (ps : List ℕ) (x y color : ℕ)
    → fb.pixels ≡ some ps
    → (leb fb.width x || leb fb.height y) ≡ false
    → y * fb.width + x < length ps
    → set_pixel fb (pos x) (pos y) color
      ≡ some (record fb { pixels = some (set ps (y * fb.width + x) color) })
unfolding set_pixel write_pixel
inside_lem fb ps x y color held inside there =
    let within : leb (length ps) (y * fb.width + x) ≡ false = ground (arith, there) in
    simp (set_pixel, write_pixel, held, inside, within)

-- On a valid framebuffer, framebuffer_set_pixel writes nowhere outside the buffer, and leaves a valid
-- framebuffer of the same size; the pixel in column j and row i gets the color if (x, y) is its
-- place, and keeps its own otherwise, so a point outside changes none.
pub set_pixel_lem :
    (fb : Framebuffer) (ps : List ℕ) (x y : ℤ) (color i j : ℕ)
    → IsValid fb ps
    → i < fb.height
    → j < fb.width
    → (g : Framebuffer) × (set_pixel fb x y color ≡ some g) × After fb ps x y color i j g
unfolding set_pixel
set_pixel_lem fb ps (negsuc x) y color i j (held, size) low left =
    (fb, refl, (ps, (held, size), refl, refl, refl))
set_pixel_lem fb ps (pos x) (negsuc y) color i j (held, size) low left =
    (fb, refl, (ps, (held, size), refl, refl, ground arith))
set_pixel_lem fb ps (pos x) (pos y) color i j (held, size) low left =
    elim (Bool-cases (leb fb.width x || leb fb.height y)) [
      | inl outside ↦ (
        fb,
        outside_lem fb ps x y color held outside,
        (ps, (held, size), refl, refl, ground (arith, outside, low, left)),
      )
      | inr inside ↦
          let row : y < fb.height = ground (arith, inside) in
          let column : x < fb.width = ground (arith, inside) in
          let there : y * fb.width + x < length ps =
            omega (arith, size, row_end y fb.height fb.width row, column) in
          (
            record fb { pixels = some (set ps (y * fb.width + x) color) },
            inside_lem fb ps x y color held inside there,
            (
              set ps (y * fb.width + x) color,
              (refl, length-set ps (y * fb.width + x) color ∙ size),
              refl,
              refl,
              elim (ℕ_discrete x j) [
                | no h ↦
                    get_or-set_ne ps (y * fb.width + x) (i * fb.width + j) color 0
                      (apart_lem y i x j fb.width (ground (arith, inside)) left (inr h))
                    ∙ ground (arith, h)
                | yes e ↦ elim (ℕ_discrete y i) [
                  | no h ↦
                      get_or-set_ne ps (y * fb.width + x) (i * fb.width + j) color 0
                        (apart_lem y i x j fb.width (ground (arith, inside)) left (inl h))
                      ∙ ground (arith, h)
                  | yes e' ↦ rw e (
                      rw e' (
                        get_or-set_self ps (i * fb.width + j) color 0
                          (omega (arith, size, row_end i fb.height fb.width low, left))
                        ∙ ground arith))
                ]
              ],
            ),
          )
    ]
