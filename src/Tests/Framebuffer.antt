-- ===== src/Tests/Framebuffer.antt =====
-- The theorem on kernel-api/src/framebuffer.rs, at two rows of two pixels.
use deravel_os.Prelude.{ℕ, ◌<◌, ◌≡◌, ◌≢◌, refl, [], ◌∷◌, some, done, arith}
use deravel_os.Framebuffer.{Framebuffer, set_pixel}
use deravel_os.Framebuffer.Pixels.{pixel, IsFull, set_pixel_lem}

abbrev two_by_two : Framebuffer
two_by_two = record { ptr = 1 ∷ 2 ∷ 3 ∷ 4 ∷ []; width = 2; height = 2 }

set_pixel_lem_example :
    (f' : Framebuffer) × (set_pixel two_by_two 1 0 9 ≡ done f')
    × IsFull f'
    × (pixel f' 1 0 ≡ some 9)
    × ((x' y' : ℕ) → x' < 2 → (x' ≡ 1 → y' ≢ 0) → pixel f' x' y' ≡ pixel two_by_two x' y')
set_pixel_lem_example = set_pixel_lem two_by_two 1 0 9 refl (omega arith) (omega arith)
