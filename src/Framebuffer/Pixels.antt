-- ===== src/Framebuffer/Pixels.antt =====
-- What drawing on the framebuffer of kernel-api/src/framebuffer.rs changes, pixel by pixel.
use deravel_os.Prelude.{
  ℕ, ◌+◌, ◌*◌, ◌≤◌, ◌<◌, ◌≡◌, ◌≢◌, refl, ◌∙◌, inl, inr, lt→ltb, le→leb, lt_cases, length, get_elem?,
  set, length-set, get_elem?-set_self, get_elem?-set_ne, Option, some, done, arith,
}
use deravel_os.Framebuffer.{Framebuffer, set_pixel}

abbrev pub pixel : Framebuffer → ℕ → ℕ → Option ℕ
pixel f x y = get_elem? f.ptr (y * f.width + x)

-- The slice has a pixel for each place.
abbrev pub IsFull : Framebuffer → Type 0
IsFull f = length f.ptr ≡ f.height * f.width

row_apart : (w x x' y y' : ℕ) → x < w → y < y' → y * w + x < y' * w + x'
row_apart w x x' y y' hx lt = grind arith

places_apart : (w x x' y y' : ℕ) → x < w → x' < w → (x' ≡ x → y' ≢ y) → y * w + x ≢ y' * w + x'
places_apart w x x' y y' hx hx' apart e = elim (lt_cases y y') [
  | inl lt ↦ absurd (omega (arith, row_apart w x x' y y' hx lt))
  | inr ge ↦ elim (lt_cases y' y) [
    | inl lt ↦ absurd (omega (arith, row_apart w x' x y' y hx' lt))
    | inr le ↦
        let same : y' ≡ y = omega arith in
        let e' : y * w + x ≡ y * w + x' = rw same at e in apart (omega arith) same
  ]
]

row_inside : (h w x y : ℕ) → x < w → y < h → y * w + w ≤ h * w
row_inside h w x y hx hy = grind arith

-- set_pixel at a place of a framebuffer that has a pixel for each place panics nowhere, sets the
-- pixel there and leaves every other one.
pub set_pixel_lem :
    (f : Framebuffer) (x y color : ℕ)
    → IsFull f
    → x < f.width
    → y < f.height
    → (f' : Framebuffer) × (set_pixel f x y color ≡ done f')
      × IsFull f'
      × (pixel f' x y ≡ some color)
      × ((x' y' : ℕ) → x' < f.width → (x' ≡ x → y' ≢ y) → pixel f' x' y' ≡ pixel f x' y')
unfolding set_pixel
set_pixel_lem f x y color full hx hy =
    let inside = row_inside f.height f.width x y hx hy in
    (
      record f { ptr = set f.ptr (y * f.width + x) color },
      rw
          (
            lt→ltb x f.width hx,
            lt→ltb y f.height hy,
            le→leb (y * f.width + f.width) (length f.ptr) (omega (arith, full, inside)),
          )
          refl,
      length-set f.ptr (y * f.width + x) color ∙ full,
      get_elem?-set_self f.ptr (y * f.width + x) color (omega (arith, full, inside)),
      λ x' y' hx' apart.
          get_elem?-set_ne f.ptr (y * f.width + x) (y' * f.width + x') color
            (places_apart f.width x x' y y' hx hx' apart),
    )
