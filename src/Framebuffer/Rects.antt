-- ===== src/Framebuffer/Rects.antt =====
-- `fill_rect` of kernel-api/src/framebuffer.rs on rectangles within the framebuffer.
use deravel_os.Prelude.{
  ℕ, zero, suc, ◌+◌, ◌-◌, ◌*◌, ◌≤◌, ◌<◌, ◌≡◌, refl, ap, ◌∙◌, lt→ltb, le→leb, List, [], ◌∷◌, ◌++◌,
  length, length-append, take, drop, replicate, done, arith,
}
use deravel_os.Framebuffer.{Framebuffer, splice, write, fill_each, fill_rect}
use deravel_os.Framebuffer.Pixels.{IsFull}

length-replicate : (n v : ℕ) → length (replicate n v) ≡ n
length-replicate zero v = refl
length-replicate (suc n) v = ap suc (length-replicate n v)

length-take : (xs : List ℕ) (n : ℕ) → n ≤ length xs → length (take n xs) ≡ n
length-take xs zero h = refl
length-take [] (suc n) h = absurd (omega (arith, h))
length-take (x ∷ xs) (suc n) h = ap suc (length-take xs n (omega (arith, h)))

length-drop : (xs : List ℕ) (n : ℕ) → n ≤ length xs → length (drop n xs) + n ≡ length xs
length-drop xs zero h = omega arith
length-drop [] (suc n) h = absurd (omega (arith, h))
length-drop (x ∷ xs) (suc n) h = omega (arith, length-drop xs n (omega (arith, h)))

length-splice :
    (xs : List ℕ) (start : ℕ) (new : List ℕ)
    → start + length new ≤ length xs
    → length (splice xs start new) ≡ length xs
unfolding splice
length-splice xs start new h =
    let rest = drop (start + length new) xs in
    let a = length-append (take start xs ++ new) rest in
    let b = length-append (take start xs) new in
    let c = length-take xs start (omega (arith, h)) in
    let d = length-drop xs (start + length new) h in
    let e : length (take start xs ++ new ++ rest) ≡ length xs = omega (arith, a, b, c, d, h) in e

inside : (w h x y : ℕ) → x ≤ w → y < h → y * w + x ≤ h * w
inside w h x y hx hy = grind arith

fill_each_lem :
    (w h x0 x1 color y n : ℕ) (ptr : List ℕ)
    → x0 ≤ x1
    → x1 ≤ w
    → y + n ≤ h
    → length ptr ≡ h * w
    → (ptr' : List ℕ) × (fill_each w x0 x1 color y n ptr ≡ done ptr') × (length ptr' ≡ h * w)
unfolding fill_each write
fill_each_lem w h x0 x1 color y zero ptr lo hi rows full = (ptr, refl, full)
fill_each_lem w h x0 x1 color y (suc n) ptr lo hi rows full =
    let new = replicate (x1 - x0) color in
    let size = length-replicate (x1 - x0) color in
    let row : y * w + x1 ≤ h * w = inside w h x1 y hi (omega (arith, rows)) in
    let fits : y * w + x0 + length new ≤ length ptr = omega (arith, size, row, full, lo) in
    let (ptr', e, l) =
      fill_each_lem w h x0 x1 color (y + 1) n (splice ptr (y * w + x0) new) lo hi
        (omega (arith, rows)) (length-splice ptr (y * w + x0) new fits ∙ full) in
    (ptr', rw (le→leb (y * w + x0 + length new) (length ptr) fits) e, l)

rows_inside : (w h y : ℕ) → y ≤ h → y * w ≤ h * w
rows_inside w h y hy = grind arith

-- A rectangle within a framebuffer that has columns and a pixel for each place is filled without a
-- panic, and the framebuffer keeps its size.
pub fill_rect_lem :
    (f : Framebuffer) (x0 y0 x1 y1 color : ℕ)
    → IsFull f
    → 0 < f.width
    → x0 ≤ x1
    → x1 ≤ f.width
    → y0 ≤ y1
    → y1 ≤ f.height
    → (ptr : List ℕ) × (fill_rect f x0 y0 x1 y1 color ≡ done (record f { ptr = ptr }))
      × (length ptr ≡ f.height * f.width)
unfolding fill_rect
fill_rect_lem f x0 y0 x1 y1 color full pos hx hx1 hy hy1 =
    let (ptr, e, l) =
      fill_each_lem f.width f.height x0 x1 color y0 (y1 - y0) f.ptr hx hx1 (omega (arith, hy, hy1))
        full in
    let rows : y1 * f.width ≤ length f.ptr =
      omega (arith, rows_inside f.width f.height y1 hy1, full) in
    (
      ptr,
      rw
          (
            le→leb x0 x1 hx,
            le→leb x1 f.width hx1,
            le→leb y0 y1 hy,
            le→leb y1 f.height hy1,
            le→leb (y1 * f.width) (length f.ptr) rows,
            lt→ltb 0 f.width pos,
            e,
          )
          refl,
      l,
    )
