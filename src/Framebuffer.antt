-- ===== src/Framebuffer.antt =====
-- kernel-api/src/framebuffer.rs: a rectangle of pixels, by rows, in one slice.
pub mod Pixels
pub mod Rects
use deravel_os.Prelude.{
  ℕ, zero, suc, ◌+◌, ◌-◌, ◌*◌, ◌%◌, ◌^◌, min, max, ltb, leb, if◌then◌else◌, List, [], ◌∷◌, ◌++◌,
  length, take, drop, replicate, set, Exec, done, panic, ◌>>=◌, ◌>>◌, assert,
}

-- The shared memory that the slice lies in is zero at first.
pub record Framebuffer : Type 0 where
  pub ptr : List ℕ
  pub width : ℕ
  pub height : ℕ

-- The bytes of a pixel are apart, so that `|` is a sum.
unfoldable pub bgra : ℕ → ℕ → ℕ → ℕ → ℕ
bgra r g b a = b + g * 2 ^ 8 + r * 2 ^ 16 + a * 2 ^ 24

-- `&self.ptr[start..][..n]`
slice : List ℕ → ℕ → ℕ → Exec (List ℕ)
slice xs start n = do assert (leb (start + n) (length xs)); done (take n (drop start xs))

-- Writing `new` over the slice from `start` on.
unfoldable splice : List ℕ → ℕ → List ℕ → List ℕ
splice xs start new = take start xs ++ new ++ drop (start + length new) xs

-- A slice that is written over by one of its length.
unfoldable write : List ℕ → ℕ → List ℕ → Exec (List ℕ)
unfolding splice
write xs start new = do assert (leb (start + length new) (length xs)); done (splice xs start new)

unfoldable pub set_pixel : Framebuffer → ℕ → ℕ → ℕ → Exec Framebuffer
set_pixel f x y color = do
  assert (ltb x f.width)
  assert (ltb y f.height)
  assert (leb (y * f.width + f.width) (length f.ptr))
  done (record f { ptr = set f.ptr (y * f.width + x) color })

unfoldable pub fill : Framebuffer → ℕ → Framebuffer
fill f color = record f { ptr = replicate (length f.ptr) color }

unfoldable pub row : Framebuffer → ℕ → Exec (List ℕ)
unfolding slice
row f y = do assert (ltb y f.height); slice f.ptr (y * f.width) f.width

-- The rows from the `y`-th on, `n` of them, each filled from `x_start` to `x_end`.
unfoldable fill_each : ℕ → ℕ → ℕ → ℕ → ℕ → ℕ → List ℕ → Exec (List ℕ)
unfolding write
fill_each width x_start x_end color y zero ptr = done ptr
fill_each width x_start x_end color y (suc n) ptr = do
  ptr' ← write ptr (y * width + x_start) (replicate (x_end - x_start) color)
  fill_each width x_start x_end color (y + 1) n ptr'

-- `rect`, which `fill_rect` goes through, cuts the rows into chunks of `width`, and panics if that
-- is 0. The slice of all the rows is taken first.
unfoldable pub fill_rect : Framebuffer → ℕ → ℕ → ℕ → ℕ → ℕ → Exec Framebuffer
unfolding fill_each
fill_rect f x_start y_start x_end y_end color = do
  assert (leb x_start x_end)
  assert (leb x_end f.width)
  assert (leb y_start y_end)
  assert (leb y_end f.height)
  assert (leb (y_end * f.width) (length f.ptr))
  assert (ltb 0 f.width)
  ptr ← fill_each f.width x_start x_end color y_start (y_end - y_start) f.ptr
  done (record f { ptr = ptr })

unfoldable pub fill_rows : Framebuffer → ℕ → ℕ → ℕ → Exec Framebuffer
unfolding write
fill_rows f y_start y_end color = do
  assert (leb y_start y_end)
  assert (leb y_end f.height)
  ptr ← write f.ptr (y_start * f.width) (replicate ((y_end - y_start) * f.width) color)
  done (record f { ptr = ptr })

-- `copy_within` reads the rows before it writes them.
unfoldable pub shift_rows : Framebuffer → ℕ → ℕ → ℕ → Exec Framebuffer
unfolding slice write
shift_rows f y_from y_to count = do
  assert (leb (y_from + count) f.height)
  assert (leb (y_to + count) f.height)
  moved ← slice f.ptr (y_from * f.width) (count * f.width)
  ptr ← write f.ptr (y_to * f.width) moved
  done (record f { ptr = ptr })
