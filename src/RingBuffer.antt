-- ===== src/RingBuffer.antt =====
-- `RingBuffer` of types/src/ring_buffer.rs, used by one thread at a time. The counters only grow;
-- `data` is indexed by them modulo its length.
pub mod Interleave
pub mod Refine
use deravel_os.Prelude.{
  ℕ, ◌+◌, ◌*◌, ◌/◌, ◌%◌, ◌-◌, ltb, leb, if◌then◌else◌, List, replicate, length, get_elem?, set,
  Option, none, some, Exec, done, panic, ◌>>=◌, ◌>>◌, assert, unwrap, add_usize,
}
use deravel_os.Memory.{page_size, cache_line_size}

pub record RingBuffer {ℓ} (A : Type ℓ) : Type ℓ where
  pub read : ℕ
  pub written : ℕ
  pub slots : List A

module _ {ℓ} {A : Type ℓ} where
  -- The counters are zero since the memory is; every element is the default of its type.
  unfoldable pub new : A → ℕ → Exec (RingBuffer A)
  new default element_count = do
    assert (ltb 0 element_count)
    done (record { read = 0; written = 0; slots = replicate element_count default })

  -- `size_of` is the size of an element.
  unfoldable pub new_single_page : A → ℕ → Exec (RingBuffer A)
  unfolding new
  new_single_page default size_of = new default ((page_size - 2 * cache_line_size) / size_of)

  unfoldable pub push : RingBuffer A → A → Exec (RingBuffer A)
  push r value = do
    limit ← add_usize r.read (length r.slots)
    assert (ltb r.written limit)
    written ← add_usize r.written 1
    done (record r { slots = set r.slots (r.written % length r.slots) value; written = written })

  unfoldable pub poll : RingBuffer A → Exec (RingBuffer A × Option A)
  poll r = if leb r.written r.read then done (r, none) else do
    element ← unwrap (get_elem? r.slots (r.read % length r.slots))
    read ← add_usize r.read 1
    done (record r { read = read }, some element)
