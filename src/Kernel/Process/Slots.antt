-- ===== src/Kernel/Process/Slots.antt =====
-- The slots of `PROCESSES` of kernel/src/process.rs: reading, writing and locking them.
use deravel_os.Prelude.{ℕ, ◌<◌, ◌≡◌, ◌≢◌, refl, lt→ltb, ne→==, eq→==, Option, some, done, panic}
use deravel_os.Kernel.Process.{Kernel, Process, update, get_process_beside, current, process_count}

pub update_self : (f : ℕ → Option Process) (i : ℕ) (v : Option Process) → update f i v i ≡ v
update_self f i v = rw (eq→== i i refl) refl

pub update_ne :
    (f : ℕ → Option Process) (i j : ℕ) (v : Option Process) → j ≢ i → update f i v j ≡ f j
update_ne f i j v h = rw (ne→== j i h) refl

pub current_of_slot :
    (k : Kernel) (pid : ℕ) (p : Process)
    → pid < process_count
    → k.processes pid ≡ some p
    → current k pid ≡ done p
unfolding current
current_of_slot k pid p h e = rw (lt→ltb pid process_count h, e) refl

pub beside :
    (k : Kernel) (a b : ℕ)
    → b < process_count
    → b ≢ a
    → get_process_beside k a b ≡ done (k.processes b)
unfolding get_process_beside
beside k a b h n = rw (lt→ltb b process_count h, ne→== b a n) refl

pub beside_self : (k : Kernel) (a : ℕ) → a < process_count → get_process_beside k a a ≡ panic
unfolding get_process_beside
beside_self k a h = rw (lt→ltb a process_count h, eq→== a a refl) refl
