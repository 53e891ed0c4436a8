-- ===== src/Tests/RingBuffer.antt =====
-- The theorems on the ring of types/src/ring_buffer.rs, at one that has gone round.
use deravel_os.Prelude.{
  ℕ, ◌+◌, ◌<◌, ◌≡◌, ◌⊎◌, [], ◌∷◌, ◌++◌, length, none, some, done, panic, arith,
}
use deravel_os.RingBuffer
use deravel_os.RingBuffer.{push, poll}
use deravel_os.RingBuffer.Refine.{contents, IsValid, queue_lem}

-- 12 and 20 are waiting.
abbrev gone_round : RingBuffer.RingBuffer ℕ
gone_round = record { read = 2; written = 4; slots = 20 ∷ 11 ∷ 12 ∷ [] }

gone_round-IsValid : IsValid gone_round
gone_round-IsValid = record {
  nonempty = omega arith;
  ordered = omega arith;
  bounded = omega arith;
  small = omega arith;
}

queue_lem_example :
    (((4 < 2 + 3)
        × ((r' : RingBuffer.RingBuffer ℕ) × (push gone_round 21 ≡ done r')
            × (contents r' ≡ contents gone_round ++ (some 21 ∷ []))
            × (length r'.slots ≡ length gone_round.slots)
            × (r'.read ≡ gone_round.read)
            × (r'.written ≡ gone_round.written + 1)))
      ⊎ ((4 ≡ 2 + 3) × (push gone_round 21 ≡ panic)))
    × (((contents gone_round ≡ []) × (poll gone_round ≡ done (gone_round, none)))
        ⊎ ((v : ℕ) × (poll gone_round ≡ done (record gone_round { read = 3 }, some v))
            × (contents gone_round ≡ some v ∷ contents (record gone_round { read = 3 }))
            × (2 < 4)))
queue_lem_example = queue_lem gone_round 21 gone_round-IsValid
