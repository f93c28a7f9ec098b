-- ===== src/SendBuffer.antt =====
-- src/sendbuffer.c and include/sendbuffer.h: a ring of samples that nothing is written to yet.
use bbg_vo_ip.Prelude.{ℕ, ◌*◌, ◌≡◌, List, Option, none, some, arith, length, ◌+◌, refl}
use bbg_vo_ip.Prelude.Int.{ℤ, pos}
use bbg_vo_ip.Ring
use bbg_vo_ip.Ring.{Ring}
use bbg_vo_ip.Ring.Inv.{IsValid, init-IsValid}

abbrev pub max_num_frames : ℕ
max_num_frames = 44100

-- `sizeof(Sample)`
abbrev pub sample_size : ℕ
sample_size = 2

-- Where the static `buffer` points: nowhere yet, to a ring, or to one that was freed.
pub data Pointer : Type 0 where
  null freed : Pointer
  to_ring : Ring → Pointer

-- And how many allocations no pointer leads to any more.
pub record SendBuffer : Type 0 where
  pub buffer : Pointer
  pub lost : ℕ

-- `SendBuffer_init`; a ring that was there before is lost with its own allocation.
pub init : List ℕ → SendBuffer → SendBuffer
init memory s = record {
  buffer = to_ring (Ring.init memory max_num_frames sample_size);
  lost = elim s.buffer [ null ↦ s.lost | freed ↦ s.lost | to_ring ring ↦ s.lost + 2 ];
}

-- `SendBuffer_destroy` frees the struct, not the allocation that it points to, and the pointer stays; to free
-- it twice is a fault.
pub destroy : SendBuffer → Option SendBuffer
destroy s = elim s.buffer [
  | null ↦ some s
  | freed ↦ none
  | to_ring ring ↦ some (record { buffer = freed; lost = s.lost + 1 })
]

-- `SendBuffer_write` and `SendBuffer_writeConstant`: neither does anything.
pub write : List ℕ → ℕ → SendBuffer → ℤ × SendBuffer
write input size s = (pos 0, s)

pub write_constant : ℕ → ℕ → SendBuffer → ℤ × SendBuffer
write_constant value size s = (pos 0, s)

-- Setting the buffer up gives a valid empty ring of 44100 samples. Taking it down again loses the ring's own
-- allocation, one more than `SendBuffer_init` lost, and taking it down twice is a fault.
pub destroy-init :
    (memory : List ℕ) (s : SendBuffer)
    → length memory ≡ max_num_frames * sample_size
    → (ring : Ring) × ((init memory s).buffer ≡ to_ring ring)
      × IsValid ring
      × (ring.count ≡ 0)
      × (destroy (init memory s)
          ≡ some (record { buffer = freed; lost = (init memory s).lost + 1 }))
      × (destroy (record { buffer = freed; lost = (init memory s).lost + 1 }) ≡ none)
unfolding init destroy Ring.init
destroy-init memory s l = (
  Ring.init memory max_num_frames sample_size,
  refl,
  init-IsValid memory max_num_frames sample_size (omega arith) l,
  refl,
  refl,
  refl,
)
