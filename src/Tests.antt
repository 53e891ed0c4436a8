-- ===== src/Tests.antt =====
-- The theorems at concrete inputs.
mod Buddy
mod Allocator
mod Capability
mod RingBuffer
mod Interleave
mod Codegen
mod Kernel
mod Run
mod Windowing
mod Virtio
mod Page
mod Fat
mod Grants
mod Framebuffer
