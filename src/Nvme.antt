-- ===== src/Nvme.antt =====
-- src/unvme_nvme.h and src/unvme_nvme.c: the NVMe queues, commands and controller.
pub mod Types
pub mod Queue
pub mod Registers
pub mod Fields
pub mod Setup
pub mod Doorbells
pub mod Fifo
pub mod Command
mod Tests
