-- ===== src/Ipc.antt =====
-- Inter-process communication: kernel/pipe.c.
pub mod Pipe
