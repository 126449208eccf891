-- ===== src/Memaccess.antt =====
-- The access kernels of OptaneStudy/src/memaccess.c: assembly loops over the access macros of
-- OptaneStudy/src/memaccess.h. Each loop is `do_while`, with the fuel of the call for each of them;
-- the operands `%[…]` of a block are the arguments of the C function, 64-bit words.
pub mod Macros
pub mod Stride
pub mod Advance
pub mod Rounds
pub mod Traces
pub mod Kernels
pub mod Durable
pub mod Volatile
pub mod Random
pub mod Sequential
pub mod Probes
pub mod Chase
