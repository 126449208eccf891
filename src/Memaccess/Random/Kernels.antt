-- ===== src/Memaccess/Random/Kernels.antt =====
-- What `sizebw_load`, `sizebw_nt`, `sizebw_store` and `sizebw_storeclwb` of
-- OptaneStudy/src/memaccess.c access, and in which order.
use rw_sep.Prelude.{
  ℕ, suc, ◌-◌, ◌*◌, ◌^◌, ◌≤◌, ◌<◌, List, [], ◌∷◌, refl, inl, bit_and, concat_upto, arith,
}
use rw_sep.Prelude.Bits.{bit_and-mod_64}
use rw_sep.Prelude.Loops.{iterate}
use rw_sep.Machine.{Event, Cpu, add64, run}
use rw_sep.Machine.Faults.{NoFault, NoFault-append, NoFault-concat_upto, IsAligned, piece-IsAligned}
use rw_sep.Memaccess.Macros.{sizebtld_512, sizebtnt_512, sizebtst_512, sizebtstflush_512}
use rw_sep.Memaccess.Stride.{load_zmm0}
use rw_sep.Memaccess.Advance.{load_line, stream_line, store_line, store_flush_line}
use rw_sep.Memaccess.Rounds.{Traces, Completes}
use rw_sep.Memaccess.Kernels.{store_flush_line-NoFault}
use rw_sep.Memaccess.Random.{sizebw_load, sizebw_nt, sizebw_store, sizebw_storeclwb, store_prologue}
use rw_sep.Memaccess.Random.Draws.{
  eight, Outside, sizebtld_512-Moved, sizebtnt_512-Moved, sizebtst_512-Moved,
  sizebtstflush_512-Moved, sizebtld_512-Keeps, sizebtnt_512-Keeps, sizebtst_512-Keeps,
  sizebtstflush_512-Keeps,
}
use rw_sep.Memaccess.Random.Lfsr.{lfsr_step}
use rw_sep.Memaccess.Random.Loops.{blocks, draws, drawn_access, random_accesses, sizebw_loop-Traces}

module _ (start_addr size count random access_mask fuel : ℕ) (c : Cpu)
    (random_fits : random < 2 ^ 64) (size_fits : size ≤ 2 ^ 63 - 512)
    (count_fits : count ≤ 2 ^ 63 - 4) (size_fuel : size < fuel) (count_fuel : count < fuel) where
  -- With a size and a count that are not negative as `long` and leave room for one step below 2 ^
  -- 63, fuel above both, and the seed at an address below 2 ^ 64, the kernel ends but for faults,
  -- and its accesses are, in this order: for each of as many draws as `count` rounded up to a
  -- multiple of 4 (4 draws if count is 0), a load and a store of the seed, then, for the next word
  -- of the shift register masked and added to start_addr, a non-temporal load of the 64-byte pieces
  -- of the 512-byte blocks that cover `size` bytes from there (one block if size is 0), and a
  -- memory fence.
  pub sizebw_load-Traces :
      Traces
        (sizebw_load fuel start_addr size count random access_mask c)
        c
        (random_accesses (eight load_line) start_addr size count random access_mask (c.mem random))
  unfolding sizebw_load run
  sizebw_load-Traces =
      sizebw_loop-Traces sizebtld_512 (eight load_line) (λ a. Unit) start_addr size random
        access_mask fuel sizebtld_512-Moved (sizebtld_512-Keeps random) random_fits size_fits
        size_fuel (λ word j h. tt) _ count c refl refl refl refl count_fits count_fuel

  module _
      (outside : (word j : ℕ)
        → j < blocks size
        → Outside random (add64 (add64 start_addr (bit_and word access_mask)) (512 * j))) where
    -- With a size and a count that are not negative as `long` and leave room for one step below 2 ^
    -- 63, fuel above both, and a seed at an address below 2 ^ 64 and outside all that the masked
    -- accesses can reach, the kernel ends but for faults, and its accesses are, in this order: for
    -- each of as many draws as `count` rounded up to a multiple of 4 (4 draws if count is 0), a
    -- load and a store of the seed, then, for the next word of the shift register masked and added
    -- to start_addr, a non-temporal store of the 64-byte pieces of the 512-byte blocks that cover
    -- `size` bytes from there (one block if size is 0), and a memory fence.
    pub sizebw_nt-Traces : Traces (sizebw_nt fuel start_addr size count random access_mask c) c (
        random_accesses (eight stream_line) start_addr size count random access_mask (c.mem random))
    unfolding sizebw_nt store_prologue load_zmm0 run
    sizebw_nt-Traces =
        sizebw_loop-Traces sizebtnt_512 (eight stream_line) (Outside random) start_addr size random
          access_mask fuel sizebtnt_512-Moved (sizebtnt_512-Keeps random) random_fits size_fits
          size_fuel outside _ count c refl refl refl refl count_fits count_fuel

    -- With a size and a count that are not negative as `long` and leave room for one step below 2 ^
    -- 63, fuel above both, and a seed at an address below 2 ^ 64 and outside all that the masked
    -- accesses can reach, the kernel ends but for faults, and its accesses are, in this order: for
    -- each of as many draws as `count` rounded up to a multiple of 4 (4 draws if count is 0), a
    -- load and a store of the seed, then, for the next word of the shift register masked and added
    -- to start_addr, a plain store of the 64-byte pieces of the 512-byte blocks that cover `size`
    -- bytes from there (one block if size is 0), and a memory fence.
    pub sizebw_store-Traces :
        Traces (sizebw_store fuel start_addr size count random access_mask c) c (
          random_accesses
            (eight store_line)
            start_addr
            size
            count
            random
            access_mask
            (c.mem random))
    unfolding sizebw_store store_prologue load_zmm0 run
    sizebw_store-Traces =
        sizebw_loop-Traces sizebtst_512 (eight store_line) (Outside random) start_addr size random
          access_mask fuel sizebtst_512-Moved (sizebtst_512-Keeps random) random_fits size_fits
          size_fuel outside _ count c refl refl refl refl count_fits count_fuel

    -- With a size and a count that are not negative as `long` and leave room for one step below 2 ^
    -- 63, fuel above both, and a seed at an address below 2 ^ 64 and outside all that the masked
    -- accesses can reach, the kernel ends but for faults, and its accesses are, in this order: for
    -- each of as many draws as `count` rounded up to a multiple of 4 (4 draws if count is 0), a
    -- load and a store of the seed, then, for the next word of the shift register masked and added
    -- to start_addr, a store and a write-back of the 64-byte pieces of the 512-byte blocks that
    -- cover `size` bytes from there (one block if size is 0), and a memory fence.
    pub sizebw_storeclwb-Traces :
        Traces (sizebw_storeclwb fuel start_addr size count random access_mask c) c (
          random_accesses
            (eight store_flush_line)
            start_addr
            size
            count
            random
            access_mask
            (c.mem random))
    unfolding sizebw_storeclwb store_prologue load_zmm0 run
    sizebw_storeclwb-Traces =
        sizebw_loop-Traces sizebtstflush_512 (eight store_flush_line) (Outside random) start_addr
          size random access_mask fuel sizebtstflush_512-Moved (sizebtstflush_512-Keeps random)
          random_fits size_fits size_fuel outside _ count c refl refl refl refl count_fits
          count_fuel

drawn_access-NoFault :
    (evs : ℕ → List Event) (start_addr size random access_mask word : ℕ)
    → ((a : ℕ) → IsAligned a → NoFault (evs a))
    → IsAligned start_addr
    → IsAligned access_mask
    → NoFault (drawn_access (eight evs) start_addr size random access_mask word)
drawn_access-NoFault evs start_addr size random access_mask word fit start mask =
    let low = bit_and-mod_64 word access_mask mask in
    let base = add64 start_addr (bit_and word access_mask) in
    let fits = λ (j k : ℕ).
      fit (add64 (add64 base (512 * j)) (64 * k))
        (piece-IsAligned (add64 base (512 * j)) k (omega (arith, low))) in
    (
      inl (omega arith),
      (
        inl (omega arith),
        NoFault-append (concat_upto (λ j. eight evs (add64 base (512 * j))) (blocks size))
            (Event.mfence ∷ [])
            (NoFault-concat_upto (λ j. eight evs (add64 base (512 * j))) (blocks size)
              (λ j.
                NoFault-concat_upto (λ k. evs (add64 (add64 base (512 * j)) (64 * k))) 8 (fits j)))
            (tt, tt),
      ),
    )

-- With a start address and a mask that are multiples of 64, a size of at most 2 ^ 63 - 512, a count
-- of at most 2 ^ 63 - 4, fuel above both, and a seed at an address below 2 ^ 64 and outside all that
-- the masked accesses can reach, sizebw_storeclwb ends without a fault, and its accesses are, in
-- this order: for each of as many draws as `count` rounded up to a multiple of 4 (4 draws if count
-- is 0), a load and a store of the seed, then, for the next word of the shift register masked and
-- added to start_addr, a store and a write-back of the 64-byte pieces of the 512-byte blocks that
-- cover `size` bytes from there (one block if size is 0), and a memory fence.
pub sizebw_storeclwb-Completes :
    (start_addr size count random access_mask fuel : ℕ) (c : Cpu)
    → IsAligned start_addr
    → IsAligned access_mask
    → random < 2 ^ 64
    → size ≤ 2 ^ 63 - 512
    → count ≤ 2 ^ 63 - 4
    → size < fuel
    → count < fuel
    → ((word j : ℕ)
        → j < blocks size
        → Outside random (add64 (add64 start_addr (bit_and word access_mask)) (512 * j)))
    → Completes (sizebw_storeclwb fuel start_addr size count random access_mask c) c (
        random_accesses
          (eight store_flush_line)
          start_addr
          size
          count
          random
          access_mask
          (c.mem random))
sizebw_storeclwb-Completes start_addr size count random access_mask fuel c start mask random_fits
      size_fits count_fits size_fuel count_fuel outside =
    (
      sizebw_storeclwb-Traces start_addr size count random access_mask fuel c random_fits size_fits
          count_fits size_fuel count_fuel outside,
      NoFault-concat_upto
          (λ i.
            drawn_access (eight store_flush_line) start_addr size random access_mask
              (iterate lfsr_step (suc i) (c.mem random)))
          (draws count)
          (λ i.
            drawn_access-NoFault store_flush_line start_addr size random access_mask
              (iterate lfsr_step (suc i) (c.mem random)) store_flush_line-NoFault start mask),
    )
