-- ===== src/Stream/Empty.antt =====
-- td_store_value_stream on a stream without a byte.
use sdbm_tree.Common.{ℕ, zero, suc, ◌≡◌, refl, List, [], replicate}
use sdbm_tree.Types.{Td}
use sdbm_tree.Machine.{out_of_fuel}
use sdbm_tree.Stream.{bytes, stream_loop, Stored, td_store_value_stream}

abbrev nothing_stored : Stored
nothing_stored = record { off = 0; lastchunkoff = 0 }

loops :
    (fuel n : ℕ) (stack : List ℕ) (refcount flags : ℕ) (td : Td)
    → stream_loop fuel stack (replicate n (bytes [])) refcount flags nothing_stored td ≡ out_of_fuel
unfolding stream_loop
loops zero n stack refcount flags td = refl
loops (suc fuel) zero stack refcount flags td = loops fuel zero stack refcount flags td
loops (suc fuel) (suc n) stack refcount flags td = loops fuel n stack refcount flags td

-- td_store_value_stream never returns on a stream that ends without a byte, however often read(2) is
-- called: for any fuel it runs out of it.
pub td_store_value_stream-hangs :
    (fuel n : ℕ) (stack : List ℕ) (refcount flags : ℕ) (td : Td)
    → td_store_value_stream fuel stack (replicate n (bytes [])) refcount flags td ≡ out_of_fuel
unfolding td_store_value_stream
td_store_value_stream-hangs fuel n stack refcount flags td = loops fuel n stack refcount flags td
