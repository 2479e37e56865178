-- ===== src/Tests/Backends.antt =====
-- The theorems on resources and new btrees: a file that transfers two bytes at most in a call, and
-- 300 bytes of zeros.
use sdbm_tree.Common.{
  ℕ, ◌+◌, ◌-◌, ◌≤◌, ◌<◌, ◌≡◌, refl, List, [], ◌∷◌, some, ltb, if◌then◌else◌, length, take, arith,
}
use sdbm_tree.Types.{Td, Memory}
use sdbm_tree.Memory.{slice, blit}
use sdbm_tree.Machine.{ok}
use sdbm_tree.Io.{decode_header}
use sdbm_tree.Tree.{leaf}
use sdbm_tree.Update.Room.{Holds}
use sdbm_tree.Init.{td_init_mem}
use sdbm_tree.Init.Fresh.{td_init_mem-Holds}
use sdbm_tree.Backend.{File, td_fd_read, td_fd_write}
use sdbm_tree.Backend.Outcome.{done}
use sdbm_tree.Backend.Serve.{View, Serves}
use sdbm_tree.Backend.Transfer.{td_fd_write-td_fd_read}
use sdbm_tree.Tests.{machine}

record Disk : Type 0 where
  pub mem : Memory
  pub position : ℕ

-- Two bytes at most.
abbrev few_of : ℕ → ℕ
few_of n = if ltb n 2 then n else 2

abbrev disk_file : File Disk
disk_file = record {
  seek = λ off d. (some off, record d { position = off });
  seek_end = λ d. (some 4096, record d { position = 4096 });
  read = λ n d.
      (some (slice d.mem d.position (few_of n)), record d { position = d.position + few_of n });
  write = λ bytes d. (
    some (few_of (length bytes)),
    record {
      mem = blit d.mem d.position (take (few_of (length bytes)) bytes);
      position = d.position + few_of (length bytes);
    },
  );
}

abbrev disk_view : View Disk
disk_view = record { contents = λ d. d.mem; position = λ d. d.position; extent = λ d. 4096 }

few_of-bounds : (n : ℕ) → 0 < n → (0 < few_of n) × (few_of n ≤ n)
few_of-bounds n h = (ground arith, ground arith)

disk-Serves : Serves disk_file disk_view
disk-Serves = record {
  seeks = λ off d. (record d { position = off }, refl, refl, refl, refl);
  reads = λ n d pos inside. (
    few_of n,
    record d { position = d.position + few_of n },
    refl,
    record {
      some_bytes = (few_of-bounds n pos).0;
      no_more = (few_of-bounds n pos).1;
      position = refl;
      extent = refl;
    },
    refl,
  );
  writes = λ bytes d pos inside. (
    few_of (length bytes),
    record {
      mem = blit d.mem d.position (take (few_of (length bytes)) bytes);
      position = d.position + few_of (length bytes);
    },
    refl,
    record {
      some_bytes = (few_of-bounds (length bytes) pos).0;
      no_more = (few_of-bounds (length bytes) pos).1;
      position = refl;
      extent = refl;
    },
    refl,
  );
}

abbrev empty_disk : Disk
empty_disk = record { mem = λ a. 0; position = 0 }

abbrev five_bytes : List ℕ
five_bytes = 1 ∷ 2 ∷ 3 ∷ 4 ∷ 5 ∷ []

td_fd_write-td_fd_read_example :
    (d1 : Disk) × (td_fd_write disk_file 100 five_bytes empty_disk ≡ done tt d1)
    × ((d2 : Disk) × (td_fd_read disk_file 100 5 d1 ≡ done five_bytes d2)
        × (d2.mem ≡ blit (λ a. 0) 100 five_bytes)
        × (disk_view.extent d2 ≡ disk_view.extent empty_disk))
td_fd_write-td_fd_read_example =
    td_fd_write-td_fd_read disk_file disk_view disk-Serves 100 five_bytes empty_disk (omega arith)
      (omega arith)

td_init_mem-Holds_example :
    (td : Td) × (td_init_mem 0 (λ a. 0) 300 ≡ ok tt td)
    × Holds td leaf (record { ptr = 44; size = 300 - 44 } ∷ [])
    × (decode_header (slice td.mem 0 44) ≡ td.header)
unfolding machine
td_init_mem-Holds_example =
    td_init_mem-Holds (λ a. 0) 300 0 (omega arith) (omega arith) (omega arith) refl refl refl refl
