-- ===== src/Lock.antt =====
-- td_lock.c, td_unlock.c and the bracket that the public functions put round their work.
pub mod Bracket
use sdbm_tree.Common.{ℕ, Bool, true, false, Option, none, some, ◌==◌, if◌then◌else◌, add32, sub32}
use sdbm_tree.Types.{Td, Error}
use sdbm_tree.Machine.{Cmd, Command, fail, pure, get, put, on_result, ◌>>=◌, ◌>>◌}

-- What the lock callback returns.
unfoldable pub answer : Option Error → Command
answer none = pure tt
answer (some e) = fail e

unfoldable pub lock_with : Option (Bool → Option Error) → Command
lock_with none = pure tt
lock_with (some lock) = do
  td ← get
  put (record td { locked = add32 td.locked 1 })
  if add32 td.locked 1 == 1 then answer (lock true) else pure tt

unfoldable pub unlock_with : Option (Bool → Option Error) → Command
unlock_with none = pure tt
unlock_with (some lock) = do
  td ← get
  put (record td { locked = sub32 td.locked 1 })
  if sub32 td.locked 1 == 0 then answer (lock false) else pure tt

unfoldable pub td_lock : Command
td_lock td = lock_with td.lock td

unfoldable pub td_unlock : Command
td_unlock td = unlock_with td.lock td

-- CHECK(td_lock(td)); r = body; CHECK(leave(td)); return r;
unfoldable pub bracket : {A : Type 0} → Command → Cmd A → Cmd A
bracket leave body = do
  td_lock
  λ td. on_result (body td) (λ a. do leave; pure a) (λ e. do leave; fail e)

abbrev pub locked : {A : Type 0} → Cmd A → Cmd A
locked body = bracket td_unlock body
