-- ===== src/Txn.antt =====
-- Transactions: tdx_put.c, tdx_del.c, tdx_get.c and tdx_commit.c. The changes of a transaction are a
-- btree of their own, whose values end with a byte that tells a put from a deletion. Opening its file
-- (tdx_init.c), and closing and removing it (tdx_rollback.c), is left to the system calls: a
-- transaction starts with an open btree, and a commit hands back the original btree alone.
use sdbm_tree.Common.{
  ℕ, zero, suc, ◌+◌, ◌-◌, List, [], ◌∷◌, Option, none, some, ◌==◌, if◌then◌else◌, get_or,
}
use sdbm_tree.Types.{Td, Error, alloctdt}
use sdbm_tree.Types.Error.{notfound, struct_error}
use sdbm_tree.Machine.{Run, Command, ok, err, out_of_fuel, pure, on_result}
use sdbm_tree.Tdt.{Tdt, empty, buffer_of, bytes_of}
use sdbm_tree.Db.{Got, td_get, td_put, td_put_vec, td_del}
use sdbm_tree.Cursor.{Tdc, tdc_init, tdc_nxt}

-- struct tdx, without its path and id.
pub record Tdx : Type 0 where
  pub orig : Td
  pub changes : Td

-- TDX_PUT
abbrev pub put_type : ℕ
put_type = 1

-- TDX_DEL
abbrev pub del_type : ℕ
del_type = 2

-- How a function on a transaction ends: with a result or an error, and the state it leaves.
pub data TdxRun (S A : Type 0) : Type 0 where
  done : A → S → TdxRun S A
  failed : Error → S → TdxRun S A
  endless : TdxRun S A

-- A command on the changes.
abbrev pub on_changes : {A : Type 0} → Tdx → Run A → TdxRun Tdx A
on_changes tdx (ok a td) = done a (record tdx { changes = td })
on_changes tdx (err e td) = failed e (record tdx { changes = td })
on_changes tdx out_of_fuel = endless

-- A command on the original.
abbrev pub on_orig : {A : Type 0} → Tdx → Run A → TdxRun Tdx A
on_orig tdx (ok a td) = done a (record tdx { orig = td })
on_orig tdx (err e td) = failed e (record tdx { orig = td })
on_orig tdx out_of_fuel = endless

unfoldable pub tdx_put : List ℕ → List ℕ → ℕ → Tdx → TdxRun Tdx (Unit {0})
tdx_put key value flags tdx =
    on_changes tdx (td_put_vec key (value ∷ ((put_type ∷ []) ∷ [])) flags tdx.changes)

-- `value` are the bytes of the container that is passed.
unfoldable pub tdx_del : List ℕ → List ℕ → ℕ → Tdx → TdxRun Tdx (Unit {0})
tdx_del key value flags tdx =
    on_changes tdx (td_put_vec key (value ∷ ((del_type ∷ []) ∷ [])) flags tdx.changes)

-- The last byte of a value of the changes.
unfoldable pub type_of : Tdt → ℕ
type_of value = get_or (buffer_of value.mem) (value.size - 1) 0

-- The value that td_get found in the changes, without its type.
unfoldable pub tdx_found : Tdx → Got → Tdt → TdxRun Tdx Got
tdx_found tdx got value =
    if value.size == 0
    then failed struct_error tdx
    else if type_of value == put_type
    then done (record got { value = some (record value { size = value.size - 1 }) }) tdx
    else if type_of value == del_type
    then failed notfound tdx
    else failed struct_error tdx

-- After td_get on the changes. `value` was given, so it is there.
unfoldable pub tdx_got : List ℕ → Tdt → ℕ → Tdx → TdxRun Tdx Got → TdxRun Tdx Got
tdx_got key value flags tdx (done got tdx') = elim got.value [
  | none ↦ failed struct_error tdx'
  | some v ↦ tdx_found tdx' got v
]
tdx_got key value flags tdx (failed e tdx') = elim e [
  | notfound ↦ on_orig tdx' (td_get key (some value) flags tdx'.orig)
  | other ↦ failed other tdx'
]
tdx_got key value flags tdx endless = endless

-- `value` is the caller's own buffer: its address is read before td_get fills it.
unfoldable pub tdx_get : List ℕ → Tdt → ℕ → Tdx → TdxRun Tdx Got
tdx_get key value flags tdx =
    tdx_got key value flags tdx (on_changes tdx (td_get key (some value) flags tdx.changes))

-- One change is made in the original; a value of another type is passed over.
unfoldable pub apply_change : Tdt → Tdt → Command
apply_change key value =
    if type_of value == put_type
    then td_put (bytes_of key) (bytes_of (record value { size = value.size - 1 })) 0
    else if type_of value == del_type
    then (λ td. on_result (td_del (bytes_of key) none 0 td) (λ _. pure tt) (λ e td'. err e td'))
    else pure tt

abbrev container : Option Tdt → Tdt
container none = empty
container (some t) = t

-- One round of the loop of tdx_commit on what tdc_nxt gave. Any error of it ends the loop, with
-- success.
unfoldable pub replay : ℕ → Tdc → Tdx → TdxRun Tdx (Unit {0})
replay zero cursor tdx = endless
replay (suc fuel) cursor tdx =
    elim (tdc_nxt cursor (some empty) (some empty) alloctdt tdx.changes) [
      | ok (cursor', got) changes ↦
          let tdx' = record tdx { changes = changes } in
          if (container got.value).size == 0
          then failed struct_error tdx'
          else elim (apply_change (container got.key) (container got.value) tdx.orig) [
            | ok u orig ↦ replay fuel cursor' (record tdx' { orig = orig })
            | err e orig ↦ failed e (record tdx' { orig = orig })
            | out_of_fuel ↦ endless
          ]
      | err e changes ↦ done tt (record tdx { changes = changes })
      | out_of_fuel ↦ endless
    ]

-- After tdx_rollback the original is left.
unfoldable pub closed : TdxRun Tdx (Unit {0}) → TdxRun (Option Tdx × Td) (Unit {0})
closed (done u tdx) = done tt (none, tdx.orig)
closed (failed e tdx) = failed e (some tdx, tdx.orig)
closed endless = endless

-- The transaction, unless it is closed, and the original.
unfoldable pub tdx_commit : Tdx → TdxRun (Option Tdx × Td) (Unit {0})
tdx_commit tdx = elim (tdc_init tdx.changes) [
  | ok cursor changes ↦
      closed (replay (changes.header.size + 1) cursor (record tdx { changes = changes }))
  | err e changes ↦ failed e (some (record tdx { changes = changes }), tdx.orig)
  | out_of_fuel ↦ endless
]
