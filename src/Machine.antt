-- ===== src/Machine.antt =====
-- Commands over a btree: the state is threaded through, an error return keeps what was changed
-- before it (as CHECK of td_private.h does), and a loop that has used up its fuel is told apart.
use sdbm_tree.Types.{Td, Header, Error}

pub data Run (A : Type 0) : Type 0 where
  ok : A → Td → Run A
  err : Error → Td → Run A
  out_of_fuel : Run A

abbrev pub Cmd : Type 0 → Type 0
Cmd A = Td → Run A

abbrev pub Command : Type 0
Command = Cmd (Unit {0})

abbrev pub pure : {A : Type 0} → A → Cmd A
pure = ok

-- `return e` and RETURNERR(e)
abbrev pub fail : {A : Type 0} → Error → Cmd A
fail e td = err e td

abbrev pub stuck : {A : Type 0} → Cmd A
stuck td = out_of_fuel

module _ {A B : Type 0} where
  abbrev pub and_then : Run A → (A → Cmd B) → Run B
  and_then (ok a td) k = k a td
  and_then (err e td) k = err e td
  and_then out_of_fuel k = out_of_fuel

  infixl 5 ◌>>=◌ ◌>>◌
  abbrev pub ◌>>=◌ : Cmd A → (A → Cmd B) → Cmd B
  m >>= k = λ td. and_then (m td) k

  abbrev pub ◌>>◌ : Cmd A → Cmd B → Cmd B
  m >> n = m >>= λ _. n

  -- `int r = f(...)`, with both outcomes looked at: `done` on zero, `failed` on an error.
  abbrev pub on_result : Run A → (A → Cmd B) → (Error → Cmd B) → Run B
  on_result (ok a td) done failed = done a td
  on_result (err e td) done failed = failed e td
  on_result out_of_fuel done failed = out_of_fuel

-- CHECK2(a, b): on an error of `a` the command `b` runs, its own result unused.
unfoldable pub check2 : {A : Type 0} → Cmd A → Command → Cmd A
check2 a b td =
    on_result (a td) pure (λ e td'. on_result (b td') (λ _ td''. err e td'') (λ _ td''. err e td''))

abbrev pub get : Cmd Td
get td = ok td td

abbrev pub put : Td → Command
put td _ = ok tt td

abbrev pub modify_header : (Header → Header) → Command
modify_header f td = ok tt (record td { header = f td.header })
