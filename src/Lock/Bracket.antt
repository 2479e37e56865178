-- ===== src/Lock/Bracket.antt =====
-- The count of td_lock.c and td_unlock.c, and what the callback is asked, round some work.
use sdbm_tree.Common.{
  ℕ, ◌<◌, ◌≡◌, refl, sym, ap, ap₂, ◌∙◌, Bool-cases, inl, inr, Bool, true, false, Option, none, some,
  arith, ◌==◌, if◌then◌else◌, add32, sub32, word_mod,
}
use sdbm_tree.Types.{Td, Error}
use sdbm_tree.Machine.{on_result, and_then, ◌>>◌, pure, fail, Run, Cmd, ok, err, out_of_fuel}
use sdbm_tree.Lock.{answer, lock_with, unlock_with, td_lock, td_unlock, bracket, locked}

-- The count that a lock callback sees go up by one; without a callback nothing is counted.
abbrev pub raised : Option (Bool → Option Error) → ℕ → ℕ
raised none n = n
raised (some l) n = add32 n 1

abbrev pub entered : Td → Td
entered td = record td { locked = raised td.lock td.locked }

-- How a run ended, without the state.
pub data Outcome (A : Type 0) : Type 0 where
  gave : A → Outcome A
  failed : Error → Outcome A
  starved : Outcome A

module _ {A : Type 0} where
  -- A run that leaves the count and the callback as they are in `td`, however it ends.
  abbrev pub LeavesLock : Td → Run A → Type 0
  LeavesLock td (ok a td') = (td'.locked ≡ td.locked) × (td'.lock ≡ td.lock)
  LeavesLock td (err e td') = (td'.locked ≡ td.locked) × (td'.lock ≡ td.lock)
  LeavesLock td out_of_fuel = Unit {0}

  abbrev pub outcome : Run A → Outcome A
  outcome (ok a td) = gave a
  outcome (err e td) = failed e
  outcome out_of_fuel = starved

-- What the callback answers at a count, if it is asked at all: only the outermost lock and its release
-- are asked for.
abbrev pub asked : Option (Bool → Option Error) → ℕ → Bool → Option Error
asked none n b = none
asked (some l) n b = if n == 0 then l b else none

-- Back from the count that td_lock left.
abbrev pub lowered : Option (Bool → Option Error) → ℕ → ℕ
lowered none n = n
lowered (some l) n = sub32 n 1

module _ {A : Type 0} where
  -- The answer to td_lock comes before the work.
  abbrev pub refused_or : Option Error → Outcome A → Outcome A
  refused_or none o = o
  refused_or (some e) o = failed e

  -- The answer to td_unlock comes after it, and its error takes the place of what the work gave.
  abbrev pub released_or : Option Error → Outcome A → Outcome A
  released_or o starved = starved
  released_or none (gave a) = gave a
  released_or none (failed e) = failed e
  released_or (some e) (gave a) = failed e
  released_or (some e) (failed e') = failed e

  -- The state in which a run ends, by the answer to td_lock: with the count of before, or with the
  -- raised count and no work done.
  abbrev pub EndsLocked : Td → Option Error → Run A → Type 0
  EndsLocked td none r = LeavesLock td r
  EndsLocked td (some e) r = r ≡ err e (entered td)

td_lock-asks :
    (td : Td)
    → td.locked < word_mod
    → td_lock td ≡ answer (asked td.lock td.locked true) (entered td)
unfolding td_lock lock_with answer
td_lock-asks td w = asks td.lock
  where
    asks :
        (o : Option (Bool → Option Error))
        → lock_with o td
          ≡ answer (asked o td.locked true) (record td { locked = raised o td.locked })
    asks none = refl
    asks (some l) = elim (Bool-cases (td.locked == 0)) [
      | inl z ↦ let e : (add32 td.locked 1 == 1) ≡ true = ground (arith, z) in rw (z, e) refl
      | inr p ↦ let e : (add32 td.locked 1 == 1) ≡ false = ground (arith, p, w) in rw (p, e) refl
    ]

-- td_unlock in a state that has the count of td_lock.
td_unlock-asks :
    (td : Td) (n : ℕ)
    → n < word_mod
    → td.locked ≡ raised td.lock n
    → td_unlock td
      ≡ answer (asked td.lock n false) (record td { locked = lowered td.lock td.locked })
unfolding td_unlock unlock_with answer
td_unlock-asks td n w k = asks td.lock k
  where
    asks :
        (o : Option (Bool → Option Error))
        → td.locked ≡ raised o n
        → unlock_with o td ≡ answer (asked o n false) (record td { locked = lowered o td.locked })
    asks none k = refl
    asks (some l) k = elim (Bool-cases (n == 0)) [
      | inl z ↦ let e : (sub32 td.locked 1 == 0) ≡ true = ground (arith, z, k) in rw (z, e) refl
      | inr p ↦ let e : (sub32 td.locked 1 == 0) ≡ false = ground (arith, p, w, k) in rw (p, e) refl
    ]

lowered-raised :
    (o : Option (Bool → Option Error)) (n : ℕ) → n < word_mod → lowered o (raised o n) ≡ n
lowered-raised none n w = refl
lowered-raised (some l) n w = omega arith

module _ (td : Td) (w : td.locked < word_mod) where
  -- The count and the callback after td_unlock, where the work left them alone.
  restored :
      (td' : Td)
      → (td'.locked ≡ raised td.lock td.locked) × (td'.lock ≡ td.lock)
      → (lowered td'.lock td'.locked ≡ td.locked) × (td'.lock ≡ td.lock)
  restored td' k = (ap₂ lowered k.1 k.0 ∙ lowered-raised td.lock td.locked w, k.1)

  released :
      (td' : Td)
      → (td'.locked ≡ raised td.lock td.locked) × (td'.lock ≡ td.lock)
      → td_unlock td'
        ≡ answer
            (asked td.lock td.locked false)
            (record td' { locked = lowered td'.lock td'.locked })
  released td' k =
      td_unlock-asks td' td.locked w (k.0 ∙ ap (λ l. raised l td.locked) (sym k.1))
      ∙ ap
          (λ l.
            answer (asked l td.locked false) (record td' { locked = lowered td'.lock td'.locked }))
          k.1

  abbrev unlocking : {A : Type 0} → Run A → Run A
  unlocking r = on_result r (λ a. td_unlock >> pure a) (λ e. td_unlock >> fail e)

  ends :
      {A : Type 0} (r : Run A)
      → LeavesLock (entered td) r
      → (outcome (unlocking r) ≡ released_or (asked td.lock td.locked false) (outcome r))
        × LeavesLock td (unlocking r)
  unfolding answer
  ends {A} r k = by_answer (asked td.lock td.locked false) refl r k
    where
      by_answer :
          (o : Option Error)
          → asked td.lock td.locked false ≡ o
          → (r : Run A) → LeavesLock (entered td) r
          → (outcome (unlocking r) ≡ released_or o (outcome r)) × LeavesLock td (unlocking r)
      by_answer o e out_of_fuel k = (refl, tt)
      by_answer none e (ok a td') k = rw (released td' k, e) (refl, restored td' k)
      by_answer none e (err c td') k = rw (released td' k, e) (refl, restored td' k)
      by_answer (some d) e (ok a td') k = rw (released td' k, e) (refl, restored td' k)
      by_answer (some d) e (err c td') k = rw (released td' k, e) (refl, restored td' k)

  -- Work between td_lock and td_unlock, at a count that is a word, where the work leaves the count and
  -- the callback as it found them. The callback is asked for the lock, and then for its release, where
  -- it is set and the count is 0 before. Where it refuses the lock, that error is the result, no work
  -- is done, and the count stays raised. Else the work runs and the count ends as it was: the result
  -- is that of the work if the release is granted, and the error of the release if it is refused; work
  -- that does not end is not released.
  pub locked-answers :
      {A : Type 0} (body : Cmd A)
      → LeavesLock (entered td) (body (entered td))
      → (outcome (locked body td)
          ≡ refused_or
              (asked td.lock td.locked true)
              (released_or (asked td.lock td.locked false) (outcome (body (entered td)))))
        × EndsLocked td (asked td.lock td.locked true) (locked body td)
  unfolding bracket answer
  locked-answers {A} body k = rw (td_lock-asks td w) (by_answer (asked td.lock td.locked true))
    where
      by_answer :
          (o : Option Error)
          → (outcome (and_then (answer o (entered td)) (λ _. λ td'. unlocking (body td')))
              ≡ refused_or o
                  (released_or (asked td.lock td.locked false) (outcome (body (entered td)))))
            × EndsLocked td o (and_then (answer o (entered td)) (λ _. λ td'. unlocking (body td')))
      by_answer none = ends (body (entered td)) k
      by_answer (some e) = (refl, refl)

-- Where the callback refuses the outermost lock, td_lock gives its error and keeps the count raised:
-- the next td_lock succeeds and the callback is not asked, so that work runs without the lock.
pub td_lock-refused :
    (td : Td) (l : Bool → Option Error) (e : Error)
    → td.lock ≡ some l
    → td.locked ≡ 0
    → l true ≡ some e
    → (td_lock td ≡ err e (record td { locked = 1 }))
      × (td_lock (record td { locked = 1 }) ≡ ok tt (record td { locked = 2 }))
unfolding td_lock lock_with answer
td_lock-refused td l e set free refused = (rw (set, free, refused) refl, rw set refl)
