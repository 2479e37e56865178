-- ===== src/Tests/Updates.antt =====
-- The theorems on changes of the tree, on the btree of Samples.
use sdbm_tree.Update.Lookup.{Finds, td_put_key-td_iterate}
use sdbm_tree.Update.Overwrite.{Overwrites, Overwritten, td_put_key-Overwritten}
use sdbm_tree.Update.Remove.{Removes, Removed, td_del_one-Removed, td_del_one-notfound}
use sdbm_tree.Update.Delete.{Deletes}
use sdbm_tree.Update.Refuse.{td_put_key-refuses}
use sdbm_tree.Tree.Zip.{Zip, zip}
use mathlib.Core.Bool.{false≢true}
use sdbm_tree.Common.{ℕ, ◌+◌, ◌≡◌, ◌⊎◌, refl, inl, inr, List, [], ◌∷◌, true, arith, length, none}
use sdbm_tree.Types.{Td, Cmp, nooverwrite}
use sdbm_tree.Types.Cmp.{equal}
use sdbm_tree.Types.Error.{space, dup, notfound}
use sdbm_tree.Machine.{ok, err}
use sdbm_tree.Space.Free.{Free}
use sdbm_tree.Space.Fit.{AllUnfit}
use sdbm_tree.Update.{td_put_key, td_del_one}
use sdbm_tree.Update.Room.{Holds}
use sdbm_tree.Update.New.{Suits}
use sdbm_tree.Update.Put.{Inserted, td_put_key-Inserted}
use sdbm_tree.Tests.{machine}
use sdbm_tree.Tests.Samples.{
  btree, tree_abc, tree_abc-TreeAt, Separated-abc, node_a, node_b, node_c, tree_a, tree_c,
  tree_a-TreeAt, tree_c-TreeAt, node_b-NodeAt,
}

abbrev some_free : List Free
some_free = record { ptr = 200; size = 60 } ∷ []

btree-Holds : Holds btree tree_abc some_free
unfolding machine
btree-Holds = record {
  tree = (tree_abc-TreeAt, refl, Separated-abc);
  free = record {
    word = omega arith;
    linked = (
      refl,
      record { low = omega arith; room = omega arith; high = omega arith; size_eq = refl },
      refl,
    );
    disjoint = (tt, tt);
    count = refl;
  };
  beside = ((inl (omega arith), tt), ((inl (omega arith), tt), ((inl (omega arith), tt), tt)));
}

-- The key "d".
abbrev key_d : List ℕ
key_d = 100 ∷ []

key_d-Suits : Suits btree key_d 0 0 0 0
unfolding machine
key_d-Suits = record {
  value_word = omega arith;
  previous_word = omega arith;
  next_word = omega arith;
  scn_word = omega arith;
  short = omega arith;
  aligned = refl;
  summed = λ on. absurd (false≢true on);
}

differ : Cmp.more ≡ equal → ⊥
differ e = cc

td_put_key-Inserted_example :
    ((td' : Td) × (td_put_key key_d 0 0 btree ≡ ok tt td') × Inserted btree td' tree_abc key_d 0)
    ⊎ ((d : ℕ) × (td_put_key key_d 0 0 btree ≡ err space (record btree { maxdepth = d }))
        × AllUnfit true (24 + length key_d) some_free)
unfolding machine
td_put_key-Inserted_example =
    td_put_key-Inserted btree tree_abc some_free key_d 0 0 btree-Holds key_d-Suits refl
      (omega arith) (omega arith) (omega arith)
      ((omega arith, (omega arith, tt)), ((omega arith, tt), (tt, tt)))
      (differ, (differ, (differ, tt)))

-- The key "b", which is there.
td_put_key-refuses_example :
    (d : ℕ) × (td_put_key (98 ∷ []) 0 nooverwrite btree ≡ err dup (record btree { maxdepth = d }))
unfolding machine
td_put_key-refuses_example =
    td_put_key-refuses btree tree_abc (98 ∷ []) 0 nooverwrite (node_a ∷ []) node_b (node_c ∷ [])
      (tree_abc-TreeAt, refl, Separated-abc) (omega arith) (omega arith)
      ((omega arith, (omega arith, tt)), ((omega arith, tt), (tt, tt))) refl refl refl refl

-- The node "b", which has two children.
abbrev place_b : Zip
place_b = zip tree_a node_b tree_c []

-- Its value.
abbrev value_b : Free
value_b = record { ptr = 270; size = 20 }

place_b-Deletes : Deletes btree place_b (value_b ∷ []) some_free
unfolding machine
place_b-Deletes = record {
  at = (node_b-NodeAt, refl, refl, tree_a-TreeAt, tree_c-TreeAt, tt);
  holds = btree-Holds;
  keep = refl;
  value = (
    refl,
    record { low = omega arith; room = omega arith; high = omega arith; size_eq = refl },
    refl,
  );
  disjoint = ((inr (omega arith), tt), (tt, tt));
  beside = ((inl (omega arith), tt), ((inl (omega arith), tt), ((inl (omega arith), tt), tt)));
  single = refl;
  few = omega arith;
  short = omega arith;
  nodes = omega arith;
  low = omega arith;
}

-- The deletion of the key "b".
key_b-Removes : Removes btree tree_abc node_b (value_b ∷ []) some_free
unfolding machine
key_b-Removes = record {
  holds = btree-Holds;
  header = refl;
  keep = refl;
  value = place_b-Deletes.value;
  disjoint = place_b-Deletes.disjoint;
  beside = place_b-Deletes.beside;
  single = refl;
  few = omega arith;
  short = omega arith;
  nodes = omega arith;
  low = omega arith;
}

td_del_one-Removed_example :
    (td' : Td) × (td_del_one (98 ∷ []) none 0 btree ≡ ok none td')
    × Removed td' (node_a ∷ []) node_b (node_c ∷ []) (value_b ∷ []) some_free
unfolding machine
td_del_one-Removed_example =
    td_del_one-Removed btree (98 ∷ []) 0 tree_abc (node_a ∷ []) node_b (node_c ∷ []) value_b []
      some_free key_b-Removes ((omega arith, (omega arith, tt)), ((omega arith, tt), (tt, tt))) refl
      (differ, tt) refl refl

td_del_one-notfound_example :
    (d : ℕ) × (td_del_one key_d none 0 btree ≡ err notfound (record btree { maxdepth = d }))
unfolding machine
td_del_one-notfound_example =
    td_del_one-notfound btree key_d 0 tree_abc none (tree_abc-TreeAt, refl, Separated-abc)
      (omega arith) (omega arith) refl (omega arith) (omega arith)
      ((omega arith, (omega arith, tt)), ((omega arith, tt), (tt, tt)))
      (differ, (differ, (differ, tt)))

-- The key "b" put again.
key_b-Overwrites : Overwrites btree tree_abc node_b (value_b ∷ []) some_free
unfolding machine
key_b-Overwrites = record {
  holds = btree-Holds;
  keep = refl;
  old = place_b-Deletes.value;
  disjoint = place_b-Deletes.disjoint;
  beside = place_b-Deletes.beside;
  few = omega arith;
  short = omega arith;
  nodes = omega arith;
  low = omega arith;
}

td_put_key-Overwritten_example :
    (td' : Td) × (td_put_key (98 ∷ []) 200 0 btree ≡ ok tt td')
    × Overwritten td' (node_a ∷ []) node_b 200 (node_c ∷ []) (value_b ∷ []) some_free
unfolding machine
td_put_key-Overwritten_example =
    td_put_key-Overwritten btree (98 ∷ []) 200 0 (omega arith) refl refl tree_abc (node_a ∷ [])
      node_b (node_c ∷ []) (value_b ∷ []) some_free key_b-Overwrites
      ((omega arith, (omega arith, tt)), ((omega arith, tt), (tt, tt))) refl (differ, tt) refl

td_put_key-td_iterate_example :
    ((td' : Td) × (td_put_key key_d 7 0 btree ≡ ok tt td') × Finds td' key_d 7)
    ⊎ ((d : ℕ) × (td_put_key key_d 7 0 btree ≡ err space (record btree { maxdepth = d }))
        × AllUnfit true (24 + length key_d) some_free)
unfolding machine
td_put_key-td_iterate_example =
    td_put_key-td_iterate btree tree_abc some_free key_d 7 0 btree-Holds
      (record {
        value_word = omega arith;
        previous_word = omega arith;
        next_word = omega arith;
        scn_word = omega arith;
        short = omega arith;
        aligned = refl;
        summed = λ on. absurd (false≢true on);
      })
      refl (omega arith) (omega arith) (omega arith)
      ((omega arith, (omega arith, tt)), ((omega arith, tt), (tt, tt)))
      (differ, (differ, (differ, tt))) refl
