-- ===== src/Store/Memory/Keyed.antt =====
-- The `BTreeMap<String, StoreRecord>` of checkpoint/adapters/memory.rs: `get` and `insert`.
use determa_state_rust.Prelude.{
  String, Option, none, some, List, [], ◌∷◌, ◌≡◌, str_eq, eq_iff, if◌then◌else◌, arith,
}
use determa_state_rust.Store.Records.{StoreRecord}

abbrev pub Table : Type 0
Table = List (String × StoreRecord)

unfoldable pub find_record : String → Table → Option StoreRecord
find_record k [] = none
find_record k ((j, r) ∷ t) = if str_eq j k then some r else find_record k t

unfoldable pub put_record : String → StoreRecord → Table → Table
put_record k r [] = (k, r) ∷ []
put_record k r ((j, q) ∷ t) = if str_eq j k then (k, r) ∷ t else (j, q) ∷ put_record k r t

pub find_record-put_record :
    (k j : String) (r : StoreRecord) (t : Table)
    → find_record j (put_record k r t) ≡ (if str_eq k j then some r else find_record j t)
unfolding find_record put_record
find_record-put_record k j r [] = ground arith
find_record-put_record k j r ((i, q) ∷ t) =
    ground (arith, eq_iff i k, eq_iff i j, eq_iff k j, find_record-put_record k j r t)
