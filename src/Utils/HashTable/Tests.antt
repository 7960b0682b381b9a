-- ===== src/Utils/HashTable/Tests.antt =====
-- A put into a new table, and a removal.
use luck_os.Common.{◌*◌, ◌^◌, ◌<◌, arith}
use luck_os.Utils.HashTable.{hash_table_init, hash_table_put, hash_table_remove}
use luck_os.Utils.HashTable.Put.{IsPut, hash_table_put-IsPut}
use luck_os.Utils.HashTable.Expand.{IsTable}
use luck_os.Utils.HashTable.Remove.{IsRemoved, hash_table_remove-IsRemoved, hash_table_init-IsTable}

init-doubles : hash_table_init.buckets_num * 2 < 2 ^ 32
unfolding hash_table_init
init-doubles = omega arith

put-valid : IsTable (hash_table_put hash_table_init 19 4096).1
put-valid =
    (hash_table_put-IsPut hash_table_init 19 4096 hash_table_init-IsTable init-doubles).valid

hash_table_put-IsPut_example :
    IsPut hash_table_init 19 4096
      (hash_table_put hash_table_init 19 4096).0
      (hash_table_put hash_table_init 19 4096).1
hash_table_put-IsPut_example =
    hash_table_put-IsPut hash_table_init 19 4096 hash_table_init-IsTable init-doubles

hash_table_remove-IsRemoved_example :
    IsRemoved
      (hash_table_put hash_table_init 19 4096).1
      19
      (hash_table_remove (hash_table_put hash_table_init 19 4096).1 19).0
      (hash_table_remove (hash_table_put hash_table_init 19 4096).1 19).1
hash_table_remove-IsRemoved_example =
    hash_table_remove-IsRemoved (hash_table_put hash_table_init 19 4096).1 19 put-valid
