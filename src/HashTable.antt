-- ===== src/HashTable.antt =====
-- study-linux-kernel/dll/common_hashtable_dll.h and .c: a chained hash table with 1024 buckets and
-- an external iterator. `Hash` has the hash function, `Table` the node, the table and its three
-- operations, `Iterator` the cursor; the other modules prove.
pub mod Hash
pub mod Table
pub mod Iterator
pub mod Placed
pub mod Chains
pub mod Put
pub mod Traversal
