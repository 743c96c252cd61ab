-- ===== src/HashTable/Hash.antt =====
-- `hash_func` of study-linux-kernel/dll/common_hashtable_dll.c.
use study_linux_kernel.Base.{
  ℕ, ◌+◌, ◌*◌, ◌-◌, ◌%◌, ◌^◌, ◌<◌, List, [], ◌∷◌, arith, ltb, if◌then◌else◌,
}

-- HASH_SIZE
abbrev pub hash_size : ℕ
hash_size = 1024

-- MAX_KEY_LEN
abbrev pub max_key_len : ℕ
max_key_len = 128

abbrev pub u32_mod : ℕ
u32_mod = 2 ^ 32

-- `*p` as an unsigned int: `char` is signed, so a byte from 128 up is b - 256, carried to 32 bits.
pub char_value : ℕ → ℕ
char_value b = if ltb b 128 then b else b + (u32_mod - 256)

-- The loop `while (*p) { hash = hash * 31 + *p; p++; }`
pub hash_loop : ℕ → List ℕ → ℕ
hash_loop hash [] = hash
hash_loop hash (b ∷ p) = hash_loop ((hash * 31 + char_value b) % u32_mod) p

unfoldable pub hash_func : List ℕ → ℕ
unfolding hash_loop char_value
hash_func key = hash_loop 0 key % hash_size

-- Every key has a bucket.
pub hash_func-lt : (key : List ℕ) → hash_func key < hash_size
unfolding hash_func
hash_func-lt key = omega arith
