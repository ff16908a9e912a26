-- ===== src/Hash.antt =====
-- src/hash.c: the chained hash tables of MIME types and of home directories.
--
-- Keys and values are C strings, and never null pointers. A table is the list of its chains. The
-- build options that choose another hash function are off. Whether `malloc` and `strdup` succeed
-- is an argument, `memory`, and `getpwnam` is one too.
pub mod Laws
pub mod Mime
use Prim.Native.Nat.{bit_xor}
use boa.Common.{
  if◌then◌else◌, ℕ, zero, suc, ◌+◌, ◌-◌, ◌*◌, ◌/◌, ◌%◌, ◌^◌, ◌≤◌, ◌<◌, min, ◌≡◌, refl, sym, ap, ap₂,
  ◌∙◌, ◌≢◌, ◌↔◌, ◌⊎◌, inl, inr, Bool, true, false, not, ◌&&◌, ◌||◌, Option, none, some, List, [],
  ◌∷◌, ◌++◌, map, append-nil, append_assoc, arith, ltb, leb, ◌==◌, within, ==_iff, eq-of-==,
  ==_refl, Bool-cases, Option-cases, and-eq-true, length, get_or, set, take, drop, replicate,
  length-append, length-set, length-take, length-drop, get_or-set_self, get_or-set_ne, All,
  All-append, Bytes, codes, str_eq, str_eq_iff, starts, suc-ne-zero, check_range, check_range-below,
  bool_eq, bool_eq_iff, member,
}

abbrev pub mime_hashtable_size : ℕ
mime_hashtable_size = 47

abbrev pub passwd_hashtable_size : ℕ
passwd_hashtable_size = 47

abbrev pub max_hash_length : ℕ
max_hash_length = 4

pub record HashStruct : Type 0 where
  pub key : Bytes
  pub value : Bytes

abbrev pub entry : Bytes → Bytes → HashStruct
entry k v = record { key = k; value = v }

abbrev pub HashTable : Type 0
HashTable = List (List HashStruct)

-- A char as an unsigned int: `char` is signed.
abbrev pub char_unsigned : ℕ → ℕ
char_unsigned c = if ltb c 128 then c else c + 2 ^ 32 - 256

abbrev pub fnv_step : ℕ → ℕ → ℕ
fnv_step hash c = bit_xor hash (char_unsigned c) * 16777619 % 2 ^ 32

-- The `do ... while (*str != '\0' && count--)` of `fnv1a_hash`, on a string that is not empty.
unfoldable pub fnv_loop : ℕ → ℕ → Bytes → ℕ
fnv_loop count hash [] = hash
fnv_loop count hash (c ∷ []) = fnv_step hash c
fnv_loop zero hash (c ∷ d ∷ s) = fnv_step hash c
fnv_loop (suc count) hash (c ∷ d ∷ s) = fnv_loop count (fnv_step hash c) (d ∷ s)

unfoldable pub fnv1a_hash : Bytes → ℕ
unfolding fnv_loop
fnv1a_hash s = fnv_loop max_hash_length 2166136261 s

unfoldable pub boa_hash : Bytes → ℕ
unfolding fnv1a_hash
boa_hash [] = 0
boa_hash (c ∷ s) = fnv1a_hash (c ∷ s)

-- The walk of `hash_insert` down a chain, and the new node behind its end.
unfoldable pub chain_insert :
    Bool → HashStruct → List HashStruct → List HashStruct × Option HashStruct
chain_insert memory new [] = if memory then (new ∷ [], some new) else ([], none)
chain_insert memory new (e ∷ r) =
    let (r', found) = chain_insert memory new r in
    if str_eq e.key new.key then (e ∷ r, some e) else (e ∷ r', found)

unfoldable pub hash_insert : Bool → HashTable → ℕ → Bytes → Bytes → HashTable × Option HashStruct
hash_insert memory table hash [] value = (table, none)
hash_insert memory table hash (k ∷ key) [] = (table, none)
hash_insert memory table hash (k ∷ key) (v ∷ value) =
    let (chain, found) = chain_insert memory (entry (k ∷ key) (v ∷ value)) (get_or table hash []) in
    (set table hash chain, found)

unfoldable pub chain_find : List HashStruct → Bytes → Option HashStruct
chain_find [] key = none
chain_find (e ∷ r) key = let more = chain_find r key in if str_eq e.key key then some e else more

unfoldable pub hash_find : HashTable → Bytes → ℕ → Option HashStruct
hash_find table [] hash = none
hash_find table (k ∷ key) hash = chain_find (get_or table hash []) (k ∷ key)

-- Every chain is freed.
unfoldable pub hash_clear : HashTable → HashTable
hash_clear [] = []
hash_clear (chain ∷ table) = [] ∷ hash_clear table

-- The totals that `hash_show_stats` prints.
unfoldable pub total_entries : HashTable → ℕ
total_entries [] = 0
total_entries (chain ∷ table) = length chain + total_entries table

unfoldable pub get_mime_hash_value : Bytes → ℕ
get_mime_hash_value extension = boa_hash extension % mime_hashtable_size

unfoldable pub get_homedir_hash_value : Bytes → ℕ
get_homedir_hash_value name = boa_hash name % passwd_hashtable_size

-- `none`: the server dies.
unfoldable pub add_mime_type : Bool → HashTable → Bytes → Bytes → Option HashTable
add_mime_type memory table extension type =
    let (table', found) = hash_insert memory table (get_mime_hash_value extension) extension type in
    elim found [ none ↦ none | some e ↦ some table' ]

-- What stands behind the last '.', by strrchr.
unfoldable pub after_last_dot : Bytes → Option Bytes
after_last_dot [] = none
after_last_dot (c ∷ s) = elim (after_last_dot s) [
  | some t ↦ some t
  | none ↦ if c == b'.' then some s else none
]

abbrev pub value_or : Option HashStruct → Bytes → Bytes
value_or none default = default
value_or (some e) default = e.value

-- The end of `get_mime_type`, on the extension.
unfoldable pub extension_type : HashTable → Bytes → Option Bytes → Bytes
extension_type table default_type none = default_type
extension_type table default_type (some []) = default_type
extension_type table default_type (some (c ∷ ext)) =
    value_or (hash_find table (c ∷ ext) (get_mime_hash_value (c ∷ ext))) default_type

unfoldable pub get_mime_type : HashTable → Bytes → Bytes → Bytes
get_mime_type table default_type filename =
    extension_type table default_type (after_last_dot filename)

abbrev pub value_of : Option HashStruct → Option Bytes
value_of none = none
value_of (some e) = some e.value

-- The table behind the call, and the directory, `none` for NULL.
unfoldable pub get_home_dir :
    (Bytes → Option Bytes) → Bool → HashTable → Bytes → HashTable × Option Bytes
get_home_dir getpwnam memory table name =
    let hash = get_homedir_hash_value name in
    elim (hash_find table name hash) [
      | some e ↦ (table, some e.value)
      | none ↦ elim (getpwnam name) [
        | none ↦ (table, none)
        | some pw_dir ↦
            let (table', found) = hash_insert memory table hash name pw_dir in
            (table', value_of found)
      ]
    ]
