-- ===== src/Hash/Laws.antt =====
-- The table of MIME types as a finite map in which the first value of a key stays.
use boa.Common.{
  if◌then◌else◌, false, Option-cases, get_or-set_ne, get_or-set_self, eq-of-==, ◌∙◌, length-set,
  ◌==◌, get_or, set, ◌<◌, ◌≢◌, suc, ap, ℕ, length, ◌≡◌, refl, inl, inr, true, Option, none, some,
  List, [], ◌∷◌, arith, Bool-cases, Bytes, str_eq, str_eq_iff,
}
use boa.Hash.{
  get_homedir_hash_value, passwd_hashtable_size, get_home_dir, entry, mime_hashtable_size,
  total_entries, hash_clear, hash_insert, add_mime_type, HashStruct, HashTable, chain_insert,
  chain_find, hash_find, get_mime_hash_value, value_of,
}

-- The value that a table holds for a key, by the hash function of the table.
abbrev pub find_by : (Bytes → ℕ) → HashTable → Bytes → Option Bytes
find_by hash_of table k = value_of (hash_find table k (hash_of k))

abbrev pub mime_lookup : HashTable → Bytes → Option Bytes
mime_lookup = find_by get_mime_hash_value

abbrev pub passwd_lookup : HashTable → Bytes → Option Bytes
passwd_lookup = find_by get_homedir_hash_value

-- A value that is there stays.
abbrev pub or_else : Option Bytes → Bytes → Option Bytes
or_else none v = some v
or_else (some w) v = some w

chain_find-insert :
    (new : HashStruct) (chain : List HashStruct) (k : Bytes)
    → value_of (chain_find (chain_insert true new chain).0 k) ≡ (
        if str_eq new.key k
        then or_else (value_of (chain_find chain k)) new.value
        else value_of (chain_find chain k))
unfolding chain_find chain_insert
chain_find-insert new [] k = ground arith
chain_find-insert new (e ∷ r) k = ground (
  arith,
  chain_find-insert new r k,
  str_eq_iff e.key new.key,
  str_eq_iff e.key k,
  str_eq_iff new.key k,
)

chain_insert-found :
    (new : HashStruct) (chain : List HashStruct)
    → (e : HashStruct) × ((chain_insert true new chain).1 ≡ some e)
unfolding chain_insert
chain_insert-found new [] = (new, refl)
chain_insert-found new (e ∷ r) = elim (Bool-cases (str_eq e.key new.key)) [
  | inl same ↦ (e, rw same)
  | inr other ↦ let (f, p) = chain_insert-found new r in (f, rw other p)
]

other_key :
    (hash_of : Bytes → ℕ) (a b : Bytes) → (hash_of a == hash_of b) ≡ false → str_eq a b ≡ false
other_key hash_of a b h = elim (Bool-cases (str_eq a b)) [
  | inl same ↦ absurd (ground (arith, ap hash_of ((str_eq_iff a b).0 same)))
  | inr differ ↦ differ
]

-- A chain is written back; the others are not touched.
find_by-set :
    (hash_of : Bytes → ℕ) (table : HashTable) (new : HashStruct) (k : Bytes)
    → hash_of new.key < length table
    → k ≢ []
    → find_by hash_of
        (set table (hash_of new.key) (chain_insert true new (get_or table (hash_of new.key) [])).0)
        k
      ≡ (if str_eq new.key k
          then or_else (find_by hash_of table k) new.value
          else find_by hash_of table k)
unfolding hash_find
find_by-set hash_of table new [] size ne = absurd (ne refl)
find_by-set hash_of table new (c ∷ k) size ne =
    let h = hash_of new.key in
    let chain = get_or table h [] in
    let chain' = (chain_insert true new chain).0 in
    elim (Bool-cases (h == hash_of (c ∷ k))) [
      | inl same ↦
          let e = eq-of-== h (hash_of (c ∷ k)) same in
          rw (← e, get_or-set_self table h chain' [] size) (chain_find-insert new chain (c ∷ k))
      | inr differ ↦ rw (
        get_or-set_ne table h (hash_of (c ∷ k)) chain' [] (ground arith),
        other_key hash_of new.key (c ∷ k) differ,
      )
    ]

hash_insert-found :
    (table : HashTable) (hash : ℕ) (key value : Bytes)
    → key ≢ []
    → value ≢ []
    → (e : HashStruct) × (hash_insert true table hash key value
        ≡ (set table hash (chain_insert true (entry key value) (get_or table hash [])).0, some e))
unfolding hash_insert
hash_insert-found table hash [] value p q = absurd (p refl)
hash_insert-found table hash (k ∷ key) [] p q = absurd (q refl)
hash_insert-found table hash (k ∷ key) (v ∷ value) p q =
    let (e, found) = chain_insert-found (entry (k ∷ key) (v ∷ value)) (get_or table hash []) in
    (e, rw found)

mime_hash-lt : (k : Bytes) → get_mime_hash_value k < mime_hashtable_size
unfolding get_mime_hash_value
mime_hash-lt k = omega arith

homedir_hash-lt : (k : Bytes) → get_homedir_hash_value k < passwd_hashtable_size
unfolding get_homedir_hash_value
homedir_hash-lt k = omega arith

-- With memory at hand and a table of 47 chains, registering a non-empty type for a non-empty
-- extension succeeds and keeps the number of chains; afterwards the extension has that type if it
-- had none and else its old one, and every other non-empty extension has what it had.
pub add_mime_type-lookup :
    (table : HashTable) (extension type k : Bytes)
    → length table ≡ mime_hashtable_size
    → extension ≢ []
    → type ≢ []
    → k ≢ []
    → (table' : HashTable) × (add_mime_type true table extension type ≡ some table')
      × (length table' ≡ mime_hashtable_size)
      × (mime_lookup table' k ≡ (
          if str_eq extension k then or_else (mime_lookup table k) type else mime_lookup table k))
unfolding add_mime_type
add_mime_type-lookup table extension type k size p q n =
    let h = get_mime_hash_value extension in
    let (e, found) = hash_insert-found table h extension type p q in
    (
      set table h (chain_insert true (entry extension type) (get_or table h [])).0,
      rw (found, add_mime_type) (ap (λ (r : HashTable × Option HashStruct). some r.0) found),
      length-set table h _ ∙ size,
      find_by-set get_mime_hash_value table (entry extension type) k
          (omega (arith, size, mime_hash-lt extension)) n,
    )

-- hash_clear leaves no entry in a table and keeps the number of chains.
pub hash_clear-empty :
    (table : HashTable)
    → (length (hash_clear table) ≡ length table) × (total_entries (hash_clear table) ≡ 0)
unfolding hash_clear total_entries
hash_clear-empty [] = (refl, refl)
hash_clear-empty (chain ∷ table) =
    let (p, q) = hash_clear-empty table in (ap suc p, omega (arith, q))

chain_insert-value :
    (new : HashStruct) (chain : List HashStruct)
    → value_of (chain_insert true new chain).1
      ≡ or_else (value_of (chain_find chain new.key)) new.value
unfolding chain_insert chain_find
chain_insert-value new [] = refl
chain_insert-value new (e ∷ r) = ground (arith, chain_insert-value new r)

-- The answer of `get_home_dir`, and the value of a key behind the call.
pub record Answers (table table' : HashTable) (name dir k : Bytes) (answer : Option Bytes)
    : Type 0 where
  pub answered : answer ≡ or_else (passwd_lookup table name) dir
  pub cached :
      passwd_lookup table' k
      ≡ (if str_eq name k then or_else (passwd_lookup table k) dir else passwd_lookup table k)

insert-Answers :
    (table : HashTable) (name dir k : Bytes)
    → length table ≡ passwd_hashtable_size
    → name ≢ []
    → dir ≢ []
    → k ≢ []
    → Answers table
        (hash_insert true table (get_homedir_hash_value name) name dir).0
        name
        dir
        k
        (value_of (hash_insert true table (get_homedir_hash_value name) name dir).1)
unfolding hash_insert hash_find
insert-Answers table [] dir k size p q n = absurd (p refl)
insert-Answers table (c ∷ name) [] k size p q n = absurd (q refl)
insert-Answers table (c ∷ name) (d ∷ dir) k size p q n = record {
  answered =
      chain_insert-value (entry (c ∷ name) (d ∷ dir))
        (get_or table (get_homedir_hash_value (c ∷ name)) []);
  cached =
      find_by-set get_homedir_hash_value table (entry (c ∷ name) (d ∷ dir)) k
        (omega (arith, size, homedir_hash-lt (c ∷ name))) n;
}

hit-Answers :
    (table : HashTable) (name dir k : Bytes) (e : HashStruct)
    → hash_find table name (get_homedir_hash_value name) ≡ some e
    → Answers table table name dir k (some e.value)
hit-Answers table name dir k e hit = record {
  answered = rw hit;
  cached = elim (Bool-cases (str_eq name k)) [
    | inl same ↦ rw (same, ← (str_eq_iff name k).0 same, hit)
    | inr other ↦ rw other
  ];
}

-- With memory at hand, a table of 47 chains and a user whom getpwnam knows, all names non-empty,
-- get_home_dir answers with the cached directory if there is one and else with that of getpwnam;
-- then the cache holds the answer, and for other names what it held.
pub get_home_dir-cache :
    (getpwnam : Bytes → Option Bytes) (table : HashTable) (name dir k : Bytes)
    → length table ≡ passwd_hashtable_size
    → name ≢ []
    → dir ≢ []
    → k ≢ []
    → getpwnam name ≡ some dir
    → Answers table
        (get_home_dir getpwnam true table name).0
        name
        dir
        k
        (get_home_dir getpwnam true table name).1
unfolding get_home_dir
get_home_dir-cache getpwnam table name dir k size p q n known =
    elim (Option-cases (hash_find table name (get_homedir_hash_value name))) [
      | inl missing ↦ rw (missing, get_home_dir, known) (insert-Answers table name dir k size p q n)
      | inr (e, hit) ↦ rw (hit, get_home_dir) (hit-Answers table name dir k e hit)
    ]
