-- ===== src/Hash/Mime.antt =====
-- `get_mime_type` and `get_home_dir`.
use boa.Common.{◌≡◌, refl, ◌≢◌, Option, none, some, [], ◌∷◌, ◌++◌, arith, All, Bytes}
use boa.Hash.{
  HashStruct, HashTable, hash_find, get_mime_hash_value, after_last_dot, extension_type,
  get_mime_type, value_or, value_of,
}
use boa.Hash.Laws.{mime_lookup}

-- The registered type, or the default.
abbrev pub type_or : Option Bytes → Bytes → Bytes
type_or none default = default
type_or (some t) default = t

after_last_dot-none : (s : Bytes) → All (λ c. c ≢ b'.') s → after_last_dot s ≡ none
unfolding after_last_dot
after_last_dot-none [] h = refl
after_last_dot-none (c ∷ s) h = rw (after_last_dot-none s h.1, after_last_dot) (ground arith)

after_last_dot-append :
    (base ext : Bytes) → All (λ c. c ≢ b'.') ext → after_last_dot (base ++ b'.' ∷ ext) ≡ some ext
unfolding after_last_dot
after_last_dot-append [] ext h = rw (after_last_dot-none ext h, after_last_dot)
after_last_dot-append (c ∷ base) ext h = rw (after_last_dot-append base ext h, after_last_dot)

-- The type of a file whose name ends in a dot and a non-empty extension without a dot is the one
-- that is registered for that extension, and the default type where none is registered.
pub get_mime_type-extension :
    (table : HashTable) (default_type base ext : Bytes)
    → ext ≢ []
    → All (λ c. c ≢ b'.') ext
    → get_mime_type table default_type (base ++ b'.' ∷ ext)
      ≡ type_or (mime_lookup table ext) default_type
unfolding get_mime_type extension_type
get_mime_type-extension table default_type base [] n h = absurd (n refl)
get_mime_type-extension table default_type base (c ∷ ext) n h =
    rw (after_last_dot-append base (c ∷ ext) h, extension_type)
      (go (hash_find table (c ∷ ext) (get_mime_hash_value (c ∷ ext))))
  where
    go : (o : Option HashStruct) → value_or o default_type ≡ type_or (value_of o) default_type
    go none = refl
    go (some e) = refl
