-- ===== src/Alias.antt =====
-- src/alias.c: the table of aliases, and the file that a request's path names.
--
-- Strings are C strings and never null pointers, and fake_len and real_len are the lengths of the
-- two names. An allocation does not fail. For a ScriptAlias translate_uri is left at the alias
-- that was found. An error reply is the result; of the request only pathname, script_name and
-- cgi_type are set.
pub mod Find
pub mod Rooted
pub mod Script
pub mod PathInfo
use boa.Common.{
  ◌∙◌, sym, ap, ℕ, zero, suc, ◌+◌, ◌-◌, ◌*◌, ◌/◌, ◌%◌, ◌^◌, ◌≤◌, ◌<◌, min, ◌≡◌, refl, sym, ap, ap₂,
  ◌∙◌, ◌≢◌, ◌↔◌, ◌⊎◌, inl, inr, Bool, true, false, not, ◌&&◌, ◌||◌, Option, none, some, List, [],
  ◌∷◌, ◌++◌, map, append-nil, append_assoc, arith, ltb, leb, ◌==◌, if◌then◌else◌, within, ==_iff,
  eq-of-==, ==_refl, Bool-cases, Option-cases, and-eq-true, length, get_or, set, take, drop,
  replicate, length-append, length-set, length-take, length-drop, get_or-set_self, get_or-set_ne,
  All, All-append, Bytes, codes, str_eq, str_eq_iff, starts, suc-ne-zero, check_range,
  check_range-below, bool_eq, bool_eq_iff, member, take-append-drop, get_or-drop, take-length,
  drop_nil, drop-drop, drop_all, drop-append, take_all, take-append,
}
use boa.Status.{
  HttpMethod, m_post, HttpVersion, http09, AliasType, alias, scriptalias, redirect, CgiType, nph,
  cgi,
}
use boa.Hash.{char_unsigned}

abbrev pub alias_hashtable_size : ℕ
alias_hashtable_size = 17

abbrev pub max_header_length : ℕ
max_header_length = 1536

pub record Alias : Type 0 where
  pub fakename : Bytes
  pub realname : Bytes
  pub type : AliasType

abbrev pub AliasTable : Type 0
AliasTable = List (List Alias)

-- The `while` of `get_alias_hash_value`: it stops at '/' or at the NUL.
unfoldable pub alias_hash_loop : ℕ → Bytes → ℕ
alias_hash_loop hash [] = hash
alias_hash_loop hash (c ∷ s) =
    let more = alias_hash_loop ((hash + char_unsigned c) % 2 ^ 32) s in
    if c == b'/' then hash else more

unfoldable pub get_alias_hash_value : Bytes → ℕ
get_alias_hash_value [] = 0
get_alias_hash_value (c ∷ file) = alias_hash_loop (char_unsigned c) file % alias_hashtable_size

-- The walk of `add_alias` down a chain, which looks at an entry only if another one follows it.
unfoldable pub chain_add : Alias → List Alias → List Alias
chain_add new [] = new ∷ []
chain_add new (old ∷ []) = old ∷ new ∷ []
chain_add new (old ∷ next ∷ rest) =
    let rest' = chain_add new (next ∷ rest) in
    if str_eq new.fakename old.fakename then old ∷ next ∷ rest else old ∷ rest'

-- For names that are not empty; the server ends with an empty one.
unfoldable pub add_alias : Alias → AliasTable → AliasTable
add_alias new table =
    let hash = get_alias_hash_value new.fakename in
    set table hash (chain_add new (get_or table hash []))

-- The last byte.
unfoldable pub last_byte : Bytes → ℕ
last_byte [] = 0
last_byte (c ∷ []) = c
last_byte (c ∷ d ∷ s) = last_byte (d ∷ s)

-- The condition in the loop of `find_alias`.
unfoldable pub is_match : Bytes → Alias → Bool
is_match uri a =
    let next = get_or uri (length a.fakename) 0 in
    leb (length a.fakename) (length uri)
    && starts a.fakename uri
    && (last_byte a.fakename == b'/'
        || not (last_byte a.fakename == b'/') && (next == 0 || next == b'/'))

unfoldable pub find_in_chain : Bytes → List Alias → Option Alias
find_in_chain uri [] = none
find_in_chain uri (current ∷ chain) =
    let rest = find_in_chain uri chain in if is_match uri current then some current else rest

unfoldable pub find_alias : AliasTable → Bytes → Option Alias
find_alias table uri = find_in_chain uri (get_or table (get_alias_hash_value uri) [])

-- Frees every chain.
unfoldable pub dump_alias : AliasTable → AliasTable
dump_alias [] = []
dump_alias (chain ∷ table) = [] ∷ dump_alias table

-- The configuration, and what the server knows of the connection.
pub record Roots : Type 0 where
  pub document_root : Option Bytes
  pub user_dir : Option Bytes
  pub vhost_root : Option Bytes
  pub virtualhost : Bool
  pub local_ip_addr : Bytes
  pub host : Bytes

-- What translate_uri ends with: a reply, the alias of a script, or the file, with its script_name
-- and cgi_type where it is a program.
pub data Translated : Type 0 where
  bad_request not_found : Translated
  moved_temp : Bytes → Translated
  script : Alias → Translated
  file : (pathname : Bytes) → Translated
  program : (pathname script_name : Bytes) → CgiType → Translated

-- The text fits the buffer with its NUL.
abbrev pub fits : Bytes → Bool
fits text = leb (length text + 1) (max_header_length + 1)

abbrev pub is_post : HttpMethod → Bool
is_post m_post = true
is_post _ = false

-- The first '/', and what stands behind it.
unfoldable pub split_slash : Bytes → Bytes × Bytes
split_slash [] = ([], [])
split_slash (c ∷ s) =
    let (name, rest) = split_slash s in if c == b'/' then ([], c ∷ s) else (c ∷ name, rest)

-- A request for an alias, by its type; `buffer` is what the two memcpy make.
unfoldable pub by_type : HttpMethod → Bytes → Alias → AliasType → Translated
by_type method buffer current scriptalias = script current
by_type method buffer current redirect =
    if not (fits buffer)
    then bad_request
    else if is_post method
    then bad_request
    else moved_temp buffer
by_type method buffer current alias = if not (fits buffer) then bad_request else file buffer

abbrev pub translate_alias : HttpMethod → Bytes → Alias → Translated
translate_alias method request_uri current =
    by_type method (current.realname ++ drop (length current.fakename) request_uri) current
      current.type

abbrev pub cgi_type_of : HttpVersion → CgiType
cgi_type_of http09 = nph
cgi_type_of _ = cgi

-- The end of `translate_uri`. `is_cgi` is that the file has the type of a program.
unfoldable pub finish_translate :
    (Bytes → Bool) → HttpMethod → HttpVersion → Bytes → Bytes → Translated
finish_translate is_cgi method version request_uri pathname =
    if is_cgi pathname
    then program pathname request_uri (cgi_type_of version)
    else if is_post method
    then bad_request
    else file pathname

module _ (get_home_dir : Bytes → Option Bytes) (is_cgi : Bytes → Bool) where
  -- A text that is too long for the buffer is refused.
  unfoldable pub in_buffer : HttpMethod → HttpVersion → Bytes → Bytes → Translated
  in_buffer method version request_uri buffer =
      if fits buffer then finish_translate is_cgi method version request_uri buffer else bad_request

  -- The part for '~': `name` is what follows it.
  unfoldable pub translate_user : HttpMethod → HttpVersion → Bytes → Bytes → Bytes → Translated
  translate_user method version request_uri user_dir [] = bad_request
  translate_user method version request_uri user_dir (c ∷ name) =
      let (user, rest) = split_slash (c ∷ name) in
      elim (get_home_dir user) [
        | none ↦ not_found
        | some user_homedir ↦
            in_buffer method version request_uri (user_homedir ++ b'/' ∷ user_dir ++ rest)
      ]

  -- Neither an alias nor a user's directory: vhost_root and document_root are the last arguments.
  unfoldable pub by_roots :
      HttpMethod → HttpVersion → Roots → Bytes → Option Bytes → Option Bytes → Translated
  by_roots method version roots request_uri (some vhost_root) d =
      in_buffer method version request_uri (
        vhost_root
        ++ b'/' ∷ roots.local_ip_addr
        ++ b'/' ∷ roots.host
        ++ codes "/htdocs"
        ++ request_uri)
  by_roots method version roots request_uri none (some document_root) =
      if roots.virtualhost
      then in_buffer method version request_uri
          (document_root ++ b'/' ∷ roots.local_ip_addr ++ request_uri)
      else if ltb (max_header_length + 1) (length document_root + 1 + length request_uri + 1)
      then bad_request
      else finish_translate is_cgi method version request_uri (document_root ++ request_uri)
  by_roots method version roots request_uri none none = not_found

  abbrev pub translate_root : HttpMethod → HttpVersion → Roots → Bytes → Translated
  translate_root method version roots request_uri =
      by_roots method version roots request_uri roots.vhost_root roots.document_root

  -- The path begins with a slash.
  unfoldable pub translate_path :
      HttpMethod → HttpVersion → Roots → Option Bytes → Bytes → Translated
  translate_path method version roots (some user_dir) (s ∷ c ∷ name) =
      if c == b'~'
      then translate_user method version (s ∷ c ∷ name) user_dir name
      else translate_root method version roots (s ∷ c ∷ name)
  translate_path method version roots u request_uri =
      translate_root method version roots request_uri

  unfoldable pub translate_uri : AliasTable → HttpMethod → HttpVersion → Roots → Bytes → Translated
  translate_uri table method version roots request_uri =
      if not (get_or request_uri 0 0 == b'/')
      then bad_request
      else elim (find_alias table request_uri) [
        | some current ↦ translate_alias method request_uri current
        | none ↦ translate_path method version roots roots.user_dir request_uri
      ]
