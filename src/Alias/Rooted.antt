-- ===== src/Alias/Rooted.antt =====
-- The file that `translate_uri` names stands below one of the roots, and fits the buffer.
use boa.Common.{
  ◌∙◌, sym, ap, ℕ, ◌+◌, ◌≤◌, ◌≡◌, refl, sym, ap, ◌∙◌, inl, inr, Bool, true, false, Option, none,
  some, List, [], ◌∷◌, ◌++◌, arith, ltb, ◌==◌, if◌then◌else◌, eq-of-==, Bool-cases, length, get_or,
  drop, length-append, Bytes, codes, drop_all, drop-append,
}
use mathlib.Core.Path.{subst}
use boa.Alias.Find.{is_match-split, InChain, match_in, no_match, find_in_chain-InChain}
use boa.Status.{HttpMethod, HttpVersion, AliasType, alias, scriptalias, redirect, CgiType}
use boa.Alias.{
  Alias, AliasTable, max_header_length, is_match, find_alias, Roots, Translated, bad_request,
  not_found, moved_temp, script, file, program, fits, is_post, cgi_type_of, split_slash, by_type,
  translate_alias, finish_translate, in_buffer, translate_user, by_roots, translate_root,
  translate_path, translate_uri,
}

-- The places where a file of a request can be.
pub data Placed (get_home_dir : Bytes → Option Bytes) (table : AliasTable) (roots : Roots)
    (uri : Bytes) : Bytes → Type 0 where
  by_alias :
      (a : Alias) (tail : Bytes)
      → find_alias table uri ≡ some a
      → uri ≡ a.fakename ++ tail
      → Placed get_home_dir table roots uri (a.realname ++ tail)
  by_user :
      (slash : ℕ) (user tail home user_dir : Bytes)
      → uri ≡ slash ∷ b'~' ∷ user ++ tail
      → get_home_dir user ≡ some home
      → roots.user_dir ≡ some user_dir
      → Placed get_home_dir table roots uri (home ++ b'/' ∷ user_dir ++ tail)
  by_vhost :
      (vhost_root : Bytes)
      → roots.vhost_root ≡ some vhost_root
      → Placed get_home_dir table roots uri
          (vhost_root ++ b'/' ∷ roots.local_ip_addr ++ b'/' ∷ roots.host ++ codes "/htdocs" ++ uri)
  by_address :
      (document_root : Bytes)
      → roots.document_root ≡ some document_root
      → Placed get_home_dir table roots uri (document_root ++ b'/' ∷ roots.local_ip_addr ++ uri)
  by_document :
      (document_root : Bytes)
      → roots.document_root ≡ some document_root
      → Placed get_home_dir table roots uri (document_root ++ uri)

split_slash-append : (s : Bytes) → s ≡ (split_slash s).0 ++ (split_slash s).1
unfolding split_slash
split_slash-append [] = refl
split_slash-append (c ∷ s) = elim (Bool-cases (c == b'/')) [
  | inl e ↦ rw (e) refl
  | inr e ↦ rw (e) (ap (λ t. c ∷ t) (split_slash-append s))
]

value_or : Alias → Option Alias → Alias
value_or d none = d
value_or d (some a) = a

some-injective : (b a : Alias) → some b ≡ some a → b ≡ a
unfolding value_or
some-injective b a e = ap (λ o. value_or b o) e

module _ (get_home_dir : Bytes → Option Bytes) (is_cgi : Bytes → Bool) (table : AliasTable)
    (method : HttpMethod) (version : HttpVersion) (roots : Roots) (uri : Bytes) where
  -- A file is below a root and fits the buffer; a program too, and its script_name is the path; a
  -- redirection and a script are those of the alias that was found.
  pub data IsTranslated : Translated → Type 0 where
    refused : IsTranslated bad_request
    missing : IsTranslated not_found
    moved :
        (a : Alias) (tail : Bytes)
        → find_alias table uri ≡ some a
        → uri ≡ a.fakename ++ tail
        → IsTranslated (moved_temp (a.realname ++ tail))
    script_alias : (a : Alias) → find_alias table uri ≡ some a → IsTranslated (script a)
    is_file :
        (pathname : Bytes)
        → Placed get_home_dir table roots uri pathname
        → length pathname ≤ max_header_length
        → IsTranslated (file pathname)
    is_program :
        (pathname : Bytes) (t : CgiType)
        → Placed get_home_dir table roots uri pathname
        → length pathname ≤ max_header_length
        → IsTranslated (program pathname uri t)

  finish-IsTranslated :
      (pathname : Bytes)
      → Placed get_home_dir table roots uri pathname
      → length pathname ≤ max_header_length
      → IsTranslated (finish_translate is_cgi method version uri pathname)
  unfolding finish_translate
  finish-IsTranslated pathname p b = by_tests (is_cgi pathname) (is_post method)
    where
      by_tests :
          (c d : Bool)
          → IsTranslated (
              if c
              then program pathname uri (cgi_type_of version)
              else if d
              then bad_request
              else file pathname)
      by_tests true d = is_program pathname _ p b
      by_tests false true = refused
      by_tests false false = is_file pathname p b

  in_buffer-IsTranslated :
      (buffer : Bytes)
      → Placed get_home_dir table roots uri buffer
      → IsTranslated (in_buffer get_home_dir is_cgi method version uri buffer)
  unfolding in_buffer
  in_buffer-IsTranslated buffer p = elim (Bool-cases (fits buffer)) [
    | inl e ↦ rw (e) (finish-IsTranslated buffer p (ground (arith, e)))
    | inr e ↦ rw (e) refused
  ]

  root-IsTranslated :
      (v d : Option Bytes)
      → roots.vhost_root ≡ v
      → roots.document_root ≡ d
      → IsTranslated (by_roots get_home_dir is_cgi method version roots uri v d)
  unfolding by_roots
  root-IsTranslated (some vhost_root) d e e' = in_buffer-IsTranslated _ (by_vhost vhost_root e)
  root-IsTranslated none (some document_root) e e' = elim (Bool-cases roots.virtualhost) [
    | inl z ↦ simp (z) (in_buffer-IsTranslated _ (by_address document_root e'))
    | inr z ↦ elim (Bool-cases long) [
      | inl l ↦ simp (z, l) refused
      | inr l ↦
          simp (z, l)
            (finish-IsTranslated (document_root ++ uri) (by_document document_root e')
              (ground (arith, l, length-append document_root uri)))
    ]
  ]
    where
      long : Bool
      long = ltb (max_header_length + 1) (length document_root + 1 + length uri + 1)
  root-IsTranslated none none e e' = missing

  root_at :
      (s : Bytes)
      → uri ≡ s
      → IsTranslated (translate_root get_home_dir is_cgi method version roots s)
  root_at s f =
      subst (λ x. IsTranslated (translate_root get_home_dir is_cgi method version roots x)) f
        (root-IsTranslated roots.vhost_root roots.document_root refl refl)

  user-IsTranslated :
      (slash : ℕ) (name user_dir : Bytes)
      → uri ≡ slash ∷ b'~' ∷ name
      → roots.user_dir ≡ some user_dir
      → IsTranslated (translate_user get_home_dir is_cgi method version uri user_dir name)
  unfolding translate_user
  user-IsTranslated slash [] user_dir u e = refused
  user-IsTranslated slash (c ∷ name) user_dir u e = by_home (get_home_dir user) refl
    where
      user : Bytes
      user = (split_slash (c ∷ name)).0

      tail : Bytes
      tail = (split_slash (c ∷ name)).1

      by_home :
          (o : Option Bytes)
          → get_home_dir user ≡ o
          → IsTranslated (elim o [
            | none ↦ not_found
            | some user_homedir ↦
                in_buffer get_home_dir is_cgi method version uri
                  (user_homedir ++ b'/' ∷ user_dir ++ tail)
          ])
      by_home none h = missing
      by_home (some home) h = in_buffer-IsTranslated _ (
          by_user slash user tail home user_dir
            (u ∙ ap (λ t. slash ∷ b'~' ∷ t) (split_slash-append (c ∷ name))) h e)

  path-IsTranslated :
      (u : Option Bytes) (s : Bytes)
      → roots.user_dir ≡ u
      → uri ≡ s
      → IsTranslated (translate_path get_home_dir is_cgi method version roots u s)
  unfolding translate_path
  path-IsTranslated none s e f = root_at s f
  path-IsTranslated (some user_dir) [] e f = root_at [] f
  path-IsTranslated (some user_dir) (c ∷ []) e f = root_at (c ∷ []) f
  path-IsTranslated (some user_dir) (c ∷ d ∷ name) e f = elim (Bool-cases (d == b'~')) [
    | inl z ↦ rw (z) (
        subst
          (λ x. IsTranslated (translate_user get_home_dir is_cgi method version x user_dir name)) f
          (user-IsTranslated c name user_dir (f ∙ ap (λ x. c ∷ x ∷ name) (eq-of-== d b'~' z)) e))
    | inr z ↦ rw (z) (root_at (c ∷ d ∷ name) f)
  ]

  found_match : (a : Alias) → find_alias table uri ≡ some a → is_match uri a ≡ true
  unfolding find_alias
  found_match a e = by_chain _ (find_in_chain-InChain uri _) e
    where
      by_chain :
          {chain : List Alias} (o : Option Alias)
          → InChain uri chain o
          → o ≡ some a
          → is_match uri a ≡ true
      by_chain _ (match_in b m) e = sym (ap (λ x. is_match uri x) (some-injective b a e)) ∙ m
      by_chain _ (no_match h) e = absurd (ground (arith, e))

  type-IsTranslated :
      (a : Alias) (t : AliasType) (tail : Bytes)
      → find_alias table uri ≡ some a
      → uri ≡ a.fakename ++ tail
      → IsTranslated (by_type method (a.realname ++ tail) a t)
  unfolding by_type
  type-IsTranslated a scriptalias tail e s = script_alias a e
  type-IsTranslated a alias tail e s = elim (Bool-cases (fits (a.realname ++ tail))) [
    | inl z ↦ rw (z) (is_file _ (by_alias a tail e s) (ground (arith, z)))
    | inr z ↦ rw (z) refused
  ]
  type-IsTranslated a redirect tail e s = elim (Bool-cases (fits (a.realname ++ tail))) [
    | inl z ↦ elim (Bool-cases (is_post method)) [
      | inl p ↦ rw (z, p) refused
      | inr p ↦ rw (z, p) (moved a tail e s)
    ]
    | inr z ↦ rw (z) refused
  ]

  alias-IsTranslated :
      (a : Alias) → find_alias table uri ≡ some a → IsTranslated (translate_alias method uri a)
  alias-IsTranslated a e =
      let (tail, s, _) = is_match-split uri a (found_match a e) in
      rw
        (ap (λ u. drop (length a.fakename) u) s
          ∙ drop-append (length a.fakename) a.fakename tail (omega arith)
          ∙ ap (λ t. t ++ tail) (drop_all (length a.fakename) a.fakename (omega arith)))
        (type-IsTranslated a a.type tail e s)

  -- For every table of aliases, configuration and request: a file or a program that translate_uri
  -- names is a root (the real name of the alias that was found, a user's directory, the virtual
  -- host's or the document root) followed by the end of the path behind the part that the root
  -- stands for, and has at most 1536 bytes, so the buffer of 1537 does not overflow; a program
  -- gets the whole path as script_name, and a redirection or a script is that of the alias that
  -- was found.
  pub translate_uri-IsTranslated :
      IsTranslated (translate_uri get_home_dir is_cgi table method version roots uri)
  unfolding translate_uri
  translate_uri-IsTranslated = elim (Bool-cases (get_or uri 0 0 == b'/')) [
    | inl z ↦ rw (z) (by_found (find_alias table uri) refl)
    | inr z ↦ rw (z) refused
  ]
    where
      by_found :
          (o : Option Alias)
          → find_alias table uri ≡ o
          → IsTranslated (elim o [
            | some current ↦ translate_alias method uri current
            | none ↦ translate_path get_home_dir is_cgi method version roots roots.user_dir uri
          ])
      by_found (some a) e = alias-IsTranslated a e
      by_found none e = path-IsTranslated roots.user_dir uri refl refl
