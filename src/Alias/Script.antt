-- ===== src/Alias/Script.antt =====
-- src/alias.c, `init_script_alias`: the program below a ScriptAlias, and the path behind it.
--
-- `old` is what the static buffer `pathname` holds from the requests before; the text that is
-- copied into it ends with a NUL, and the loop reads on in the old bytes if it starts behind it.
-- What stat(2) and access(2) say of a path is an argument. The hash of the path is that of
-- `find_alias`.
use boa.Common.{
  ◌+◌, ◌-◌, not, Option, none, some, List, [], ◌∷◌, ◌++◌, ◌==◌, if◌then◌else◌, length, get_or, take,
  drop, Bytes, codes, starts,
}
use boa.Status.{HttpVersion, CgiType, nph}
use boa.Request.{c_string}
use boa.Alias.{Alias, AliasTable, Roots, fits, split_slash, get_alias_hash_value, cgi_type_of}

-- No such file; a directory; a regular file that may be read and executed; anything else.
pub data StatAnswer : Type 0 where
  missing directory executable other : StatAnswer

-- The replies, and the result 1 with the fields of the request that are set.
pub data ScriptEnd : Type 0 where
  bad_request not_found forbidden : ScriptEnd
  started :
      (pathname script_name : Bytes) (cgi_type : CgiType) (path_info path_translated : Option Bytes)
      → ScriptEnd

-- The text that the memcpy calls make.
unfoldable pub script_path : Option Bytes → Roots → Bytes → Alias → Bytes
script_path (some vhost_root) roots request_uri current =
    vhost_root
    ++ b'/' ∷ roots.local_ip_addr
    ++ b'/' ∷ roots.host
    ++ b'/' ∷ current.realname
    ++ drop (length current.fakename) request_uri
script_path none roots request_uri current =
    current.realname ++ drop (length current.fakename) request_uri

-- The static buffer with the text in it.
abbrev pub filled : Bytes → Bytes → Bytes
filled old path = path ++ 0 ∷ drop (length path + 1) old

-- strncmp("nph-", pathname + real_len, 4) == 0 || http_version == HTTP09
unfoldable pub script_type : HttpVersion → Bytes → CgiType
script_type version name = if starts (codes "nph-") name then nph else cgi_type_of version

-- How the loop ends: a reply; at a slash, with what stands in the buffer in front of it and from it
-- on; or at a NUL.
pub data Walk : Type 0 where
  no_file no_program : Walk
  at_slash : (front tail : Bytes) → Walk
  at_nul : Walk

-- The loop, at the byte behind `front`.
unfoldable pub walk : (Bytes → StatAnswer) → (front rest : Bytes) → Walk
walk stat front [] = at_nul
walk stat front (c ∷ rest) =
    let go = walk stat (front ++ c ∷ []) rest in
    if c == b'/'
    then elim (stat (c_string front)) [
      | missing ↦ no_file
      | directory ↦ go
      | executable ↦ at_slash front (c ∷ rest)
      | other ↦ no_program
    ]
    else if c == 0
    then at_nul
    else go

-- The first alias of the chain that the path begins with.
unfoldable pub alias_again : Bytes → List Alias → Option Bytes
alias_again path_info [] = none
alias_again path_info (current ∷ chain) =
    let others = alias_again path_info chain in
    if starts current.fakename path_info
    then some (current.realname ++ drop (length current.fakename) path_info)
    else others

-- path_translated, or a reply.
pub data Info : Type 0 where
  info_too_long no_user : Info
  info : Option Bytes → Info

unfoldable pub below_root : Option Bytes → Bytes → Info
below_root none path_info = info none
below_root (some document_root) path_info = info (some (document_root ++ path_info))

module _ (get_home_dir : Bytes → Option Bytes) where
  unfoldable pub below_home : Bytes → Bytes × Bytes → Info
  below_home user_dir (user, rest) = elim (get_home_dir user) [
    | none ↦ no_user
    | some user_homedir ↦ info (some (user_homedir ++ b'/' ∷ user_dir ++ rest))
  ]

  unfoldable pub unaliased : Option Bytes → Option Bytes → Bytes → Info
  unaliased none document_root path_info = below_root document_root path_info
  unaliased (some user_dir) document_root path_info =
      if get_or path_info 1 0 == b'~'
      then below_home user_dir (split_slash (drop 2 path_info))
      else below_root document_root path_info

  unfoldable pub translate_info : AliasTable → Roots → Bytes → Info
  translate_info table roots path_info =
      elim (alias_again path_info (get_or table (get_alias_hash_value path_info) [])) [
        | some text ↦ if fits text then info (some text) else info_too_long
        | none ↦ unaliased roots.user_dir roots.document_root path_info
      ]

  -- The path_info is split off.
  unfoldable pub with_info : (pathname script_name : Bytes) → CgiType → Bytes → Info → ScriptEnd
  with_info pathname script_name t path_info info_too_long = bad_request
  with_info pathname script_name t path_info no_user = not_found
  with_info pathname script_name t path_info (info translated) =
      started pathname script_name t (some path_info) translated

  -- Without a path_info.
  unfoldable pub whole_path : (pathname request_uri : Bytes) → CgiType → StatAnswer → ScriptEnd
  whole_path pathname request_uri t missing = not_found
  whole_path pathname request_uri t directory = forbidden
  whole_path pathname request_uri t executable = started pathname request_uri t none none
  whole_path pathname request_uri t other = forbidden

  module _ (stat : Bytes → StatAnswer) (table : AliasTable) (roots : Roots) where
    -- Behind the loop over the buffer.
    unfoldable pub after_walk : Bytes → Bytes → CgiType → Walk → ScriptEnd
    after_walk buffer request_uri t no_file = not_found
    after_walk buffer request_uri t no_program = forbidden
    after_walk buffer request_uri t at_nul =
        whole_path (c_string buffer) request_uri t (stat (c_string buffer))
    after_walk buffer request_uri t (at_slash front tail) =
        let path_info = c_string tail in
        with_info (c_string front) (take (length request_uri - length path_info) request_uri) t
          path_info (translate_info table roots path_info)

    -- `path` is copied into the buffer, if it fits.
    unfoldable pub run_script :
        (old : Bytes) → HttpVersion → Bytes → Alias → (path : Bytes) → ScriptEnd
    run_script old version request_uri current path =
        let buffer = filled old path in
        let real_len = length current.realname in
        if not (fits path)
        then bad_request
        else after_walk buffer request_uri (script_type version (drop real_len buffer))
            (walk stat (take (real_len + 1) buffer) (drop (real_len + 1) buffer))

    unfoldable pub init_script_alias : (old : Bytes) → HttpVersion → Bytes → Alias → ScriptEnd
    init_script_alias old version request_uri current =
        run_script old version request_uri current
          (script_path roots.vhost_root roots request_uri current)
