-- ===== src/Alias/PathInfo.antt =====
-- `init_script_alias` finds the program in the path, and splits the rest off.
use boa.Common.{
  ◌∙◌, sym, ap, ℕ, ◌+◌, ◌≡◌, sym, ap, ◌∙◌, Option, none, some, [], ◌∷◌, ◌++◌, length, take, drop,
  Bytes,
}
use boa.Status.{HttpVersion}
use boa.Request.Text.{IsText}
use boa.Alias.{Alias, AliasTable, Roots}
use boa.Alias.Script.{
  StatAnswer, directory, executable, ScriptEnd, started, script_type, Walk, walk, translate_info,
  with_info, after_walk,
}

-- What stands in front of each slash of the text is a directory.
abbrev pub IsDirs : (Bytes → StatAnswer) → (front rest : Bytes) → Type 0
IsDirs stat front [] = Unit {0}
IsDirs stat front (c ∷ rest) =
    (c ≡ b'/' → stat front ≡ directory) × IsDirs stat (front ++ c ∷ []) rest

-- The path_info: nothing, or a slash and what follows it.
abbrev pub info_text : Option Bytes → Bytes
info_text none = []
info_text (some t) = b'/' ∷ t

module _ (get_home_dir : Bytes → Option Bytes) (stat : Bytes → StatAnswer) (table : AliasTable)
    (roots : Roots) where
  -- What init_script_alias ends with, if the program is `pathname`.
  abbrev pub found : (pathname script_name name : Bytes) → HttpVersion → Option Bytes → ScriptEnd
  found pathname script_name name version none =
      started pathname script_name (script_type version name) none none
  found pathname script_name name version (some t) =
      with_info get_home_dir pathname script_name (script_type version name) (b'/' ∷ t)
        (translate_info get_home_dir table roots (b'/' ∷ t))

  -- The path to a program below the directory of the alias: it begins with `real`, and `c` is
  -- the byte behind it.
  pub record IsProgram (real : Bytes) (c : ℕ) (name : Bytes) : Type 0 where
    pub real_text : IsText real
    pub name_text : IsText (c ∷ name)
    pub dirs : IsDirs stat (real ++ c ∷ []) name
    pub runs : stat (real ++ c ∷ name) ≡ executable

  -- The loop over a buffer.
  abbrev walk_from : ℕ → Bytes → Walk
  walk_from n b = walk stat (take (n + 1) b) (drop (n + 1) b)

  abbrev ends : Bytes → Bytes → Alias → HttpVersion → ScriptEnd
  ends b request_uri current version =
      after_walk get_home_dir stat table roots b request_uri
        (script_type version (drop (length current.realname) b))
        (walk_from (length current.realname) b)
