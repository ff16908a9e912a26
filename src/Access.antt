-- ===== src/Access.antt =====
-- src/access.c: the list of allow and deny rules. `fnmatch` is the C library's, so a test of a
-- pattern against a file name is an argument; a failed allocation ends the server.
use boa.Common.{
  ◌≡◌, refl, ap, Bool, false, not, ◌&&◌, ◌||◌, List, [], ◌∷◌, ◌++◌, arith, if◌then◌else◌, Bytes,
}

-- enum access_type
pub data AccessType : Type 0 where
  deny allow : AccessType

pub record AccessNode : Type 0 where
  pub pattern : Bytes
  pub type : AccessType

abbrev pub access_node : Bytes → AccessType → AccessNode
access_node p t = record { pattern = p; type = t }

-- The patterns are freed one by one, and the array behind them.
unfoldable pub access_shutdown : List AccessNode → List AccessNode
access_shutdown [] = []
access_shutdown (n ∷ nodes) = access_shutdown nodes

unfoldable pub access_init : List AccessNode → List AccessNode
unfolding access_shutdown
access_init [] = []
access_init (n ∷ nodes) = access_shutdown (n ∷ nodes)

unfoldable pub access_add : List AccessNode → Bytes → AccessType → List AccessNode
access_add nodes pattern type = nodes ++ access_node pattern type ∷ []

access_shutdown-nil : (nodes : List AccessNode) → access_shutdown nodes ≡ []
unfolding access_shutdown
access_shutdown-nil [] = refl
access_shutdown-nil (n ∷ nodes) = access_shutdown-nil nodes

module _ (fnmatch : Bytes → Bytes → Bool) where
  unfoldable pub access_allow : List AccessNode → Bytes → AccessType
  access_allow [] file = allow
  access_allow (n ∷ nodes) file =
      let rest = access_allow nodes file in if fnmatch n.pattern file then n.type else rest

  -- Some rule speaks of the file.
  unfoldable pub has_rule : List AccessNode → Bytes → Bool
  has_rule [] file = false
  has_rule (n ∷ nodes) file = fnmatch n.pattern file || has_rule nodes file

  -- For any pattern matcher, a rule that is added last decides for the files of its pattern that
  -- no earlier rule speaks of, and for no others; and behind access_init every file is allowed.
  pub access_allow-add :
      (nodes : List AccessNode) (pattern : Bytes) (type : AccessType) (file : Bytes)
      → (access_allow (access_add nodes pattern type) file ≡ (
          if not (has_rule nodes file) && fnmatch pattern file
          then type
          else access_allow nodes file))
        × (access_allow (access_init nodes) file ≡ allow)
  unfolding access_allow has_rule access_add access_init access_shutdown
  access_allow-add nodes pattern type file = (added nodes, cleared nodes)
    where
      added :
          (nodes : List AccessNode)
          → access_allow (nodes ++ access_node pattern type ∷ []) file ≡ (
              if not (has_rule nodes file) && fnmatch pattern file
              then type
              else access_allow nodes file)
      added [] = refl
      added (n ∷ nodes) = ground (arith, added nodes)

      cleared : (nodes : List AccessNode) → access_allow (access_init nodes) file ≡ allow
      cleared [] = refl
      cleared (n ∷ nodes) = ap (λ l. access_allow l file) (access_shutdown-nil nodes)
