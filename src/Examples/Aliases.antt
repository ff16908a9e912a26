-- ===== src/Examples/Aliases.antt =====
-- The alias table at concrete inputs.
use boa.Common.{
  str_eq, if◌then◌else◌, sym, ℕ, zero, suc, ◌≡◌, refl, sym, ◌≢◌, Bool, false, Option, none, some,
  List, [], ◌++◌, get_or, replicate, All, Bytes, codes,
}
use mathlib.Core.Path.{subst}
use boa.Status.{m_get, http10, alias, scriptalias}
use boa.Alias.Script.{StatAnswer, missing, directory, executable}
use boa.Alias.{
  Alias, AliasTable, alias_hashtable_size, get_alias_hash_value, add_alias, find_alias, Roots,
  translate_uri,
}
use boa.Alias.Find.{IsTable, Found, find_alias-Found, add_alias-IsTable}
use boa.Alias.Rooted.{IsTranslated, translate_uri-IsTranslated}

abbrev icons : Alias
icons = record { fakename = codes "/icons"; realname = codes "/usr/icons"; type = alias }

abbrev no_aliases : AliasTable
no_aliases = replicate alias_hashtable_size []

get_or-replicate : (n i : ℕ) → get_or {A = List Alias} (replicate n []) i [] ≡ []
get_or-replicate zero i = refl
get_or-replicate (suc n) zero = refl
get_or-replicate (suc n) (suc i) = get_or-replicate n i

no_aliases-IsTable : IsTable no_aliases
no_aliases-IsTable = record {
  chains = refl;
  placed = λ i.
      subst (λ c. All (λ a. (get_alias_hash_value a.fakename ≡ i) × (a.fakename ≢ [])) c)
        (sym (get_or-replicate alias_hashtable_size i)) tt;
}

abbrev some_aliases : AliasTable
some_aliases = add_alias icons no_aliases

find_alias-Found_example :
    Found some_aliases (codes "/icons/a") (find_alias some_aliases (codes "/icons/a"))
find_alias-Found_example =
    find_alias-Found some_aliases (codes "/icons/a")
      (add_alias-IsTable icons no_aliases (λ e. cc) no_aliases-IsTable)
      (refl, (refl, (refl, (refl, (refl, (refl, (refl, (refl, tt))))))))

abbrev roots : Roots
roots = record {
  document_root = some (codes "/var/www");
  user_dir = some (codes "public_html");
  vhost_root = none;
  virtualhost = false;
  local_ip_addr = codes "127.0.0.1";
  host = codes "localhost";
}

abbrev home_of : Bytes → Option Bytes
home_of user = some (codes "/home/" ++ user)

abbrev never : Bytes → Bool
never s = false

translate_uri-IsTranslated_example :
    IsTranslated home_of never some_aliases m_get http10 roots
      (codes "/icons/a")
      (translate_uri home_of never some_aliases m_get http10 roots (codes "/icons/a"))
translate_uri-IsTranslated_example =
    translate_uri-IsTranslated home_of never some_aliases m_get http10 roots (codes "/icons/a")

-- /cgi-bin/d/a/b, where "/p/d" is a directory and "/p/d/a" a program.
abbrev scripts : Alias
scripts = record { fakename = codes "/cgi-bin/"; realname = codes "/p/"; type = scriptalias }

abbrev files : Bytes → StatAnswer
files path =
    if str_eq path (codes "/p/d")
    then directory
    else if str_eq path (codes "/p/d/a")
    then executable
    else missing
