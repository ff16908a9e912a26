-- ===== src/Cgi.antt =====
-- src/cgi.c: the environment and the arguments of a CGI program.
--
-- A variable is the text "name=value"; a value that is a null pointer is written as the empty text.
-- The build defines neither USE_NCSA_CGI_ENV nor ACCEPT_ON, and an allocation does not fail.
-- `Options.add_cgi_env` is the function of that name for the header lines.
pub mod Environment
pub mod Lookup
pub mod Argv
pub mod Start
use boa.Common.{
  ◌∙◌, sym, ap, ℕ, zero, suc, ◌+◌, ◌-◌, ◌*◌, ◌/◌, ◌%◌, ◌^◌, ◌≤◌, ◌<◌, min, ◌≡◌, refl, sym, ap, ap₂,
  ◌∙◌, ◌≢◌, ◌↔◌, ◌⊎◌, inl, inr, Bool, true, false, not, ◌&&◌, ◌||◌, Option, none, some, List, [],
  ◌∷◌, ◌++◌, map, append-nil, append_assoc, arith, ltb, leb, ◌==◌, if◌then◌else◌, within, ==_iff,
  eq-of-==, ==_refl, Bool-cases, Option-cases, and-eq-true, length, get_or, set, take, drop,
  replicate, length-append, length-set, length-take, length-drop, get_or-set_self, get_or-set_ne,
  All, All-append, Bytes, codes, str_eq, str_eq_iff, starts, suc-ne-zero, check_range,
  check_range-below, bool_eq, bool_eq_iff, member, take-append-drop, get_or-drop, take-length,
  drop_nil, drop-drop, drop_all, drop-append, take_all, take-append, starts_split,
}
use boa.Status.{HttpMethod, m_post, m_head, m_get, CgiType}
use boa.Decimal.{simple_itoa}
use boa.Uri.{Decoded, unescape_uri}
use boa.Request.{c_string}
use boa.Response.{http_ver_string}
use boa.Options.{Headers, cgi_env_max, env_gen_extra}

abbrev pub common_cgi_count : ℕ
common_cgi_count = 6

abbrev pub cgi_argc_max : ℕ
cgi_argc_max = 128

abbrev pub default_path : Bytes
default_path = codes "/bin:/usr/bin:/usr/local/bin"

-- The value of a variable: `if (value == NULL) value = "";`
abbrev pub value_of : Option Bytes → Bytes
value_of none = []
value_of (some value) = value

-- The configuration.
pub record Server : Type 0 where
  pub cgi_path : Option Bytes
  pub server_name : Option Bytes
  pub server_port : ℕ
  pub server_admin : Option Bytes
  pub default_type : Bytes

-- common_cgi_env; the count is the length.
unfoldable pub create_common_env : Server → List Bytes
create_common_env s =
    env_gen_extra (codes "PATH") (cgi_path s.cgi_path)
    ∷ env_gen_extra (codes "SERVER_SOFTWARE") (codes "Boa/0.94.101wk")
    ∷ env_gen_extra (codes "SERVER_NAME") (value_of s.server_name)
    ∷ env_gen_extra (codes "GATEWAY_INTERFACE") (codes "CGI/1.1")
    ∷ env_gen_extra (codes "SERVER_PORT") (simple_itoa s.server_port)
    ∷ env_gen_extra (codes "SERVER_ADMIN") (value_of s.server_admin)
    ∷ []
  where
    cgi_path : Option Bytes → Bytes
    cgi_path none = default_path
    cgi_path (some path) = path

-- `none` is the end of the server.
unfoldable pub add_to_common_env : List Bytes → Bytes → Option Bytes → Option (List Bytes)
add_to_common_env common key value =
    let common' = common ++ env_gen_extra key (value_of value) ∷ [] in
    if ltb cgi_env_max (length common') then none else some common'

-- The fields of the request that the file uses. `headers` has those that the header lines set.
pub record CgiRequest : Type 0 where
  pub headers : Headers
  pub cgi_type : Option CgiType
  pub pathname : Bytes
  pub path_info : Option Bytes
  pub path_translated : Option Bytes
  pub script_name : Option Bytes
  pub query_string : Option Bytes
  pub local_ip_addr : Bytes
  pub remote_ip_addr : Bytes
  pub remote_port : ℕ

-- my_add_cgi_env: add_cgi_env with http_prefix 0, and whether it has found room.
unfoldable pub my_add_cgi_env : Headers → Bytes → Option Bytes → Headers × Bool
my_add_cgi_env h key value =
    if ltb h.logline.cgi_env_index cgi_env_max
    then (
      record h {
        logline = record h.logline { cgi_env_index = h.logline.cgi_env_index + 1 };
        cgi_env = h.cgi_env ++ env_gen_extra key (value_of value) ∷ [];
      },
      true,
    )
    else (h, false)

unfoldable pub method_text : HttpMethod → Bytes
method_text m_post = codes "POST"
method_text m_head = codes "HEAD"
method_text m_get = codes "GET"
method_text _ = codes "UNKNOWN"

abbrev pub Variable : Type 0
Variable = Bytes × Option Bytes

-- if (value) my_add_cgi_env(req, key, value)
abbrev pub if_set : Bytes → Option Bytes → List Variable
if_set key none = []
if_set key (some value) = (key, some value) ∷ []

abbrev pub or_default : Option Bytes → Bytes → Bytes
or_default none d = d
or_default (some value) d = value

-- What is added for a POST only.
unfoldable pub content_variables : Bytes → Headers → HttpMethod → List Variable
content_variables default_type h m_post =
    (codes "CONTENT_TYPE", some (or_default h.content_type default_type))
    ∷ if_set (codes "CONTENT_LENGTH") h.content_length
content_variables default_type h _ = []

unfoldable pub remote_variables : Bytes → CgiRequest → List Variable
remote_variables default_type r =
    (codes "REMOTE_ADDR", some r.remote_ip_addr)
    ∷ (codes "REMOTE_PORT", some (simple_itoa r.remote_port))
    ∷ content_variables default_type r.headers r.headers.logline.method

unfoldable pub script_variables : Bytes → CgiRequest → List Variable
script_variables default_type r =
    (codes "SCRIPT_NAME", r.script_name) ∷ if_set (codes "QUERY_STRING") r.query_string
    ++ remote_variables default_type r

unfoldable pub server_variables : Bytes → CgiRequest → List Variable
server_variables default_type r =
    (codes "SERVER_ADDR", some r.local_ip_addr)
      ∷ (codes "SERVER_PROTOCOL", some (http_ver_string r.headers.logline.http_version))
      ∷ (codes "REQUEST_URI", some r.headers.logline.request_uri)
      ∷ if_set (codes "PATH_INFO") r.path_info
    ++ (if_set (codes "PATH_TRANSLATED") r.path_translated ++ script_variables default_type r)

-- The calls of my_add_cgi_env in complete_env, in order.
unfoldable pub env_variables : Bytes → CgiRequest → List Variable
env_variables default_type r =
    (codes "REQUEST_METHOD", some (method_text r.headers.logline.method))
      ∷ if_set (codes "HTTP_HOST") r.headers.logline.header_host
    ++ server_variables default_type r

-- Calls of my_add_cgi_env, up to the first that fails.
unfoldable pub add_all : List Variable → Headers → Headers × Bool
add_all [] h = (h, true)
add_all ((key, value) ∷ vs) h =
    let (h', ok) = my_add_cgi_env h key value in if ok then add_all vs h' else (h', false)

-- The request behind the call, and the result. The common variables are copied in front of
-- `cgi_env`, see `environ`.
unfoldable pub complete_env : Bytes → CgiRequest → CgiRequest × Bool
complete_env default_type r =
    let (h, ok) = add_all (env_variables default_type r) r.headers in
    (record r { headers = h }, ok && ltb h.logline.cgi_env_index (cgi_env_max + 1))

-- What execve gets as the environment.
abbrev pub environ : List Bytes → Headers → List Bytes
environ common h = common ++ h.cgi_env

-- The words between the '+' signs.
unfoldable pub split_words : Bytes → List Bytes
split_words [] = [] ∷ []
split_words (c ∷ q) = let rest = split_words q in if c == b'+' then [] ∷ rest else prepend c rest
  where
    prepend : ℕ → List Bytes → List Bytes
    prepend c [] = (c ∷ []) ∷ []
    prepend c (w ∷ ws) = (c ∷ w) ∷ ws

-- `next` has the words behind this one with one place less, `same` with the same places.
unfoldable pub add_arg : Decoded → (next same : List Bytes) → List Bytes
add_arg d next same = if d.legal then c_string d.uri ∷ next else same

-- The loop, with CGI_ARGC_MAX - aargc. A word that is not legal takes no place.
unfoldable pub args : ℕ → List Bytes → List Bytes
args zero ws = []
args (suc room) [] = []
args (suc room) (w ∷ ws) =
    let next = args room ws in
    let same = args (suc room) ws in add_arg (unescape_uri w none) next same

unfoldable pub create_argv : Bytes → Option Bytes → List Bytes
create_argv pathname none = pathname ∷ []
create_argv pathname (some q) =
    if member b'=' q then pathname ∷ [] else pathname ∷ args (cgi_argc_max - 1) (split_words q)
