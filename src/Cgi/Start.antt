-- ===== src/Cgi/Start.antt =====
-- src/cgi.c, `init_cgi`: what the server does with the request, and what the child executes.
--
-- The answers of pipe(2), of fcntl(2) for the read end and of fork(2) are arguments, and for the
-- child that of chdir(2); its malloc does not fail, and the calls that only set up its descriptors
-- and limits are left out, with the ends of the child where they fail. With a null cgi_type the
-- program is the one that lists a directory, or gunzip.
pub mod Returns
use boa.Common.{
  ◌∙◌, sym, ap, ℕ, zero, suc, ◌+◌, ◌-◌, ◌*◌, ◌/◌, ◌%◌, ◌^◌, ◌≤◌, ◌<◌, min, ◌≡◌, refl, sym, ap, ap₂,
  ◌∙◌, ◌≢◌, ◌↔◌, ◌⊎◌, inl, inr, Bool, true, false, not, ◌&&◌, ◌||◌, Option, none, some, List, [],
  ◌∷◌, ◌++◌, map, append-nil, append_assoc, arith, ltb, leb, ◌==◌, if◌then◌else◌, within, ==_iff,
  eq-of-==, ==_refl, Bool-cases, Option-cases, and-eq-true, length, get_or, set, take, drop,
  replicate, length-append, length-set, length-take, length-drop, get_or-set_self, get_or-set_ne,
  All, All-append, Bytes, codes, str_eq, str_eq_iff, starts, suc-ne-zero, check_range,
  check_range-below, bool_eq, bool_eq_iff, member, take-append-drop, get_or-drop, take-length,
  drop_nil, drop-drop, drop_all, drop-append, take_all, take-append, starts_split,
}
use boa.Status.{CgiType, nph, cgi, KaStatus, ka_stopped, CgiStatus, cgi_parse, cgi_buffer}
use boa.Buffer.{buffer_size}
use boa.Alias.{last_byte}
use boa.Options.{Headers}
use boa.Cgi.{CgiRequest, complete_env, create_argv, environ}

pub record Answers : Type 0 where
  pub pipe_ok : Bool
  pub set_nonblock_ok : Bool
  pub fork_ok : Bool

-- How the function ends: 0 for the first four, which are the environment without room, a pipe
-- that fails, the error reply for fork, and a program that writes to the socket; 1 for the last,
-- with status PIPE_READ, the new cgi_status, and the place of header_line and header_end.
pub data CgiEnd : Type 0 where
  env_refused no_pipe fork_failed direct : CgiEnd
  piped : CgiStatus → (header_line : ℕ) → CgiEnd

abbrev pub names_directory : Bytes → Bool
names_directory pathname = last_byte pathname == b'/'

unfoldable pub use_pipes : Option CgiType → Bytes → Bool
use_pipes (some cgi) pathname = true
use_pipes (some nph) pathname = false
use_pipes none pathname = names_directory pathname

-- The parent behind the fork.
unfoldable pub parent_end : Option CgiType → Bytes → CgiEnd
parent_end (some cgi) pathname = piped cgi_parse (buffer_size / 2)
parent_end (some nph) pathname = direct
parent_end none pathname = if names_directory pathname then piped cgi_buffer 0 else direct

unfoldable pub after_env : Answers → CgiRequest × Bool → CgiRequest × CgiEnd
after_env a (r, false) = (r, env_refused)
after_env a (r, true) =
    if use_pipes r.cgi_type r.pathname && not (a.pipe_ok && a.set_nonblock_ok)
    then (r, no_pipe)
    else if not a.fork_ok
    then (r, fork_failed)
    else (r, parent_end r.cgi_type r.pathname)

-- Only a program gets an environment.
unfoldable pub env_for : Bytes → Option CgiType → CgiRequest → CgiRequest × Bool
env_for default_type none r = (r, true)
env_for default_type (some t) r = complete_env default_type r

abbrev pub stop_keepalive : CgiRequest → CgiRequest
stop_keepalive r = record r {
  headers = record r.headers { logline = record r.headers.logline { keepalive = ka_stopped } };
}

unfoldable pub init_cgi : Bytes → Answers → CgiRequest → CgiRequest × CgiEnd
init_cgi default_type a r = after_env a (env_for default_type r.cgi_type (stop_keepalive r))

-- strrchr (path, '/'): the texts in front of the last slash and behind it.
unfoldable pub split_last : Bytes → Option (Bytes × Bytes)
split_last [] = none
split_last (c ∷ s) = elim (split_last s) [
  | some (dir, name) ↦ some (c ∷ dir, name)
  | none ↦ if c == b'/' then some ([], s) else none
]

-- What the child does: it ends, for a path without a slash or a directory that chdir refuses; it
-- goes to a directory and executes a program of it; or it executes one of the two helpers.
pub data Exec : Type 0 where
  no_slash : Exec
  no_directory : (dir : Bytes) → Exec
  program : (dir path : Bytes) (argv env : List Bytes) → Exec
  list_directory : (pathname request_uri : Bytes) → Exec
  gunzip : (pathname : Bytes) → Exec

abbrev pub dot_slash : Bytes → Bytes
dot_slash name = b'.' ∷ b'/' ∷ name

-- `enters` says of a directory whether chdir(2) succeeds.
module _ (enters : Bytes → Bool) where
  unfoldable pub exec_split : List Bytes → CgiRequest → Option (Bytes × Bytes) → Exec
  exec_split common r none = no_slash
  exec_split common r (some (dir, name)) =
      if enters dir
      then program dir (dot_slash name) (create_argv (dot_slash name) r.query_string)
          (environ common r.headers)
      else no_directory dir

  unfoldable pub child_exec : List Bytes → CgiRequest → Exec
  child_exec common r = elim r.cgi_type [
    | some t ↦ exec_split common r (split_last r.pathname)
    | none ↦
        if names_directory r.pathname
        then list_directory r.pathname r.headers.logline.request_uri
        else gunzip r.pathname
  ]
