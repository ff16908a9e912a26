-- ===== src/Examples/Programs.antt =====
-- The start of a CGI program and its output at concrete inputs.
use boa.Common.{
  ◌+◌, ◌≤◌, ◌≡◌, refl, ◌↔◌, Bool, true, false, none, some, List, [], ◌∷◌, ◌++◌, map, arith,
  if◌then◌else◌, length, take, All, Bytes, codes, str_eq, member,
}
use boa.Status.{m_get, http09, http10, ka_stopped, pipe_read, cgi, cgi_done}
use boa.Response.{Reply}
use boa.Options.Session.{fresh}
use boa.Examples.Sends.{midnight}
use boa.Examples.Sessions.{no_line}
use boa.Cgi.{CgiRequest, complete_env, environ, env_variables, create_argv}
use boa.Cgi.Environment.{IsCounted, print_variable, complete_env-environ}
use boa.Cgi.Lookup.{getenv, find_variable, complete_env-getenv}
use boa.Cgi.Argv.{IsWord, join_words, create_argv-join_words}
use boa.Cgi.Start.{
  Answers, stop_keepalive, env_for, init_cgi, child_exec, program, no_directory, dot_slash,
}
use boa.Cgi.Start.Returns.{is_success, all_well, init_cgi-success, child_exec-program}
use boa.CgiHeader.{CgiOutput}
use boa.Escape.{escape_loop}

-- A request for /cgi-bin/a with one variable of a header line.
abbrev asked : CgiRequest
asked = record {
  headers = record (fresh (record no_line { cgi_env_index = 2 })) {
    cgi_env = codes "HTTP_A=b" ∷ [];
  };
  cgi_type = some cgi;
  pathname = codes "/p/a";
  path_info = none;
  path_translated = none;
  script_name = some (codes "/cgi-bin/a");
  query_string = some (codes "x+y");
  local_ip_addr = codes "::1";
  remote_ip_addr = codes "::1";
  remote_port = 4000;
}

abbrev one_common : List Bytes
one_common = codes "PATH=/bin" ∷ []

asked-IsCounted : IsCounted one_common asked.headers
asked-IsCounted = (refl, omega arith)

complete_env-environ_example :
    (((complete_env (codes "text/plain") asked).1 ≡ true) ↔ (
      length (environ one_common asked.headers) + length (env_variables (codes "text/plain") asked)
      ≤ 100))
    × ((complete_env (codes "text/plain") asked).1 ≡ true
        → environ one_common (complete_env (codes "text/plain") asked).0.headers
          ≡ environ one_common asked.headers
            ++ map print_variable (env_variables (codes "text/plain") asked))
    × IsCounted one_common (complete_env (codes "text/plain") asked).0.headers
complete_env-environ_example =
    complete_env-environ (codes "text/plain") asked one_common asked-IsCounted

completed : (complete_env (codes "text/plain") asked).1 ≡ true
unfolding complete_env boa.Cgi.add_all boa.Cgi.my_add_cgi_env env_variables boa.Cgi.server_variables
    boa.Cgi.script_variables boa.Cgi.remote_variables boa.Cgi.content_variables
completed = refl

complete_env-getenv_example :
    getenv
      (codes "QUERY_STRING")
      (environ one_common (complete_env (codes "text/plain") asked).0.headers)
    ≡ find_variable (codes "QUERY_STRING") (env_variables (codes "text/plain") asked)
unfolding member
complete_env-getenv_example =
    complete_env-getenv (codes "QUERY_STRING") (codes "text/plain") asked one_common asked-IsCounted
      (refl, tt) refl refl (refl, tt) completed

abbrev two_words : List Bytes
two_words = codes "b c" ∷ codes "d" ∷ []

create_argv-join_words_example :
    create_argv
      (codes "./a")
      (some (join_words (escape_loop (codes "b c")) (map escape_loop (codes "d" ∷ []))))
    ≡ codes "./a" ∷ take 127 two_words
create_argv-join_words_example =
    create_argv-join_words (codes "./a") (codes "b c") (codes "d" ∷ []) words
  where
    words : All IsWord two_words
    words = ((ground arith, (ground arith, (ground arith, tt))), ((ground arith, tt), tt))

abbrev all_fine : Answers
all_fine = record { pipe_ok = true; set_nonblock_ok = true; fork_ok = true }

init_cgi-success_example :
    ((init_cgi (codes "text/plain") all_fine asked).0.headers.logline.keepalive ≡ ka_stopped)
    × (is_success (init_cgi (codes "text/plain") all_fine asked).1
        ≡ all_well all_fine
            (some cgi)
            (codes "/p/a")
            (env_for (codes "text/plain") (some cgi) (stop_keepalive asked)).1)
init_cgi-success_example = init_cgi-success (codes "text/plain") all_fine asked

-- There is no directory but /p.
abbrev enters : Bytes → Bool
enters dir = str_eq dir (codes "/p")

child_exec-program_example :
    (dir : Bytes) × (name : Bytes) × (codes "/p/a" ≡ dir ++ b'/' ∷ name)
    × (member b'/' name ≡ false)
    × (child_exec enters one_common asked ≡ (
        if enters dir
        then program dir
            (dot_slash name)
            (create_argv (dot_slash name) (some (codes "x+y")))
            (environ one_common asked.headers)
        else no_directory dir))
unfolding member
child_exec-program_example = child_exec-program enters one_common asked cgi refl refl

-- A program has written "A: b", an empty line and "xy".
abbrev written : CgiOutput
written = record {
  reply = record {
    method = m_get;
    http_version = http09;
    response_status = 0;
    keepalive = ka_stopped;
    kacount = 10;
    cgi_type = some cgi;
    ranges = record { ranges = []; numranges = 0; pool = [] };
    filesize = 0;
    last_modified = midnight;
    request_uri = codes "/cgi-bin/a";
    out = record { status = pipe_read; buffer_start = 0; content = [] };
  };
  cgi_status = cgi_done;
  text = codes "A: b" ++ (10 ∷ 10 ∷ codes "xy");
  place = 2048;
}

abbrev later : CgiOutput
later = record written { reply = record written.reply { http_version = http10 } }
