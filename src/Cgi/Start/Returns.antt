-- ===== src/Cgi/Start/Returns.antt =====
-- When init_cgi succeeds, and that the program of the request's path is executed.
use boa.Common.{
  ◌∙◌, ap, ◌≡◌, refl, ap, ap₂, ◌∙◌, inl, inr, Bool, true, false, ◌&&◌, Option, none, some, List, [],
  ◌∷◌, ◌++◌, arith, ◌==◌, if◌then◌else◌, eq-of-==, Bool-cases, Bytes, member,
}
use boa.Status.{CgiType, nph, cgi, ka_stopped}
use boa.Options.{Headers}
use boa.Cgi.{
  env_variables, Variable, CgiRequest, complete_env, create_argv, environ, add_all, my_add_cgi_env,
}
use boa.Cgi.Start.{
  Answers, CgiEnd, piped, use_pipes, parent_end, after_env, env_for, stop_keepalive, init_cgi,
  split_last, program, no_directory, dot_slash, exec_split, child_exec,
}

-- The result 1.
abbrev pub is_success : CgiEnd → Bool
is_success (piped s n) = true
is_success _ = false

parent_end-success :
    (t : Option CgiType) (pathname : Bytes)
    → is_success (parent_end t pathname) ≡ use_pipes t pathname
unfolding parent_end use_pipes
parent_end-success (some cgi) pathname = refl
parent_end-success (some nph) pathname = refl
parent_end-success none pathname = ground arith

-- What the result depends on, in one test.
abbrev pub all_well : Answers → Option CgiType → Bytes → Bool → Bool
all_well a t pathname ok = ok && use_pipes t pathname && a.pipe_ok && a.set_nonblock_ok && a.fork_ok

after_env-success :
    (a : Answers) (r : CgiRequest) (ok : Bool)
    → is_success (after_env a (r, ok)).1 ≡ all_well a r.cgi_type r.pathname ok
unfolding after_env
after_env-success a r false = refl
after_env-success a r true = ground (arith, parent_end-success r.cgi_type r.pathname)

-- The last slash is between the two texts.
abbrev IsSplit : Bytes → Option (Bytes × Bytes) → Type 0
IsSplit s none = member b'/' s ≡ false
IsSplit s (some (dir, name)) = (s ≡ dir ++ b'/' ∷ name) × (member b'/' name ≡ false)

split_last-IsSplit : (s : Bytes) → IsSplit s (split_last s)
unfolding split_last member
split_last-IsSplit [] = refl
split_last-IsSplit (c ∷ s) = longer (split_last s) (split_last-IsSplit s)
  where
    longer :
        (o : Option (Bytes × Bytes))
        → IsSplit s o
        → IsSplit (c ∷ s) (elim o [
          | some (dir, name) ↦ some (c ∷ dir, name)
          | none ↦ if c == b'/' then some ([], s) else none
        ])
    longer (some (dir, name)) h = (ap (λ t. c ∷ t) h.0, h.1)
    longer none h = elim (Bool-cases (c == b'/')) [
      | inl e ↦ rw (e) (ap (λ x. x ∷ s) (eq-of-== c b'/' e), h)
      | inr e ↦ rw (e) (ground (arith, e, h))
    ]

found_split :
    (s : Bytes) (o : Option (Bytes × Bytes))
    → IsSplit s o
    → member b'/' s ≡ true
    → (dir : Bytes) × (name : Bytes) × (o ≡ some (dir, name))
      × (s ≡ dir ++ b'/' ∷ name)
      × (member b'/' name ≡ false)
found_split s none h m = absurd (ground (arith, h, m))
found_split s (some (dir, name)) h m = (dir, name, refl, h.0, h.1)

-- For a program whose path has a slash, and any answers of chdir(2): if the part in front of the
-- last slash can be entered, the child goes there and executes "./" with the part behind it, which
-- has no slash, so that it is the file that the path names; its first argument is that name, the
-- others are those of the query, and its environment is the common variables with those of the
-- request; if it cannot be entered, as for the empty part of a program in the root directory, the
-- child ends and executes nothing.
pub child_exec-program :
    (enters : Bytes → Bool) (common : List Bytes) (r : CgiRequest) (t : CgiType)
    → r.cgi_type ≡ some t
    → member b'/' r.pathname ≡ true
    → (dir : Bytes) × (name : Bytes) × (r.pathname ≡ dir ++ b'/' ∷ name)
      × (member b'/' name ≡ false)
      × (child_exec enters common r ≡ (
          if enters dir
          then program dir
              (dot_slash name)
              (create_argv (dot_slash name) r.query_string)
              (environ common r.headers)
          else no_directory dir))
unfolding child_exec exec_split
child_exec-program enters common r t e m =
    let (dir, name, o, s, n) =
      found_split r.pathname (split_last r.pathname) (split_last-IsSplit r.pathname) m in
    (dir, name, s, n, rw (e, o) refl)

my_add_cgi_env-keepalive :
    (h : Headers) (key : Bytes) (value : Option Bytes)
    → (my_add_cgi_env h key value).0.logline.keepalive ≡ h.logline.keepalive
unfolding my_add_cgi_env
my_add_cgi_env-keepalive h key value = ground arith

add_all-keepalive :
    (vs : List Variable) (h : Headers) → (add_all vs h).0.logline.keepalive ≡ h.logline.keepalive
unfolding add_all
add_all-keepalive [] h = refl
add_all-keepalive ((key, value) ∷ vs) h =
    either (my_add_cgi_env h key value) (my_add_cgi_env-keepalive h key value)
      (add_all-keepalive vs (my_add_cgi_env h key value).0)
  where
    either :
        (p : Headers × Bool)
        → p.0.logline.keepalive ≡ h.logline.keepalive
        → (add_all vs p.0).0.logline.keepalive ≡ p.0.logline.keepalive
        → (if p.1 then add_all vs p.0 else (p.0, false)).0.logline.keepalive ≡ h.logline.keepalive
    either (h', true) e f = f ∙ e
    either (h', false) e f = e

after_env-request : (a : Answers) (p : CgiRequest × Bool) → (after_env a p).0 ≡ p.0
unfolding after_env
after_env-request a (r, true) = ground arith
after_env-request a (r, false) = refl

env_for-keepalive :
    (default_type : Bytes) (t : Option CgiType) (r : CgiRequest)
    → (env_for default_type t r).0.headers.logline.keepalive ≡ r.headers.logline.keepalive
unfolding env_for complete_env
env_for-keepalive default_type none r = refl
env_for-keepalive default_type (some t) r =
    add_all-keepalive (env_variables default_type r) r.headers

env_for-program :
    (default_type : Bytes) (t : Option CgiType) (r : CgiRequest)
    → ((env_for default_type t r).0.cgi_type ≡ r.cgi_type)
      × ((env_for default_type t r).0.pathname ≡ r.pathname)
unfolding env_for complete_env
env_for-program default_type none r = (refl, refl)
env_for-program default_type (some t) r = (refl, refl)

-- For every request and all answers of the system, init_cgi switches the connection to be closed
-- behind the reply, and succeeds exactly if the environment is complete, the program is one that
-- writes into a pipe, and pipe, fcntl and fork succeed.
pub init_cgi-success :
    (default_type : Bytes) (a : Answers) (r : CgiRequest)
    → ((init_cgi default_type a r).0.headers.logline.keepalive ≡ ka_stopped)
      × (is_success (init_cgi default_type a r).1
          ≡ all_well a r.cgi_type r.pathname (env_for default_type r.cgi_type (stop_keepalive r)).1)
unfolding init_cgi
init_cgi-success default_type a r =
    let p = env_for default_type r.cgi_type (stop_keepalive r) in
    let same = env_for-program default_type r.cgi_type (stop_keepalive r) in
    (
      ap (λ (q : CgiRequest). q.headers.logline.keepalive) (after_env-request a p)
          ∙ env_for-keepalive default_type r.cgi_type (stop_keepalive r),
      after_env-success a p.0 p.1 ∙ ap₂ (λ t path. all_well a t path p.1) same.0 same.1,
    )
