-- ===== src/Cgi/Lookup.antt =====
-- What a CGI program finds for a name.
use boa.Common.{
  ◌∙◌, ap, suc, ◌≡◌, refl, ap, ◌∙◌, inl, inr, true, false, Option, none, some, List, [], ◌∷◌, ◌++◌,
  map, arith, ◌==◌, if◌then◌else◌, Bool-cases, length, drop, All, All-append, Bytes, codes, str_eq,
  str_eq_iff, starts, member, starts_split,
}
use boa.Status.{
  HttpMethod, m_get, m_head, m_put, m_post, m_delete, m_link, m_unlink, m_move, m_trace,
}
use boa.Options.{Headers, env_gen_extra}
use boa.Options.Kept.{IsHttp}
use boa.Cgi.{
  remote_variables, script_variables, server_variables, HttpMethod, CgiRequest, Variable, value_of,
  env_variables, complete_env, environ, content_variables, if_set,
}
use boa.Cgi.Environment.{IsCounted, print_variable, complete_env-environ}

-- getenv: the value of the first variable of that name.
unfoldable pub getenv : Bytes → List Bytes → Option Bytes
getenv name [] = none
getenv name (v ∷ vs) =
    let others = getenv name vs in
    if starts (name ++ b'=' ∷ []) v then some (drop (suc (length name)) v) else others

-- The value of the first of the variables with that name.
unfoldable pub find_variable : Bytes → List Variable → Option Bytes
find_variable name [] = none
find_variable name ((key, value) ∷ vs) =
    let others = find_variable name vs in if str_eq name key then some (value_of value) else others

-- The text has no '='.
abbrev pub IsName : Bytes → Type 0
IsName s = member b'=' s ≡ false

abbrev pub IsNamed : Variable → Type 0
IsNamed (key, value) = IsName key

-- No variable of the list has the name.
abbrev pub IsAbsent : Bytes → List Bytes → Type 0
IsAbsent name = All (λ v. starts (name ++ b'=' ∷ []) v ≡ false)

getenv-append :
    (name : Bytes) (xs ys : List Bytes) → IsAbsent name xs → getenv name (xs ++ ys) ≡ getenv name ys
unfolding getenv
getenv-append name [] ys a = refl
getenv-append name (x ∷ xs) ys a = rw (a.0) (getenv-append name xs ys a.1)

same_name :
    (name key value : Bytes)
    → IsName name
    → IsName key
    → starts (name ++ b'=' ∷ []) (env_gen_extra key value) ≡ str_eq name key
unfolding str_eq member
same_name [] [] value n k = refl
same_name [] (c ∷ key) value n k = ground (arith, k)
same_name (c ∷ name) [] value n k = ground (arith, n)
same_name (c ∷ name) (d ∷ key) value n k =
    rw (same_name name key value (ground (arith, n)) (ground (arith, k))) (ground arith)

value_behind : (key value : Bytes) → drop (suc (length key)) (env_gen_extra key value) ≡ value
value_behind [] value = refl
value_behind (c ∷ key) value = value_behind key value

getenv-print :
    (name : Bytes) (vs : List Variable)
    → IsName name
    → All IsNamed vs
    → getenv name (map print_variable vs) ≡ find_variable name vs
unfolding getenv find_variable
getenv-print name [] n k = refl
getenv-print name ((key, value) ∷ vs) n k =
    rw (same_name name key (value_of value) n k.0) (elim (Bool-cases (str_eq name key)) [
      | inl e ↦ rw (e, (str_eq_iff name key).0 e) (ap some (value_behind key (value_of value)))
      | inr e ↦ rw (e) (getenv-print name vs n k.1)
    ])

other_prefix :
    (p name t : Bytes)
    → IsName name
    → IsName p
    → starts p name ≡ false
    → starts (name ++ b'=' ∷ []) (p ++ t) ≡ false
unfolding member
other_prefix [] name t n k e = absurd (ground (arith, e))
other_prefix (c ∷ p) [] t n k e = ground (arith, k)
other_prefix (c ∷ p) (d ∷ name) t n k e = elim (Bool-cases (c == d)) [
  | inl same ↦
      rw (same)
        (other_prefix p name t (ground (arith, n)) (ground (arith, k)) (ground (arith, e, same)))
  | inr other ↦ rw (other) refl
]

prefix-IsName : IsName (codes "HTTP_")
unfolding member
prefix-IsName = refl

-- Names that stand in front of a variable of a header line begin with HTTP_.
not_http :
    (name : Bytes) (vs : List Bytes)
    → IsName name
    → starts (codes "HTTP_") name ≡ false
    → All IsHttp vs
    → IsAbsent name vs
not_http name [] n h a = tt
not_http name (v ∷ vs) n h a =
    let (t, e) = starts_split (codes "HTTP_") v a.0 in
    (rw (e) (other_prefix (codes "HTTP_") name t n prefix-IsName h), not_http name vs n h a.1)

if_set-IsName :
    (key : Bytes) (value : Option Bytes) (vs : List Variable)
    → IsName key
    → All IsNamed vs
    → All IsNamed (if_set key value ++ vs)
if_set-IsName key none vs n a = a
if_set-IsName key (some value) vs n a = (n, a)

only_set : (key : Bytes) (value : Option Bytes) → IsName key → All IsNamed (if_set key value)
only_set key none n = tt
only_set key (some value) n = (n, tt)

content_variables-IsName :
    (default_type : Bytes) (h : Headers) (m : HttpMethod)
    → All IsNamed (content_variables default_type h m)
unfolding content_variables member
content_variables-IsName default_type h m_post =
    (refl, only_set (codes "CONTENT_LENGTH") h.content_length refl)
content_variables-IsName default_type h m_get = tt
content_variables-IsName default_type h m_head = tt
content_variables-IsName default_type h m_put = tt
content_variables-IsName default_type h m_delete = tt
content_variables-IsName default_type h m_link = tt
content_variables-IsName default_type h m_unlink = tt
content_variables-IsName default_type h m_move = tt
content_variables-IsName default_type h m_trace = tt

env_variables-IsName :
    (default_type : Bytes) (r : CgiRequest) → All IsNamed (env_variables default_type r)
unfolding env_variables server_variables script_variables remote_variables member
env_variables-IsName d r =
    let remote : All IsNamed (remote_variables d r) =
      (refl, (refl, content_variables-IsName d r.headers r.headers.logline.method)) in
    let script : All IsNamed (script_variables d r) = (
      refl,
      if_set-IsName (codes "QUERY_STRING") r.query_string (remote_variables d r) refl remote,
    ) in
    let translated =
      if_set-IsName (codes "PATH_TRANSLATED") r.path_translated (script_variables d r) refl
        script in
    let info =
      if_set-IsName (codes "PATH_INFO") r.path_info
        (if_set (codes "PATH_TRANSLATED") r.path_translated ++ script_variables d r) refl
        translated in
    (
      refl,
      if_set-IsName (codes "HTTP_HOST") r.headers.logline.header_host (server_variables d r) refl
          (refl, (refl, (refl, info))),
    )

-- For a request whose variables are counted and stem from header lines, and a name without '=' that
-- does not begin with HTTP_ and is no common variable: behind a successful complete_env the program
-- finds for this name what complete_env has added under it, whatever the header lines were.
pub complete_env-getenv :
    (name default_type : Bytes) (r : CgiRequest) (common : List Bytes)
    → IsCounted common r.headers
    → All IsHttp r.headers.cgi_env
    → IsName name
    → starts (codes "HTTP_") name ≡ false
    → IsAbsent name common
    → (complete_env default_type r).1 ≡ true
    → getenv name (environ common (complete_env default_type r).0.headers)
      ≡ find_variable name (env_variables default_type r)
complete_env-getenv name default_type r common k h n p a ok =
    rw ((complete_env-environ default_type r common k).1 ok) (
      getenv-append name (common ++ r.headers.cgi_env) _
        (All-append _ common r.headers.cgi_env a (not_http name r.headers.cgi_env n p h))
      ∙ getenv-print name (env_variables default_type r) n (env_variables-IsName default_type r))
