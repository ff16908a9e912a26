-- ===== src/Cgi/Environment.antt =====
-- The environment that a CGI program finds.
use boa.Common.{
  ◌∙◌, sym, ap, ℕ, ◌+◌, ◌≤◌, ◌<◌, ◌≡◌, refl, sym, ap, ap₂, ◌∙◌, ◌≢◌, ◌↔◌, ◌⊎◌, inl, inr, Bool, true,
  false, ◌&&◌, Option, List, [], ◌∷◌, ◌++◌, map, append-nil, append_assoc, arith, ltb, leb,
  Bool-cases, length, length-append, Bytes,
}
use boa.Options.{Headers, cgi_env_max, env_gen_extra}
use boa.Cgi.{
  CgiRequest, Variable, value_of, my_add_cgi_env, add_all, env_variables, complete_env, environ,
}

-- The text of a variable.
abbrev pub print_variable : Variable → Bytes
print_variable (key, value) = env_gen_extra key (value_of value)

-- The index counts the variables, the common ones included.
abbrev pub IsCounted : List Bytes → Headers → Type 0
IsCounted common h =
    (h.logline.cgi_env_index ≡ length (environ common h)) × (h.logline.cgi_env_index ≤ cgi_env_max)

-- The headers with another end of the environment.
abbrev put_env : ℕ → List Bytes → Headers → Headers
put_env n e h = record h { logline = record h.logline { cgi_env_index = n }; cgi_env = e }

-- The headers with variables added.
abbrev pub with_variables : List Variable → Headers → Headers
with_variables vs h =
    put_env (h.logline.cgi_env_index + length vs) (h.cgi_env ++ map print_variable vs) h

abbrev with_variable : Bytes → Option Bytes → Headers → Headers
with_variable key value h =
    put_env (h.logline.cgi_env_index + 1) (h.cgi_env ++ print_variable (key, value) ∷ []) h

my_add_cgi_env-room :
    (key : Bytes) (value : Option Bytes) (h : Headers)
    → h.logline.cgi_env_index < cgi_env_max
    → my_add_cgi_env h key value ≡ (with_variable key value h, true)
unfolding my_add_cgi_env
my_add_cgi_env-room key value h room = ground (arith, room)

my_add_cgi_env-full :
    (key : Bytes) (value : Option Bytes) (h : Headers)
    → cgi_env_max ≤ h.logline.cgi_env_index
    → my_add_cgi_env h key value ≡ (h, false)
unfolding my_add_cgi_env
my_add_cgi_env-full key value h full = ground (arith, full)

with_variables-with_variable :
    (key : Bytes) (value : Option Bytes) (vs : List Variable) (h : Headers)
    → with_variables vs (with_variable key value h) ≡ with_variables ((key, value) ∷ vs) h
with_variables-with_variable key value vs h =
    ap₂ (λ n e. put_env n e h) (omega arith)
      (append_assoc h.cgi_env (print_variable (key, value) ∷ []) (map print_variable vs))

add_all-room :
    (vs : List Variable) (h : Headers)
    → h.logline.cgi_env_index + length vs ≤ cgi_env_max
    → add_all vs h ≡ (with_variables vs h, true)
unfolding add_all
add_all-room [] h room =
    ap₂ (λ n e. (put_env n e h, true)) (omega arith) (sym (append-nil h.cgi_env))
add_all-room ((key, value) ∷ vs) h room =
    rw (my_add_cgi_env-room key value h (omega (arith, room))) (
      add_all-room vs (with_variable key value h) (omega (arith, room))
      ∙ ap (λ g. (g, true)) (with_variables-with_variable key value vs h))

add_all-full :
    (vs : List Variable) (h : Headers)
    → cgi_env_max < h.logline.cgi_env_index + length vs
    → h.logline.cgi_env_index ≤ cgi_env_max
    → (add_all vs h).1 ≡ false
unfolding add_all
add_all-full [] h full bound = absurd (omega (arith, full, bound))
add_all-full ((key, value) ∷ vs) h full bound =
    elim (Bool-cases (ltb h.logline.cgi_env_index cgi_env_max)) [
      | inl e ↦
          rw (my_add_cgi_env-room key value h (ground (arith, e)))
            (add_all-full vs (with_variable key value h) (omega (arith, full)) (ground (arith, e)))
      | inr e ↦ rw (my_add_cgi_env-full key value h (ground (arith, e))) refl
    ]

with_variable-IsCounted :
    (common : List Bytes) (key : Bytes) (value : Option Bytes) (h : Headers)
    → h.logline.cgi_env_index < cgi_env_max
    → IsCounted common h
    → IsCounted common (with_variable key value h)
with_variable-IsCounted common key value h room k = (
  omega (
    arith,
    k.0,
    length-append common h.cgi_env,
    length-append common (h.cgi_env ++ print_variable (key, value) ∷ []),
    length-append h.cgi_env (print_variable (key, value) ∷ []),
  ),
  omega (arith, room),
)

add_all-IsCounted :
    (common : List Bytes) (vs : List Variable) (h : Headers)
    → IsCounted common h
    → IsCounted common (add_all vs h).0
unfolding add_all
add_all-IsCounted common [] h k = k
add_all-IsCounted common ((key, value) ∷ vs) h k =
    elim (Bool-cases (ltb h.logline.cgi_env_index cgi_env_max)) [
      | inl e ↦ rw (my_add_cgi_env-room key value h (ground (arith, e))) (
          add_all-IsCounted common vs (with_variable key value h)
            (with_variable-IsCounted common key value h (ground (arith, e)) k))
      | inr e ↦ rw (my_add_cgi_env-full key value h (ground (arith, e))) k
    ]

-- For every request whose variables are counted and within the 100 places: complete_env succeeds
-- exactly if there is room for its variables too; the environment then is the common variables,
-- those of the header lines and these, in order; and the variables are counted and within the 100
-- places also behind a failure.
pub complete_env-environ :
    (default_type : Bytes) (r : CgiRequest) (common : List Bytes)
    → IsCounted common r.headers
    → (((complete_env default_type r).1 ≡ true)
        ↔ (length (environ common r.headers) + length (env_variables default_type r) ≤ cgi_env_max))
      × ((complete_env default_type r).1 ≡ true
          → environ common (complete_env default_type r).0.headers
            ≡ environ common r.headers ++ map print_variable (env_variables default_type r))
      × IsCounted common (complete_env default_type r).0.headers
unfolding complete_env
complete_env-environ default_type r common k = by_room (env_variables default_type r) (
    Bool-cases
      (leb (r.headers.logline.cgi_env_index + length (env_variables default_type r)) cgi_env_max))
  where
    no_success : (a b : Bool) → a ≡ false → (a && b) ≢ true
    no_success a b e t = ground (arith, e, t)

    after : List Variable → Bool
    after vs =
        (add_all vs r.headers).1
        && ltb (add_all vs r.headers).0.logline.cgi_env_index (cgi_env_max + 1)

    by_room :
        (vs : List Variable)
        → ((leb (r.headers.logline.cgi_env_index + length vs) cgi_env_max) ≡ true)
          ⊎ ((leb (r.headers.logline.cgi_env_index + length vs) cgi_env_max) ≡ false)
        → ((after vs ≡ true) ↔ (length (environ common r.headers) + length vs ≤ cgi_env_max))
          × (after vs ≡ true
              → environ common (add_all vs r.headers).0
                ≡ environ common r.headers ++ map print_variable vs)
          × IsCounted common (add_all vs r.headers).0
    by_room vs (inl e) =
        let room : r.headers.logline.cgi_env_index + length vs ≤ cgi_env_max = ground (arith, e) in
        let added = add_all-room vs r.headers room in
        (
          (λ _. omega (arith, k.0, room), λ _. rw added (ground (arith, room))),
          λ _. rw added (sym (append_assoc common r.headers.cgi_env (map print_variable vs))),
          add_all-IsCounted common vs r.headers k,
        )
    by_room vs (inr e) =
        let full : cgi_env_max < r.headers.logline.cgi_env_index + length vs = ground (arith, e) in
        let refused = add_all-full vs r.headers full k.1 in
        (
          (λ t. absurd (no_success _ _ refused t), λ room. absurd (omega (arith, k.0, room, full))),
          λ t. absurd (no_success _ _ refused t),
          add_all-IsCounted common vs r.headers k,
        )
