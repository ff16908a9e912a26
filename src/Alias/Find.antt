-- ===== src/Alias/Find.antt =====
-- `find_alias` looks in one chain only: what it finds, and what it misses.
use boa.Common.{
  ◌∙◌, sym, ap, ℕ, ◌+◌, ◌%◌, ◌^◌, ◌<◌, ◌≡◌, refl, sym, ap, ◌∙◌, ◌≢◌, ◌⊎◌, inl, inr, Bool, true,
  false, not, ◌&&◌, ◌||◌, Option, none, some, List, [], ◌∷◌, ◌++◌, arith, ◌==◌, eq-of-==,
  Bool-cases, and-eq-true, length, get_or, set, length-set, get_or-set_self, get_or-set_ne, All,
  Bytes, str_eq, starts_split,
}
use boa.Hash.{char_unsigned}
use mathlib.Core.Path.{subst}
use boa.Alias.{
  Alias, AliasTable, alias_hashtable_size, alias_hash_loop, get_alias_hash_value, chain_add,
  add_alias, last_byte, is_match, find_in_chain, find_alias,
}

-- A text that ends here, or goes on with a slash.
abbrev Stops : Bytes → Type 0
Stops [] = Unit
Stops (c ∷ s) = (c == b'/') ≡ true

alias_hash_loop-Stops :
    (h : ℕ) (f t : Bytes) → Stops t → alias_hash_loop h (f ++ t) ≡ alias_hash_loop h f
unfolding alias_hash_loop
alias_hash_loop-Stops h [] [] e = refl
alias_hash_loop-Stops h [] (c ∷ t) e = rw (e) refl
alias_hash_loop-Stops h (c ∷ f) t e =
    rw (alias_hash_loop-Stops ((h + char_unsigned c) % 2 ^ 32) f t e) refl

alias_hash_loop-slash :
    (h : ℕ) (f t : Bytes)
    → (last_byte f == b'/') ≡ true
    → alias_hash_loop h (f ++ t) ≡ alias_hash_loop h f
unfolding alias_hash_loop last_byte
alias_hash_loop-slash h [] t e = absurd (ground (arith, e))
alias_hash_loop-slash h (c ∷ []) t e = rw (e) refl
alias_hash_loop-slash h (c ∷ d ∷ f) t e =
    rw (alias_hash_loop-slash ((h + char_unsigned c) % 2 ^ 32) (d ∷ f) t e) refl

get_or-append : (p t : Bytes) → get_or (p ++ t) (length p) 0 ≡ get_or t 0 0
get_or-append [] t = refl
get_or-append (c ∷ p) t = get_or-append p t

-- A C string.
abbrev pub NoNul : Bytes → Type 0
NoNul s = All (λ c. (c == 0) ≡ false) s

NoNul-behind : (p t : Bytes) → NoNul (p ++ t) → NoNul t
NoNul-behind [] t h = h
NoNul-behind (c ∷ p) t h = NoNul-behind p t h.1

Stops-of : (t : Bytes) → NoNul t → (get_or t 0 0 == 0 || get_or t 0 0 == b'/') ≡ true → Stops t
Stops-of [] n e = tt
Stops-of (c ∷ t) n e = ground (arith, e, n.0)

either : (a b : Bool) → (a || not a && b) ≡ true → (a ≡ true) ⊎ (b ≡ true)
either true b e = inl refl
either false b e = inr e

-- The name of the alias stands in front, and ends in a slash or at the end of a part of the path.
pub is_match-split :
    (uri : Bytes) (a : Alias)
    → is_match uri a ≡ true
    → (t : Bytes) × (uri ≡ a.fakename ++ t)
      × (((last_byte a.fakename == b'/') ≡ true)
          ⊎ ((get_or t 0 0 == 0 || get_or t 0 0 == b'/') ≡ true))
unfolding is_match
is_match-split uri a e =
    let one = and-eq-true _ _ e in
    let two = and-eq-true _ _ one.0 in
    let (t, s) = starts_split a.fakename uri two.1 in
    let next = ap (λ u. get_or u (length a.fakename) 0) s ∙ get_or-append a.fakename t in
    (
      t,
      s,
      elim (either _ _ one.1) [
        | inl l ↦ inl l
        | inr r ↦ inr (sym (ap (λ n. n == 0 || n == b'/') next) ∙ r)
      ],
    )

-- A path and a name that matches it are in the same chain, but for the name "/".
same_hash :
    (uri : Bytes) (a : Alias)
    → NoNul uri
    → a.fakename ≢ []
    → is_match uri a ≡ true
    → (get_alias_hash_value uri ≡ get_alias_hash_value a.fakename) ⊎ (a.fakename ≡ b'/' ∷ [])
unfolding get_alias_hash_value last_byte
same_hash uri a n e m =
    let (t, s, d) = is_match-split uri a m in
    rw (s) (by_name a.fakename t e d (NoNul-behind a.fakename t (subst (λ u. NoNul u) s n)))
  where
    by_name :
        (f t : Bytes)
        → f ≢ []
        → (((last_byte f == b'/') ≡ true) ⊎ ((get_or t 0 0 == 0 || get_or t 0 0 == b'/') ≡ true))
        → NoNul t
        → (get_alias_hash_value (f ++ t) ≡ get_alias_hash_value f) ⊎ (f ≡ b'/' ∷ [])
    by_name [] t e d k = absurd (e refl)
    by_name (c ∷ f) t e (inr r) k = inl (
        ap (λ h. h % alias_hashtable_size)
          (alias_hash_loop-Stops (char_unsigned c) f t (Stops-of t k r)))
    by_name (c ∷ []) t e (inl l) k = inr (ap (λ x. x ∷ []) (eq-of-== c b'/' l))
    by_name (c ∷ d ∷ f) t e (inl l) k =
        inl
          (ap (λ h. h % alias_hashtable_size) (alias_hash_loop-slash (char_unsigned c) (d ∷ f) t l))

get_alias_hash_value-lt : (s : Bytes) → get_alias_hash_value s < alias_hashtable_size
unfolding get_alias_hash_value
get_alias_hash_value-lt [] = omega arith
get_alias_hash_value-lt (c ∷ s) = omega arith

-- Every alias is in the chain of its name, and no name is empty.
pub record IsTable (table : AliasTable) : Type 0 where
  pub chains : length table ≡ alias_hashtable_size
  pub placed :
      (i : ℕ)
      → All (λ a. (get_alias_hash_value a.fakename ≡ i) × (a.fakename ≢ [])) (get_or table i [])

-- What find_alias gives: an alias that matches, or nothing, and then no alias of any chain matches,
-- but for the name "/".
pub data Found (table : AliasTable) (uri : Bytes) : Option Alias → Type 0 where
  one : (a : Alias) → is_match uri a ≡ true → Found table uri (some a)
  nothing :
      ((i : ℕ) → All (λ a. is_match uri a ≡ true → a.fakename ≡ b'/' ∷ []) (get_or table i []))
      → Found table uri none

-- A search in one chain.
pub data InChain (uri : Bytes) (chain : List Alias) : Option Alias → Type 0 where
  match_in : (a : Alias) → is_match uri a ≡ true → InChain uri chain (some a)
  no_match : All (λ a. is_match uri a ≡ false) chain → InChain uri chain none

pub find_in_chain-InChain :
    (uri : Bytes) (chain : List Alias) → InChain uri chain (find_in_chain uri chain)
unfolding find_in_chain
find_in_chain-InChain uri [] = no_match tt
find_in_chain-InChain uri (a ∷ chain) = elim (Bool-cases (is_match uri a)) [
  | inl e ↦ rw (e) (match_in a e)
  | inr e ↦ rw (e) (by_rest (find_in_chain uri chain) (find_in_chain-InChain uri chain) e)
]
  where
    by_rest :
        (o : Option Alias)
        → InChain uri chain o
        → is_match uri a ≡ false
        → InChain uri (a ∷ chain) o
    by_rest _ (match_in b m) e = match_in b m
    by_rest _ (no_match h) e = no_match (e, h)

All-no_match :
    (uri : Bytes) (i h : ℕ) (chain : List Alias)
    → NoNul uri
    → get_alias_hash_value uri ≡ h
    → All (λ a. (get_alias_hash_value a.fakename ≡ i) × (a.fakename ≢ [])) chain
    → (i ≡ h → All (λ a. is_match uri a ≡ false) chain)
    → All (λ a. is_match uri a ≡ true → a.fakename ≡ b'/' ∷ []) chain
All-no_match uri i h [] n e p k = tt
All-no_match uri i h (a ∷ chain) n e (p, ps) k =
    (here, All-no_match uri i h chain n e ps (λ q. (k q).1))
  where
    here : is_match uri a ≡ true → a.fakename ≡ b'/' ∷ []
    here m = elim (same_hash uri a n p.1 m) [
      | inl q ↦ absurd (ground (arith, m, (k (sym p.0 ∙ sym q ∙ e)).0))
      | inr q ↦ q
    ]

-- In a table where every alias is in the chain of its non-empty name, and for a path without NUL,
-- find_alias gives an alias that matches the path, or nothing, and then no alias of any chain
-- matches, but possibly those of the name "/".
pub find_alias-Found :
    (table : AliasTable) (uri : Bytes)
    → IsTable table
    → NoNul uri
    → Found table uri (find_alias table uri)
unfolding find_alias
find_alias-Found table uri t n = by_chain _ (find_in_chain-InChain uri (get_or table h []))
  where
    h : ℕ
    h = get_alias_hash_value uri

    by_chain : (o : Option Alias) → InChain uri (get_or table h []) o → Found table uri o
    by_chain _ (match_in a m) = one a m
    by_chain _ (no_match k) = nothing (λ i.
        All-no_match uri i h (get_or table i []) n refl (t.placed i)
          (λ q. subst (λ j. All (λ a. is_match uri a ≡ false) (get_or table j [])) (sym q) k))

chain_add-All :
    (P : Alias → Type 0) (new : Alias) (chain : List Alias)
    → P new
    → All P chain
    → All P (chain_add new chain)
unfolding chain_add
chain_add-All P new [] p h = (p, tt)
chain_add-All P new (old ∷ []) p (h, _) = (h, (p, tt))
chain_add-All P new (old ∷ next ∷ rest) p (h, hs) =
    elim (Bool-cases (str_eq new.fakename old.fakename)) [
      | inl e ↦ rw (e) (h, hs)
      | inr e ↦ rw (e) (h, chain_add-All P new (next ∷ rest) p hs)
    ]

-- add_alias keeps every alias in the chain of its name and the number of chains, for an alias with
-- a non-empty name.
pub add_alias-IsTable :
    (new : Alias) (table : AliasTable)
    → new.fakename ≢ []
    → IsTable table
    → IsTable (add_alias new table)
unfolding add_alias
add_alias-IsTable new table n t = record {
  chains = length-set table hash _ ∙ t.chains;
  placed = λ i. elim (Bool-cases (hash == i)) [
    | inl e ↦
        subst
          (λ j.
            All (λ a. (get_alias_hash_value a.fakename ≡ j) × (a.fakename ≢ []))
              (get_or (add_alias new table) j []))
          (eq-of-== _ _ e) same
    | inr e ↦
        subst (λ c. All (λ a. (get_alias_hash_value a.fakename ≡ i) × (a.fakename ≢ [])) c)
          (sym (get_or-set_ne table hash i _ [] (λ q. ground (arith, e, q)))) (t.placed i)
  ];
}
  where
    hash : ℕ
    hash = get_alias_hash_value new.fakename

    same :
        All
          (λ a. (get_alias_hash_value a.fakename ≡ hash) × (a.fakename ≢ []))
          (get_or (set table hash (chain_add new (get_or table hash []))) hash [])
    same =
        rw
          (get_or-set_self table hash (chain_add new (get_or table hash [])) []
            (omega (arith, t.chains, hash-lt)))
          (chain_add-All (λ a. (get_alias_hash_value a.fakename ≡ hash) × (a.fakename ≢ [])) new
            (get_or table hash []) (refl, n) (t.placed hash))
      where
        hash-lt : hash < alias_hashtable_size
        hash-lt = get_alias_hash_value-lt new.fakename
