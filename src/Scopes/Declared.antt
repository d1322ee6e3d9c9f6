-- ===== src/Scopes/Declared.antt =====
-- src/compiler.cpp: declared variables are resolved, and removed ones are not.
use choice_lang.Prelude.{
  ◌+◌, ◌%◌, ◌<◌, length-append, lt→ltb, true, [], drop, length, ◌++◌, ℕ, zero, suc, ◌≡◌, refl, sym,
  Bool, false, none, some, Option, List, ◌∷◌, same_refl, same→≡, ◌==◌, same, ◌&&◌, and-true, ==_iff,
  ==_refl, Bool-cases, inl, inr, arith,
}
use choice_lang.Scopes.{
  DeclType, at_repl_top, cleared_from, clear_declarations, Scopes, found, at_slot, search_from,
  search, put_entry, erase, def_var, remove_var, resolve_variable, var_type,
}

put_entry-other :
    (name : List ℕ) (k reg : ℕ) (f : List ℕ → ℕ → Option ℕ) (n : List ℕ) (j : ℕ)
    → same n name ≡ false
    → put_entry name k reg f n j ≡ f n j
put_entry-other name k reg f n j h = ground arith

search_from-here :
    (wraps : Bool) (name : List ℕ) (k slot : ℕ) (f : List ℕ → ℕ → Option ℕ)
    → f name k ≡ some slot
    → search_from wraps name k f ≡ at_slot slot k
unfolding search_from
search_from-here wraps name zero slot f e = rw e refl
search_from-here wraps name (suc k) slot f e = rw e refl

search_from-entries :
    (wraps : Bool) (name : List ℕ) (k : ℕ) (f g : List ℕ → ℕ → Option ℕ)
    → ((j : ℕ) → f name j ≡ g name j)
    → search_from wraps name k f ≡ search_from wraps name k g
unfolding search_from
search_from-entries wraps name zero f g h = rw (h 0) refl
search_from-entries wraps name (suc k) f g h =
    rw (h (suc k), search_from-entries wraps name k f g h) refl

put_entry-here :
    (name : List ℕ) (k reg : ℕ) (f : List ℕ → ℕ → Option ℕ)
    → put_entry name k reg f name k ≡ some reg
put_entry-here name k reg f = rw (==_refl k, same_refl name) refl

erase-put_entry :
    (name : List ℕ) (k reg : ℕ) (f : List ℕ → ℕ → Option ℕ)
    → f name k ≡ none
    → (n : List ℕ) (j : ℕ) → erase name k (put_entry name k reg f) n j ≡ f n j
erase-put_entry name k reg f h n j = elim (Bool-cases (j == k && same n name)) [
  | inl e ↦
      let both = and-true (j == k) (same n name) e in
      rw e (sym (rw (same→≡ n name both.1, (==_iff j k).0 both.0) h))
  | inr e ↦ rw e refl
]

-- A declared variable is the one that its name resolves to, with the register, the kind, the
-- attributes and the access of the declaration, as a global or a local one by the place of the
-- declaration and whatever the scopes outside declare; no other name is found elsewhere than before.
pub resolve_variable-def_var :
    (name : List ℕ) (reg : ℕ) (access : Bool) (type_ : DeclType) (attr : ℕ) (s : Scopes)
    (outer : List Scopes)
    → let t = def_var name reg access type_ attr s in
      (resolve_variable name (t ∷ outer) ≡ (
        found (record {
          slot = reg;
          decl_info = record { type_ = type_; attr = attr };
          type_ = var_type s.depth s.scope;
          access = access;
        }),
        t ∷ outer,
      ))
      × ((other : List ℕ) → same other name ≡ false → search other t ≡ search other s)
unfolding resolve_variable def_var search
resolve_variable-def_var name reg access type_ attr s outer = (
  rw
      (
        search_from-here (s.scope == 255) name s.scope reg
            (put_entry name s.scope reg s.var_locations)
            (put_entry-here name s.scope reg s.var_locations),
        ==_refl reg,
      )
      refl,
  λ other h.
      search_from-entries (s.scope == 255) other s.scope _ _
        (λ j. put_entry-other name s.scope reg s.var_locations other j h),
)

-- The removal of a variable that was declared in a scope without one of its name restores what each
-- name is found at in the scopes of the compiler.
pub remove_var-def_var :
    (name : List ℕ) (reg : ℕ) (access : Bool) (type_ : DeclType) (attr : ℕ) (s : Scopes)
    → s.var_locations name s.scope ≡ none
    → (other : List ℕ)
    → search other (remove_var name (def_var name reg access type_ attr s)) ≡ search other s
unfolding def_var remove_var search
remove_var-def_var name reg access type_ attr s h other =
    search_from-entries (s.scope == 255) other s.scope _ _
      (erase-put_entry name s.scope reg s.var_locations h other)

drop-length {ℓ} : {A : Type ℓ} (xs : List A) (y : A) → drop (length xs) (xs ++ (y ∷ [])) ≡ y ∷ []
drop-length [] y = refl
drop-length (x ∷ xs) y = drop-length xs y

length-snoc {ℓ} : {A : Type ℓ} (xs : List A) (y : A) → length (xs ++ (y ∷ [])) ≡ length xs + 1
length-snoc xs y = length-append xs (y ∷ [])

-- In the REPL, outside of blocks and functions, a declaration of a new name whose code fails is
-- undone, where fewer than 255 declarations are in front of it on the line: clearing from its index
-- on has a result, frees its register and leaves each name where it was found.
pub clear_declarations-def_var :
    (name : List ℕ) (reg : ℕ) (access : Bool) (type_ : DeclType) (attr : ℕ) (s : Scopes)
    → at_repl_top s ≡ true
    → s.var_locations name s.scope ≡ none
    → length s.declared_vars < 255
    → (t : Scopes) × (clear_declarations true
          (length s.declared_vars)
          (def_var name reg access type_ attr s)
        ≡ some t)
      × (t.next_reg ≡ reg)
      × ((other : List ℕ) → search other t ≡ search other s)
unfolding def_var clear_declarations search
clear_declarations-def_var name reg access type_ attr s top h few =
    let size = length s.declared_vars in
    let all = s.declared_vars ++ ((name, reg) ∷ []) in
    let e = drop-length s.declared_vars (name, reg) in
    let index : size % 256 ≡ size = omega (arith, few) in
    let len = length-snoc s.declared_vars (name, reg) in
    (
      cleared_from size (def_var name reg access type_ attr s),
      rw
          (
            top,
            index,
            lt→ltb size (length all) (omega (arith, len)),
            lt→ltb (length all) 256 (omega (arith, few, len)),
          )
          refl,
      rw (top, e) refl,
      λ other.
          rw (top, e)
            (search_from-entries (s.scope == 255) other s.scope _ _
              (erase-put_entry name s.scope reg s.var_locations h other)),
    )
