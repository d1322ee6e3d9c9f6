-- ===== src/Scopes/Captures.antt =====
-- src/compiler.cpp: names that resolve in enclosing compilers, and their captures.
use choice_lang.Prelude.{
  ℕ, ◌≡◌, refl, ap, ◌∙◌, not, ◌&&◌, List, [], ◌∷◌, same_refl, Bool-cases, inl, inr, Option-cases,
}
use choice_lang.Scopes.{
  Scopes, VarInfo, Resolution, found, absent, no_result, Search, at_slot, nowhere, endless, search,
  capture_variable, captured, capturing, is_forbidden, capture_or_report, enclosed,
  local_or_enclosed, resolve_variable, is_dummy, is_global,
}

captured-again :
    (name : List ℕ) (info : VarInfo) (s : Scopes)
    → captured name info (captured name info s).1 ≡ captured name info s
unfolding capture_variable
captured-again name info s = elim (Bool-cases (not s.in_module && is_global info.type_)) [
  | inl e ↦ rw (e, e) refl
  | inr e ↦ elim (Option-cases (s.capture_names name)) [
    | inl q ↦ rw (e, q, e, same_refl name) refl
    | inr (index, q) ↦ rw (e, q, e, q) refl
  ]
]

-- A capture leaves the names of the compiler alone.
captured-kept :
    (name : List ℕ) (info : VarInfo) (s : Scopes)
    → let s' = (captured name info s).1 in
      (s'.current_attr ≡ s.current_attr) × (search name s' ≡ search name s)
unfolding capture_variable search
captured-kept name info s = elim (Bool-cases (not s.in_module && is_global info.type_)) [
  | inl e ↦ rw e (refl, refl)
  | inr e ↦ elim (Option-cases (s.capture_names name)) [
    | inl q ↦ rw (e, q) (refl, refl)
    | inr (index, q) ↦ rw (e, q) (refl, refl)
  ]
]

capturing-again :
    (name : List ℕ) (info : VarInfo) (s : Scopes)
    → capturing name info (capturing name info s).1 ≡ capturing name info s
capturing-again name info s = elim (Bool-cases (is_forbidden info s.current_attr)) [
  | inl e ↦ rw (e, e) refl
  | inr e ↦ rw e (
      ap (λ attr. capture_or_report (is_forbidden info attr) name info (captured name info s).1)
        (captured-kept name info s).0
      ∙ ap (λ b. capture_or_report b name info (captured name info s).1) e
      ∙ captured-again name info s)
]

enclosed-again :
    (name : List ℕ) (s : Scopes) (r : Resolution)
    → enclosed name (enclosed name s r).1 r ≡ enclosed name s r
enclosed-again name s (found info) = elim (Bool-cases (is_dummy info.type_)) [
  | inl e ↦ rw e refl
  | inr e ↦ rw e (capturing-again name info s)
]
enclosed-again name s absent = refl
enclosed-again name s no_result = refl

capturing-search :
    (name : List ℕ) (info : VarInfo) (s : Scopes)
    → search name (capturing name info s).1 ≡ search name s
unfolding search
capturing-search name info s = elim (Bool-cases (is_forbidden info s.current_attr)) [
  | inl e ↦ rw e refl
  | inr e ↦ rw e ((captured-kept name info s).1)
]

enclosed-search :
    (name : List ℕ) (s : Scopes) (r : Resolution)
    → search name (enclosed name s r).1 ≡ search name s
enclosed-search name s (found info) = elim (Bool-cases (is_dummy info.type_)) [
  | inl e ↦ rw e refl
  | inr e ↦ rw e (capturing-search name info s)
]
enclosed-search name s absent = refl
enclosed-search name s no_result = refl

-- One compiler, from what its search and the enclosing compilers give.
local_or_enclosed-again :
    (name : List ℕ) (s : Scopes) (outer : List Scopes) (w : Search)
    → search name s ≡ w
    → resolve_variable name (resolve_variable name outer).1 ≡ resolve_variable name outer
    → resolve_variable name (local_or_enclosed name s outer w (resolve_variable name outer)).1
      ≡ local_or_enclosed name s outer w (resolve_variable name outer)
unfolding resolve_variable
local_or_enclosed-again name s outer (at_slot slot k) e again =
    ap (λ w. local_or_enclosed name s outer w (resolve_variable name outer)) e
local_or_enclosed-again name s outer endless e again =
    ap (λ w. local_or_enclosed name s outer w (resolve_variable name outer)) e
local_or_enclosed-again name s outer nowhere e again =
    let r = resolve_variable name outer in
    let s' = (enclosed name s r.0).1 in
    ap (λ w. local_or_enclosed name s' r.1 w (resolve_variable name r.1))
      (enclosed-search name s r.0 ∙ e)
    ∙ ap (λ q. local_or_enclosed name s' r.1 nowhere q) again
    ∙ ap (λ q. (q.0, q.1 ∷ r.1)) (enclosed-again name s r.0)

-- A name that was resolved resolves to the same variable again, through any number of enclosing
-- compilers: the second resolution adds no capture and changes no compiler.
pub resolve_variable-again :
    (name : List ℕ) (compilers : List Scopes)
    → resolve_variable name (resolve_variable name compilers).1 ≡ resolve_variable name compilers
unfolding resolve_variable
resolve_variable-again name [] = refl
resolve_variable-again name (s ∷ outer) =
    local_or_enclosed-again name s outer (search name s) refl (resolve_variable-again name outer)
