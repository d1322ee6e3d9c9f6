-- ===== src/Scopes/Blocks.antt =====
-- src/compiler.cpp: what a block leaves of the tables of variables.
use choice_lang.Prelude.{
  ℕ, zero, suc, ◌+◌, ◌≤◌, ◌<◌, ◌≡◌, ◌≢◌, inl, inr, refl, sym, ap, ◌∙◌, Bool, false, ◌||◌, Option,
  none, List, [], ◌∷◌, ◌++◌, append-nil, ltb, ltb→lt, ◌==◌, same, ==_refl, Bool-cases, arith,
}
use choice_lang.Scopes.{
  DeclType, Scopes, erase, remove_all, top, rest_of, def_var, push_scope, pop_scope, search,
  search_from, put_entry,
}

-- A part of a block: declarations, blocks inside of it, and code that leaves the names alone.
pub data Run : Scopes → Scopes → Type 0 where
  done : (s : Scopes) → Run s s
  declare :
      {s t : Scopes}
      → Run s t
      → (name : List ℕ) (reg : ℕ) (access : Bool) (type_ : DeclType) (attr : ℕ)
      → Run s (def_var name reg access type_ attr t)
  block : {s t u : Scopes} → Run s t → t.scope < 255 → Run (push_scope t) u → Run s (pop_scope u)
  elsewhere :
      {s t : Scopes}
      → Run s t
      → (u : Scopes) → u.scope ≡ t.scope
      → u.var_locations ≡ t.var_locations
      → u.var_scopes ≡ t.var_scopes
      → Run s u

-- No name of a scope that is not open.
abbrev pub IsClosed : Scopes → Type 0
IsClosed s = (name : List ℕ) (k : ℕ) → s.scope < k → s.var_locations name k ≡ none

abbrev has : List ℕ → List (List ℕ) → Bool
has name [] = false
has name (n ∷ names) = same name n || has name names

erase-outside :
    (n : List ℕ) (k : ℕ) (f : List ℕ → ℕ → Option ℕ) (m : List ℕ) (j : ℕ)
    → j ≢ k
    → erase n k f m j ≡ f m j
erase-outside n k f m j h = ground arith

remove_all-outside :
    (ns : List (List ℕ)) (k : ℕ) (f : List ℕ → ℕ → Option ℕ) (m : List ℕ) (j : ℕ)
    → j ≢ k
    → remove_all ns k f m j ≡ f m j
remove_all-outside [] k f m j h = refl
remove_all-outside (n ∷ ns) k f m j h =
    remove_all-outside ns k (erase n k f) m j h ∙ erase-outside n k f m j h

-- The table lacks a name, or the name is among those that are erased next.
erase-gone :
    (n : List ℕ) (ns : List (List ℕ)) (k : ℕ) (f : List ℕ → ℕ → Option ℕ) (m : List ℕ)
    → (has m (n ∷ ns) ≡ false → f m k ≡ none)
    → has m ns ≡ false
    → erase n k f m k ≡ none
erase-gone n ns k f m h out = elim (Bool-cases (same m n)) [
  | inl e ↦ rw (==_refl k, e) refl
  | inr e ↦ rw (==_refl k, e) (h (rw (e, out) refl))
]

remove_all-gone :
    (ns : List (List ℕ)) (k : ℕ) (f : List ℕ → ℕ → Option ℕ) (m : List ℕ)
    → (has m ns ≡ false → f m k ≡ none)
    → remove_all ns k f m k ≡ none
remove_all-gone [] k f m h = h refl
remove_all-gone (n ∷ ns) k f m h = remove_all-gone ns k (erase n k f) m (erase-gone n ns k f m h)

-- What a part of a block leaves as it was; `names` are those that it declares in its own scope.
record Between (s t : Scopes) : Type 0 where
  same_scope : t.scope ≡ s.scope
  names : List (List ℕ)
  below : (name : List ℕ) (k : ℕ) → k < s.scope → t.var_locations name k ≡ s.var_locations name k
  here :
      (name : List ℕ)
      → has name names ≡ false
      → t.var_locations name s.scope ≡ s.var_locations name s.scope
  above : IsClosed s → IsClosed t
  tops : 0 < s.scope → top t.var_scopes ≡ names ++ top s.var_scopes
  rests : 0 < s.scope → rest_of t.var_scopes ≡ rest_of s.var_scopes

put_entry-outside :
    (n : List ℕ) (k reg : ℕ) (f : List ℕ → ℕ → Option ℕ) (m : List ℕ) (j : ℕ)
    → j ≢ k
    → put_entry n k reg f m j ≡ f m j
put_entry-outside n k reg f m j h = ground arith

put_entry-other :
    (n : List ℕ) (k reg : ℕ) (f : List ℕ → ℕ → Option ℕ) (m : List ℕ) (j : ℕ)
    → same m n ≡ false
    → put_entry n k reg f m j ≡ f m j
put_entry-other n k reg f m j h = ground arith

has_not_first : (m n : List ℕ) (ns : List (List ℕ)) → has m (n ∷ ns) ≡ false → same m n ≡ false
has_not_first m n ns h = ground arith

has_not_rest : (m n : List ℕ) (ns : List (List ℕ)) → has m (n ∷ ns) ≡ false → has m ns ≡ false
has_not_rest m n ns h = ground arith

positive : (k : ℕ) → 0 < k → (k == 0) ≡ false
positive k h = ground arith

declared :
    (s t : Scopes) (name : List ℕ) (reg : ℕ) (access : Bool) (type_ : DeclType) (attr : ℕ)
    → Between s t
    → Between s (def_var name reg access type_ attr t)
unfolding def_var
declared s t name reg access type_ attr x = record {
  same_scope = x.same_scope;
  names = name ∷ x.names;
  below = λ n k h.
      put_entry-outside name t.scope reg t.var_locations n k
        (λ e. absurd (omega (arith, e, h, x.same_scope)))
      ∙ x.below n k h;
  here = λ n h.
      put_entry-other name t.scope reg t.var_locations n s.scope (has_not_first n name x.names h)
      ∙ x.here n (has_not_rest n name x.names h);
  above = λ h n k less.
      put_entry-outside name t.scope reg t.var_locations n k (λ e. absurd (omega (arith, e, less)))
      ∙ x.above h n k less;
  tops = λ h. rw (positive t.scope (omega (arith, h, x.same_scope)), x.tops h) refl;
  rests = λ h. rw (positive t.scope (omega (arith, h, x.same_scope)), x.rests h) refl;
}

-- The scope that the block is in, and that of the block.
inner_scope : (t : Scopes) → t.scope < 255 → (push_scope t).scope ≡ t.scope + 1
unfolding push_scope
inner_scope t h = omega (arith, h)

outer_scope : (u : Scopes) (k : ℕ) → k < 255 → u.scope ≡ k + 1 → (pop_scope u).scope ≡ k
unfolding pop_scope
outer_scope u k h e = omega (arith, h, e)

last_scope : (a k : ℕ) → ltb a k ≡ false → a ≤ k → k ≡ a
last_scope a k e h = ground arith

module _ (t u : Scopes) (room : t.scope < 255) (x : Between (push_scope t) u) where
  inside : u.scope ≡ t.scope + 1
  inside = x.same_scope ∙ inner_scope t room

  popped_below :
      (name : List ℕ) (k : ℕ)
      → k ≤ t.scope
      → (pop_scope u).var_locations name k ≡ t.var_locations name k
  unfolding pop_scope push_scope
  popped_below name k h =
      remove_all-outside (top u.var_scopes) u.scope u.var_locations name k
        (λ e. absurd (omega (arith, e, h, inside)))
      ∙ x.below name k (omega (arith, h, inner_scope t room))

  unlisted : (name : List ℕ) → has name (top u.var_scopes) ≡ false → has name x.names ≡ false
  unfolding push_scope
  unlisted name h =
      sym (ap (has name) (x.tops (omega (arith, inner_scope t room)) ∙ append-nil x.names)) ∙ h

  -- The names of the block are on its list.
  popped_at : IsClosed t → (name : List ℕ) → (pop_scope u).var_locations name u.scope ≡ none
  unfolding pop_scope push_scope
  popped_at closed name = remove_all-gone (top u.var_scopes) u.scope u.var_locations name (λ out.
      rw x.same_scope (
        x.here name (unlisted name out)
        ∙ closed name (push_scope t).scope (omega (arith, inner_scope t room))))

  popped_above : IsClosed t → IsClosed (pop_scope u)
  unfolding pop_scope push_scope
  popped_above closed name k h = elim (Bool-cases (ltb u.scope k)) [
    | inl e ↦
        remove_all-outside (top u.var_scopes) u.scope u.var_locations name k
          (λ q. absurd (omega (arith, q, ltb→lt u.scope k e)))
        ∙ x.above (λ n j less. closed n j (omega (arith, less, inner_scope t room))) name k
            (omega (arith, ltb→lt u.scope k e, x.same_scope))
    | inr e ↦ rw (last_scope u.scope k e (omega (arith, h, inside, room))) (popped_at closed name)
  ]

  popped_stack : (pop_scope u).var_scopes ≡ t.var_scopes
  unfolding pop_scope push_scope
  popped_stack = x.rests (omega (arith, inner_scope t room))

-- Behind the block, in the part that it stands in.
after_block :
    (s t u : Scopes)
    → t.scope < 255
    → Between s t
    → Between (push_scope t) u
    → Between s (pop_scope u)
after_block s t u room y x = record {
  same_scope = outer_scope u t.scope room (inside t u room x) ∙ y.same_scope;
  names = y.names;
  below = λ n k h. popped_below t u room x n k (omega (arith, h, y.same_scope)) ∙ y.below n k h;
  here = λ n h. popped_below t u room x n s.scope (omega (arith, y.same_scope)) ∙ y.here n h;
  above = λ closed. popped_above t u room x (y.above closed);
  tops = λ h. ap top (popped_stack t u room x) ∙ y.tops h;
  rests = λ h. ap rest_of (popped_stack t u room x) ∙ y.rests h;
}

between : {s t : Scopes} → Run s t → Between s t
between (done s) = record {
  same_scope = refl;
  names = [];
  below = λ n k h. refl;
  here = λ n h. refl;
  above = λ closed. closed;
  tops = λ h. refl;
  rests = λ h. refl;
}
between (declare {s} {t} run name reg access type_ attr) =
    declared s t name reg access type_ attr (between run)
between (block {s} {t} {u} run room body) = after_block s t u room (between run) (between body)
between (elsewhere {s} {t} run u scope locations scopes) =
    let y = between run in
    record {
      same_scope = scope ∙ y.same_scope;
      names = y.names;
      below = λ n k h. ap (λ f. f n k) locations ∙ y.below n k h;
      here = λ n h. ap (λ f. f n s.scope) locations ∙ y.here n h;
      above =
          λ closed n k h. ap (λ f. f n k) locations ∙ y.above closed n k (omega (arith, h, scope));
      tops = λ h. ap top scopes ∙ y.tops h;
      rests = λ h. ap rest_of scopes ∙ y.rests h;
    }

search_from-same :
    (wraps : Bool) (name : List ℕ) (k : ℕ) (f g : List ℕ → ℕ → Option ℕ)
    → ((j : ℕ) → j ≤ k → f name j ≡ g name j)
    → search_from wraps name k f ≡ search_from wraps name k g
unfolding search_from
search_from-same wraps name zero f g h = rw (h 0 (omega arith)) refl
search_from-same wraps name (suc k) f g h =
    rw
      (h (suc k) (omega arith), search_from-same wraps name k f g (λ j le. h j (omega (arith, le))))
      refl

-- The end of a block restores what the start of the block saw: for each name the search finds the
-- slot and the scope that it found before the block, or finds nothing as before, whatever the block
-- declares, with blocks inside of it to any depth, where the scopes number fewer than 255 when a
-- block is entered; and no name of a closed scope remains.
pub pop_scope-search :
    (s u : Scopes)
    → s.scope < 255
    → Run (push_scope s) u
    → IsClosed s
    → ((name : List ℕ) → search name (pop_scope u) ≡ search name s) × IsClosed (pop_scope u)
unfolding search
pop_scope-search s u room run closed =
    let x = after_block s s u room (between (done s)) (between run) in
    (
      λ name. rw x.same_scope (
          search_from-same (s.scope == 255) name s.scope (pop_scope u).var_locations s.var_locations
            (λ j le. popped_below s u room (between run) name j le)),
      x.above closed,
    )
