-- ===== src/Tests/ScopesTests.antt =====
-- Runs of the tables of variables.
use choice_lang.Prelude.{
  some, length, true, ℕ, ◌≡◌, ◌<◌, refl, true, false, none, List, [], ◌∷◌, same, arith,
}
use choice_lang.Object.{bytecode, Pool}
use choice_lang.Scopes.{
  at_repl_top, clear_declarations, var, func, cell, found, Scopes, at_slot, endless, def_var,
  remove_var, search_from, search, capture_variable, resolve_variable, push_scope, pop_scope,
  var_type,
}
use choice_lang.Scopes.Blocks.{done, declare, block, IsClosed, pop_scope-search}
use choice_lang.Scopes.Captures.{resolve_variable-again}
use choice_lang.Scopes.Declared.{
  resolve_variable-def_var, remove_var-def_var, clear_declarations-def_var,
}

-- A compiler before its first statement, of a function of the given depth.
abbrev fresh_scopes : ℕ → Scopes
fresh_scopes depth = record {
  code = bytecode [] Pool.nil [];
  next_reg = 0;
  scope = 0;
  scope_start = 0;
  depth = depth;
  in_repl = false;
  in_module = false;
  current_attr = 0;
  hit_error = false;
  var_locations = λ name k. none;
  var_access = λ reg. none;
  decl_data = λ reg. none;
  var_scopes = [];
  declared_vars = [];
  captures = [];
  capture_names = λ name. none;
}

-- `x` in register 0.
abbrev with_x : Scopes
with_x = def_var (120 ∷ []) 0 true var 0 (record (fresh_scopes 0) { next_reg = 1 })

-- In a block, another `x`, and in a block inside of it `y`.
abbrev inner_x : Scopes
inner_x = def_var (120 ∷ []) 1 true var 0 (push_scope with_x)

abbrev inner_y : Scopes
inner_y = def_var (121 ∷ []) 1 true var 0 (push_scope inner_x)

shadowed : search (120 ∷ []) inner_y ≡ at_slot 1 1
unfolding def_var push_scope search search_from
shadowed = refl

restored : search (120 ∷ []) (pop_scope (pop_scope inner_y)) ≡ at_slot 0 0
unfolding def_var push_scope pop_scope search search_from
restored = refl

-- A loop on a name that is missing in scope 255.
deepest_scope : search (120 ∷ []) (record (fresh_scopes 0) { scope = 255 }) ≡ endless
unfolding search search_from
deepest_scope = refl

-- The end of a block that ends in a block frees no more than the inner one did.
outer_registers_kept :
    (pop_scope (pop_scope (push_scope (record (push_scope with_x) { next_reg = 9 })))).next_reg ≡ 9
unfolding def_var push_scope pop_scope
outer_registers_kept = refl

-- A local of the enclosing function is captured as the cell 0.
captured_local :
    (resolve_variable
      (120 ∷ [])
      (fresh_scopes 2 ∷ def_var (120 ∷ []) 7 true var 0 (fresh_scopes 1) ∷ [])).0
    ≡ found (record {
      slot = 0;
      decl_info = record { type_ = var; attr = 0 };
      type_ = cell;
      access = true;
    })
unfolding resolve_variable def_var search search_from capture_variable
captured_local = refl

with_x-IsClosed : IsClosed with_x
unfolding def_var
with_x-IsClosed name k h = ground arith

with_x_room : with_x.scope < 255
unfolding def_var
with_x_room = omega arith

inner_room : inner_x.scope < 255
unfolding def_var push_scope
inner_room = omega arith

pop_scope-search_example :
    ((name : List ℕ) → search name (pop_scope (pop_scope inner_y)) ≡ search name with_x)
    × IsClosed (pop_scope (pop_scope inner_y))
pop_scope-search_example =
    pop_scope-search with_x (pop_scope inner_y) with_x_room
      (block (declare (done (push_scope with_x)) (120 ∷ []) 1 true var 0) inner_room
        (declare (done (push_scope inner_x)) (121 ∷ []) 1 true var 0))
      with_x-IsClosed

resolve_variable-again_example :
    let compilers = fresh_scopes 2 ∷ def_var (120 ∷ []) 7 true var 0 (fresh_scopes 1) ∷ [] in
    resolve_variable (120 ∷ []) (resolve_variable (120 ∷ []) compilers).1
    ≡ resolve_variable (120 ∷ []) compilers
resolve_variable-again_example =
    resolve_variable-again (120 ∷ [])
      (fresh_scopes 2 ∷ def_var (120 ∷ []) 7 true var 0 (fresh_scopes 1) ∷ [])

resolve_variable-def_var_example :
    let t = def_var (120 ∷ []) 3 false func 16 (push_scope with_x) in
    (resolve_variable (120 ∷ []) (t ∷ []) ≡ (
      found (record {
        slot = 3;
        decl_info = record { type_ = func; attr = 16 };
        type_ = var_type (push_scope with_x).depth (push_scope with_x).scope;
        access = false;
      }),
      t ∷ [],
    ))
    × ((other : List ℕ)
        → same other (120 ∷ []) ≡ false
        → search other t ≡ search other (push_scope with_x))
resolve_variable-def_var_example =
    resolve_variable-def_var (120 ∷ []) 3 false func 16 (push_scope with_x) []

no_y : with_x.var_locations (121 ∷ []) with_x.scope ≡ none
unfolding def_var
no_y = refl

remove_var-def_var_example :
    search (120 ∷ []) (remove_var (121 ∷ []) (def_var (121 ∷ []) 1 true var 0 with_x))
    ≡ search (120 ∷ []) with_x
remove_var-def_var_example = remove_var-def_var (121 ∷ []) 1 true var 0 with_x no_y (120 ∷ [])

-- In the REPL, `y` is declared by a line that fails.
abbrev repl_scopes : Scopes
repl_scopes = record with_x { in_repl = true }

repl_no_y : repl_scopes.var_locations (121 ∷ []) repl_scopes.scope ≡ none
unfolding def_var
repl_no_y = refl

repl_top : at_repl_top repl_scopes ≡ true
unfolding def_var
repl_top = refl

repl_few : length repl_scopes.declared_vars < 255
unfolding def_var
repl_few = omega arith

clear_declarations-def_var_example :
    (t : Scopes) × (clear_declarations true
        (length repl_scopes.declared_vars)
        (def_var (121 ∷ []) 1 true var 0 repl_scopes)
      ≡ some t)
    × (t.next_reg ≡ 1)
    × ((other : List ℕ) → search other t ≡ search other repl_scopes)
clear_declarations-def_var_example =
    clear_declarations-def_var (121 ∷ []) 1 true var 0 repl_scopes repl_top repl_no_y repl_few
