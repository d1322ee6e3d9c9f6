-- ===== src/Scopes.antt =====
-- src/compiler.cpp, include/compiler.h: the tables of variables of a compiler, its scopes and its
-- captures. A hash table is a function from its keys. Registers, slots and scopes are u8.
pub mod Blocks
pub mod Captures
pub mod Declared
use choice_lang.Prelude.{
  ℕ, zero, suc, ◌+◌, ◌-◌, ◌/◌, ◌%◌, Bool, true, false, not, ◌&&◌, ◌||◌, Option, none, some, List,
  [], ◌∷◌, ◌++◌, length, drop, ltb, ◌==◌, if◌then◌else◌, same,
}
use choice_lang.Object.{ByteCode}
use choice_lang.Opcodes.{op_enter_scope, op_exit_scope}
use choice_lang.Code.{add_op}

pub data DeclType : Type 0 where
  var func type_decl : DeclType

pub data VarType : Type 0 where
  global cell local dummy : VarType

pub record DeclInfo : Type 0 where
  pub type_ : DeclType
  pub attr : ℕ

pub record VarInfo : Type 0 where
  pub slot : ℕ
  pub decl_info : DeclInfo
  pub type_ : VarType
  pub access : Bool

-- What `resolveVariable` finds; `no_result` is a loop that does not end, or a read through a null
-- pointer.
pub data Resolution : Type 0 where
  found : VarInfo → Resolution
  absent : Resolution
  no_result : Resolution

-- The top of the stack `var_scopes` is its first list, with the last name first.
pub record Scopes : Type 0 where
  pub code : ByteCode
  pub next_reg : ℕ
  pub scope : ℕ
  pub scope_start : ℕ
  pub depth : ℕ
  pub in_repl : Bool
  pub in_module : Bool
  pub current_attr : ℕ
  pub hit_error : Bool
  pub var_locations : List ℕ → ℕ → Option ℕ
  pub var_access : ℕ → Option Bool
  pub decl_data : ℕ → Option DeclInfo
  pub var_scopes : List (List (List ℕ))
  pub declared_vars : List (List ℕ × ℕ)
  pub captures : List (ℕ × VarType)
  pub capture_names : List ℕ → Option ℕ

-- `VarEntry::operator==`.
abbrev pub same_entry : List ℕ → ℕ → List ℕ → ℕ → Bool
same_entry name scope name' scope' = scope == scope' && same name name'

abbrev pub put_reg {ℓ} : {A : Type ℓ} → ℕ → A → (ℕ → Option A) → ℕ → Option A
put_reg key value table k = if k == key then some value else table k

abbrev pub cleared {ℓ} : {A : Type ℓ} → ℕ → (ℕ → Option A) → ℕ → Option A
cleared key table k = if k == key then none else table k

abbrev pub put_entry : List ℕ → ℕ → ℕ → (List ℕ → ℕ → Option ℕ) → List ℕ → ℕ → Option ℕ
put_entry name scope reg table n k = if same_entry n k name scope then some reg else table n k

abbrev pub erase : List ℕ → ℕ → (List ℕ → ℕ → Option ℕ) → List ℕ → ℕ → Option ℕ
erase name scope table n k = if same_entry n k name scope then none else table n k

abbrev pub top : List (List (List ℕ)) → List (List ℕ)
top [] = []
top (names ∷ rest) = names

abbrev pub rest_of {ℓ} : {A : Type ℓ} → List A → List A
rest_of [] = []
rest_of (x ∷ xs) = xs

-- On an empty stack, which is undefined in the source, the name is alone.
abbrev pub push_name : List ℕ → List (List (List ℕ)) → List (List (List ℕ))
push_name name stack = (name ∷ top stack) ∷ rest_of stack

abbrev pub at_repl_top : Scopes → Bool
at_repl_top s = s.in_repl && (s.depth == 0 && s.scope == 0)

unfoldable pub def_var : List ℕ → ℕ → Bool → DeclType → ℕ → Scopes → Scopes
def_var name reg access type_ attr s = record s {
  var_locations = put_entry name s.scope reg s.var_locations;
  var_access = put_reg reg access s.var_access;
  decl_data = put_reg reg (record { type_ = type_; attr = attr }) s.decl_data;
  var_scopes = if s.scope == 0 then s.var_scopes else push_name name s.var_scopes;
  declared_vars = if at_repl_top s then s.declared_vars ++ ((name, reg) ∷ []) else s.declared_vars;
}

-- `operator[]` makes a missing entry of zero.
abbrev pub slot_or_zero : Option ℕ → ℕ
slot_or_zero none = 0
slot_or_zero (some reg) = reg

abbrev pub pop_back {ℓ} : {A : Type ℓ} → List A → List A
pop_back [] = []
pop_back (x ∷ []) = []
pop_back (x ∷ y ∷ ys) = x ∷ pop_back (y ∷ ys)

unfoldable pub remove_var : List ℕ → Scopes → Scopes
remove_var name s =
    let reg = slot_or_zero (s.var_locations name s.scope) in
    record s {
      var_locations = erase name s.scope s.var_locations;
      var_access = cleared reg s.var_access;
      decl_data = cleared reg s.decl_data;
      var_scopes =
          if s.scope == 0 then s.var_scopes else rest_of (top s.var_scopes) ∷ rest_of s.var_scopes;
      declared_vars = if at_repl_top s then pop_back s.declared_vars else s.declared_vars;
    }

abbrev pub first_reg : List (List ℕ × ℕ) → ℕ → ℕ
first_reg [] reg = reg
first_reg (pair ∷ pairs) reg = pair.1

abbrev pub clear_locations : List (List ℕ × ℕ) → ℕ → (List ℕ → ℕ → Option ℕ) → List ℕ → ℕ → Option ℕ
clear_locations [] scope table = table
clear_locations (pair ∷ pairs) scope table = clear_locations pairs scope (erase pair.0 scope table)

abbrev pub clear_access : List (List ℕ × ℕ) → (ℕ → Option Bool) → ℕ → Option Bool
clear_access [] table = table
clear_access (pair ∷ pairs) table = clear_access pairs (cleared pair.1 table)

-- The declarations from an index on are cleared.
abbrev pub cleared_from : ℕ → Scopes → Scopes
cleared_from index s =
    let pairs = drop index s.declared_vars in
    record s {
      next_reg = first_reg pairs s.next_reg;
      var_locations = clear_locations pairs s.scope s.var_locations;
      var_access = clear_access pairs s.var_access;
      declared_vars = [];
    }

-- The arguments are `clearDeclaredVars` and `clearIndex`, which are reset behind it. It has no result
-- where the index is not of a declaration, which is undefined in the source, and where the loop does
-- not end, since its index is a u8 and the declarations number more than 255.
unfoldable pub clear_declarations : Bool → ℕ → Scopes → Option Scopes
clear_declarations false index s = some (record s { declared_vars = [] })
clear_declarations true index s =
    let i = index % 256 in
    if ltb i (length s.declared_vars) && ltb (length s.declared_vars) 256
    then some (cleared_from i s)
    else none

unfoldable pub get_scope_local : List ℕ → Scopes → Option ℕ
get_scope_local name s = s.var_locations name s.scope

-- The result of the loop over the scopes of one compiler.
pub data Search : Type 0 where
  at_slot : ℕ → ℕ → Search
  nowhere : Search
  endless : Search

abbrev pub here_or : ℕ → Option ℕ → Search → Search
here_or k none later = later
here_or k (some slot) later = at_slot slot k

-- From the scope `k` outwards. The counter of the loop is a u8 that never exceeds a scope of 255.
unfoldable pub search_from : Bool → List ℕ → ℕ → (List ℕ → ℕ → Option ℕ) → Search
search_from wraps name zero table = here_or 0 (table name 0) (if wraps then endless else nowhere)
search_from wraps name (suc k) table =
    let outer = search_from wraps name k table in here_or (suc k) (table name (suc k)) outer

unfoldable pub search : List ℕ → Scopes → Search
search name s = search_from (s.scope == 255) name s.scope s.var_locations

abbrev pub described : ℕ → VarType → Option DeclInfo → Option Bool → Resolution
described slot type_ (some info) (some access) =
    found (record { slot = slot; decl_info = info; type_ = type_; access = access })
described slot type_ _ _ = no_result

abbrev pub is_closed : ℕ → Bool
is_closed attr = attr / 16 % 2 == 1

abbrev pub is_func : DeclType → Bool
is_func func = true
is_func _ = false

abbrev pub is_local : VarType → Bool
is_local local = true
is_local _ = false

abbrev pub is_global : VarType → Bool
is_global global = true
is_global _ = false

abbrev pub put_name : List ℕ → ℕ → (List ℕ → Option ℕ) → List ℕ → Option ℕ
put_name name value table n = if same n name then some value else table n

abbrev pub add_capture : List ℕ → VarInfo → Option ℕ → Scopes → ℕ × Scopes
add_capture name info (some index) s = (index, s)
add_capture name info none s =
    let index = length s.captures % 256 in
    (
      index,
      record s {
        captures = s.captures ++ ((info.slot, info.type_) ∷ []);
        capture_names = put_name name index s.capture_names;
      },
    )

unfoldable pub capture_variable : List ℕ → VarInfo → Scopes → ℕ × Scopes
capture_variable name info s =
    if not s.in_module && is_global info.type_
    then (info.slot, s)
    else add_capture name info (s.capture_names name) s

abbrev pub captured : List ℕ → VarInfo → Scopes → Resolution × Scopes
captured name info s =
    let (slot, s') = capture_variable name info s in
    (
      found (record info {
        slot = slot;
        type_ = if s.in_module || is_local info.type_ then cell else info.type_;
      }),
      s',
    )

-- A closed function captures closed functions only.
abbrev pub is_forbidden : VarInfo → ℕ → Bool
is_forbidden info attr =
    is_closed attr && not (is_func info.decl_info.type_ && is_closed info.decl_info.attr)

abbrev pub capture_or_report : Bool → List ℕ → VarInfo → Scopes → Resolution × Scopes
capture_or_report true name info s =
    (found (record info { type_ = dummy }), record s { hit_error = true })
capture_or_report false name info s = captured name info s

abbrev pub capturing : List ℕ → VarInfo → Scopes → Resolution × Scopes
capturing name info s = capture_or_report (is_forbidden info s.current_attr) name info s

abbrev pub is_dummy : VarType → Bool
is_dummy dummy = true
is_dummy _ = false

-- What is found in the enclosing compilers.
abbrev pub enclosed : List ℕ → Scopes → Resolution → Resolution × Scopes
enclosed name s (found info) =
    if is_dummy info.type_ then (found info, s) else capturing name info s
enclosed name s other = (other, s)

abbrev pub var_type : ℕ → ℕ → VarType
var_type depth scope = if depth == 0 && scope == 0 then global else local

abbrev pub local_or_enclosed :
    List ℕ → Scopes → List Scopes → Search → Resolution × List Scopes → Resolution × List Scopes
local_or_enclosed name s outer (at_slot slot k) _ =
    (described slot (var_type s.depth k) (s.decl_data slot) (s.var_access slot), s ∷ outer)
local_or_enclosed name s outer endless _ = (no_result, s ∷ outer)
local_or_enclosed name s outer nowhere (info, outer') =
    let (info', s') = enclosed name s info in (info', s' ∷ outer')

-- The compilers from the current one outwards.
unfoldable pub resolve_variable : List ℕ → List Scopes → Resolution × List Scopes
resolve_variable name [] = (absent, [])
resolve_variable name (s ∷ outer) =
    let found_outside = resolve_variable name outer in
    local_or_enclosed name s outer (search name s) found_outside

unfoldable pub push_scope : Scopes → Scopes
push_scope s = record s {
  scope = (s.scope + 1) % 256;
  scope_start = s.next_reg;
  var_scopes = [] ∷ s.var_scopes;
  code = add_op op_enter_scope (s.next_reg ∷ []) s.code;
}

abbrev pub remove_all : List (List ℕ) → ℕ → (List ℕ → ℕ → Option ℕ) → List ℕ → ℕ → Option ℕ
remove_all [] scope table = table
remove_all (name ∷ names) scope table = remove_all names scope (erase name scope table)

unfoldable pub pop_scope : Scopes → Scopes
pop_scope s = record s {
  var_locations = remove_all (top s.var_scopes) s.scope s.var_locations;
  var_scopes = rest_of s.var_scopes;
  next_reg = s.scope_start;
  scope = (s.scope + 255) % 256;
  code = add_op op_exit_scope [] s.code;
}
