-- ===== src/Compiler/Deliver.antt =====
-- src/vm.cpp: runs of compiled operations that end with their value in a register, or with their
-- error.
use choice_lang.Prelude.{
  ℕ, ◌+◌, ◌≤◌, ◌<◌, ◌≡◌, refl, ap, ◌∙◌, Bool, true, false, if◌then◌else◌, arith, ==_refl,
}
use choice_lang.Object.{Object, ByteCode}
use choice_lang.Machine.{Floats, Result, result, thrown, endless, unreachable}
use choice_lang.Machine.Step.{
  Machine, machine, update, running, raised, looping, undefined, settle, step, Steps, stay, next,
}
use choice_lang.Compiler.Operation.{and_then}

-- From `ip` on the code brings the value to register `reg` and arrives at `stop`, and the registers
-- below are as they were; or a step raises the error, does not end, or is undefined.
abbrev pub Delivers : Floats → ByteCode → (ℕ → Object) → ℕ → ℕ → Result → ℕ → Type 0
Delivers fl code regs ip reg (result v) stop =
    (after : ℕ → Object) × Steps fl code (machine regs ip) (machine after stop)
    × (after reg ≡ v)
    × ((i : ℕ) → i < reg → after i ≡ regs i)
Delivers fl code regs ip reg (thrown e) stop =
    (m : Machine) × Steps fl code (machine regs ip) m × (step fl code m ≡ raised e)
Delivers fl code regs ip reg endless stop =
    (m : Machine) × Steps fl code (machine regs ip) m × (step fl code m ≡ looping)
Delivers fl code regs ip reg unreachable stop =
    (m : Machine) × Steps fl code (machine regs ip) m × (step fl code m ≡ undefined)

module _ (fl : Floats) (code : ByteCode) where
  follow : {m n k : Machine} → Steps fl code m n → Steps fl code n k → Steps fl code m k
  follow (stay m) t = t
  follow (next m n k e s) t = next _ _ _ e (follow s t)

  -- Steps in front of a run.
  pub behind :
      (regs after : ℕ → Object) (ip mid reg low : ℕ) (r : Result) (stop : ℕ)
      → Steps fl code (machine regs ip) (machine after mid)
      → ((i : ℕ) → i < low → after i ≡ regs i)
      → reg ≤ low
      → Delivers fl code after mid reg r stop
      → Delivers fl code regs ip reg r stop
  behind regs after ip mid reg low (result v) stop s same le (end, t, e, keep) =
      (end, follow s t, e, λ i h. keep i h ∙ same i (omega arith))
  behind regs after ip mid reg low (thrown x) stop s same le (m, t, e) = (m, follow s t, e)
  behind regs after ip mid reg low endless stop s same le (m, t, e) = (m, follow s t, e)
  behind regs after ip mid reg low unreachable stop s same le (m, t, e) = (m, follow s t, e)

  -- A run to `first`, and then what depends on its value.
  pub sequence :
      (regs : ℕ → Object) (ip mid reg first stop : ℕ) (r : Result) (f : Object → Result)
      → reg ≤ first
      → Delivers fl code regs ip first r mid
      → ((v : Object) (after : ℕ → Object)
          → after first ≡ v
          → ((i : ℕ) → i < first → after i ≡ regs i)
          → Delivers fl code after mid reg (f v) stop)
      → Delivers fl code regs ip reg (and_then r f) stop
  sequence regs ip mid reg first stop (result v) f le (after, s, e, keep) g =
      behind regs after ip mid reg first (f v) stop s keep le (g v after e keep)
  sequence regs ip mid reg first stop (thrown x) f le d g = d
  sequence regs ip mid reg first stop endless f le d g = d
  sequence regs ip mid reg first stop unreachable f le d g = d

-- Steps behind a run that keep the registers.
pub extend :
    (fl : Floats) (code : ByteCode) (regs : ℕ → Object) (ip mid reg stop : ℕ) (r : Result)
    → Delivers fl code regs ip reg r mid
    → ((after : ℕ → Object) → Steps fl code (machine after mid) (machine after stop))
    → Delivers fl code regs ip reg r stop
extend fl code regs ip mid reg stop (result v) (after, s, e, keep) g =
    (after, follow fl code s (g after), e, keep)
extend fl code regs ip mid reg stop (thrown x) d g = d
extend fl code regs ip mid reg stop endless d g = d
extend fl code regs ip mid reg stop unreachable d g = d

update_at : (regs : ℕ → Object) (reg : ℕ) (v : Object) → update regs reg v reg ≡ v
update_at regs reg v = rw (==_refl reg) refl

update_below :
    (regs : ℕ → Object) (reg : ℕ) (v : Object) (i : ℕ) → i < reg → update regs reg v i ≡ regs i
update_below regs reg v i h = ground arith

-- A step that settles a result.
pub settled :
    (fl : Floats) (code : ByteCode) (regs : ℕ → Object) (ip reg stop : ℕ) (r : Result)
    → step fl code (machine regs ip) ≡ settle regs reg stop r
    → Delivers fl code regs ip reg r stop
unfolding settle
settled fl code regs ip reg stop (result v) e =
    (update regs reg v, next _ _ _ e (stay _), update_at regs reg v, update_below regs reg v)
settled fl code regs ip reg stop (thrown x) e = (machine regs ip, stay _, e)
settled fl code regs ip reg stop endless e = (machine regs ip, stay _, e)
settled fl code regs ip reg stop unreachable e = (machine regs ip, stay _, e)

-- The value is there already.
pub arrived :
    (fl : Floats) (code : ByteCode) (regs : ℕ → Object) (ip reg stop : ℕ) (v : Object)
    → ip ≡ stop
    → regs reg ≡ v
    → Delivers fl code regs ip reg (result v) stop
arrived fl code regs ip reg stop v e at = (regs, rw e (stay (machine regs stop)), at, λ i h. refl)

-- A run that ends at the same place, written in another way.
pub ends_at :
    (fl : Floats) (code : ByteCode) (regs : ℕ → Object) (ip reg mid stop : ℕ) (r : Result)
    → mid ≡ stop
    → Delivers fl code regs ip reg r mid
    → Delivers fl code regs ip reg r stop
ends_at fl code regs ip reg mid stop r e d =
    extend fl code regs ip mid reg stop r d (λ after. rw e (stay (machine after stop)))

-- A jump over `n` bytes, taken or not.
pub branch :
    (fl : Floats) (code : ByteCode) (regs : ℕ → Object) (ip body n reg stop : ℕ) (b : Bool)
    (r s : Result)
    → step fl code (machine regs ip) ≡ running (machine regs (body + (if b then n else 0)))
    → Delivers fl code regs (body + n) reg r stop
    → Delivers fl code regs body reg s stop
    → Delivers fl code regs ip reg (if b then r else s) stop
branch fl code regs ip body n reg stop true r s go dr ds =
    behind fl code regs regs ip (body + n) reg reg r stop (next _ _ _ go (stay _)) (λ i h. refl)
      (omega arith) dr
branch fl code regs ip body n reg stop false r s go dr ds =
    behind fl code regs regs ip body reg reg s stop
      (next _ _ _ (go ∙ ap (λ i. running (machine regs i)) (omega arith)) (stay _)) (λ i h. refl)
      (omega arith) ds

-- A step that writes a register.
pub put :
    (fl : Floats) (code : ByteCode) (regs : ℕ → Object) (ip reg stop : ℕ) (v : Object)
    → step fl code (machine regs ip) ≡ running (machine (update regs reg v) stop)
    → Delivers fl code regs ip reg (result v) stop
put fl code regs ip reg stop v e =
    (update regs reg v, next _ _ _ e (stay _), update_at regs reg v, update_below regs reg v)
