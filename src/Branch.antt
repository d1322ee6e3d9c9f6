-- ===== src/Branch.antt =====
-- The conditional of src/lexer.cpp's model. It stays folded, so that a proof can follow the branches
-- of a definition without looking at the tests.
use choice_lang.Prelude.{Bool, true, false}

infix 1 if◌then◌else◌
unfoldable pub if◌then◌else◌ {ℓ} : {A : Type ℓ} → Bool → A → A → A
if true then x else y = x
if false then x else y = y
