-- ===== src/Lib.antt =====
-- Choice-Lang: a model of the interpreter, with proofs of the properties that make its parts correct.
--
-- The pipeline of the program is: the lexer (src/lexer.cpp) turns source text into tokens, the parser
-- builds a syntax tree, the optimizer (src/optimizer.cpp) folds it, the compiler (src/compiler.cpp)
-- emits byte code through the methods of `ByteCode` (src/bytecode.cpp), and the virtual machine
-- (src/vm.cpp) runs it.
--
-- Files and what they model:
--   Prelude     shared names, Boolean tests, lists measured by native numbers, bit operations
--   Chars       include/utils.h: the digit tests and conversions
--   Diagnostics include/diagnostic.h: the codes and messages that are recorded
--   Escape      src/escape_seq.cpp: the three parsers of escape sequences and the UTF-8 encoder
--   StringToken src/compiler.cpp: `Compiler::parseStringToken`
--   Opcodes     include/opcodes.h: the opcodes that the modelled code names
--   Object      include/object.h, include/bytecode.h: constants, byte code, debug ranges
--   Code        src/bytecode.cpp: emission of instructions, operands, jumps and constants
--   Serial      src/object.cpp, src/bytecode.cpp, src/options.cpp: the bytes of constants, functions
--               and files, and the sizes of pools; Serial/Reader src/bytes.cpp: the reader of files
--               and `readByteCode`; the files below Serial/ show what the reader finds in a written
--               file
--               Serial/Sorting src/debug.cpp and `sortMetadata` of src/bytecode.cpp
--   Vm          src/vm.cpp: reading of operands, constants and jumps
--   Token       include/token.h and the keyword table of src/lexer.cpp
--   Branch      a conditional that stays folded in proofs
--   Lexer       src/lexer.cpp: the state and `makeToken`; Lexer/Scan the scanners of numbers, comments
--               and strings; Lexer/Single `singleToken` and `tokenize`
--   Arith       src/vm.cpp: integer powers, bitwise operators and shifts; src/optimizer.cpp: the
--               folding of the latter two
--   Machine     src/vm.cpp, src/object.cpp: the operators on objects, equality, order and truth;
--               Machine/Step one step of `executeOp`, and runs of many
--   Ast         include/astnodes.h: the syntax tree
--   Optimizer   src/optimizer.cpp: constant expressions and their evaluation; Optimizer/Rewrite the
--               optimizers of expressions and statements
--   Compiler    src/compiler.cpp: `compileExpr` for literals, operators, `&&`, `||` and conditionals, on
--               the code so far and the first free register; Compiler/Operation what such an
--               expression means, and the files beside it that the code computes that;
--               Compiler/Folded and Compiler/Truth that code against the values of the optimizer
--   Scopes      src/compiler.cpp: the tables of variables, `pushScope`, `popScope`, `resolveVariable` and
--               the captures of enclosing compilers; Scopes/Blocks, Scopes/Captures and
--               Scopes/Declared what blocks, captures and declarations do to them
--   Tests       runs of the definitions on concrete inputs
--
-- Representation. A character is its byte. A u8, u16, u32 or u64 is a natural number whose wrap-around
-- is written out; an i64 and a double are their 64-bit patterns. An iterator pair is a position with
-- the characters that remain. A pointer into code is an index, and a read outside of the code, which
-- is undefined in the source, is `none`.
--
-- Fuel. The loop of `parseStringToken` runs on fuel one above the number of characters, and so do the
-- token loops of the lexer; the scans inside of a token run on the number of characters that are left.
-- The reader of a file of code runs on three above the number of its bytes, and that of debug
-- information on one above. An integer power takes 65 rounds. The machine runs without fuel: a run is
-- a relation between states.
--
-- Undefined behaviour. `CH_UNREACHABLE` is an outcome of the machine's operators. The walker of the
-- optimizer reaches it on `!=` and `not in`, where the model has no value. The reader of a file fails as
-- `undefined` where it forms an iterator behind the end of the file, where a block of metadata is
-- missing, and where `std::sort` gets a comparison that is no strict order of the ranges.
--
-- Not modelled: the parser, the type checker, the compiler's statements and other expressions, the machine's calls, variables, collections and iterators, the modules of the core
-- library and the loading of modules, which keep pointers between tables whose store is not modelled
-- yet; the source ranges that the compiler records; the identity of
-- objects on the heap and the arithmetic of doubles, which are parameters; the printing of
-- diagnostics, of tokens, of trees and of byte code, the command line, file I/O, allocation, and the
-- libraries fast_float, fmt and replxx.
pub mod Prelude
pub mod Diagnostics
pub mod Chars
pub mod Escape
pub mod StringToken
pub mod Opcodes
pub mod Object
pub mod Code
pub mod Serial
pub mod Vm
pub mod Arith
pub mod Machine
pub mod Branch
pub mod Token
pub mod Lexer
pub mod Ast
pub mod Optimizer
pub mod Compiler
pub mod Scopes
mod Tests
