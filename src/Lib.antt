-- ===== src/Lib.antt =====
-- Jennifer is an interpreted language; this library models the core of its implementation in Go. A
-- source text becomes tokens (internal/lexer), the parser builds a syntax tree (internal/parser),
-- the resolver gives each variable the depth and slot of its binding and stores the results of
-- constant expressions in the tree, and the interpreter (internal/interpreter) walks the tree with
-- a chain of environments.
--
-- * Common holds the shared names and lemmas: lists and Boolean tests on native numbers, integers,
--   texts as lists of runes, results.
-- * Int64 is int64: an integer in range, with wrap-around written out. Float64 is float64: bit
--   patterns, with the machine's operations as a parameter (FloatOps); the one law asked of it
--   (IsIeee) is that r - r is a zero exactly for a finite r.
-- * Ast (internal/parser/ast.go) and Value (internal/interpreter/value.go) are the data.
-- * Arith is the overflow-checked and floored arithmetic of internal/interpreter/interpreter.go
--   (addOverflow, subOverflow, mulOverflow, flooredMod) and of intfast.go (intArith, intCompare);
--   Arith.Exact and Arith.Floored relate it to exact arithmetic.
-- * Env is internal/interpreter/environment.go: an environment is the list of its frames, inner
--   first, a mutation returns the new list; Env.Write has Define, DefineAt, Assign and AssignAt.
--   The types of values are a parameter there (Typing), which Value.Types fills (MatchesDeclared of
--   value.go, Equal of ast.go). Env.Updated and Env.Lookup are about reads after writes by name,
--   Env.Slots about those by slot, Env.Kept about what a write leaves alone.
-- * Eval and Eval.Expr are the operators and evalExpr of interpreter.go; an error is its kind and
--   position. Eval.Reference evaluates the same expressions with no shortcut.
-- * IntFast is internal/interpreter/intfast.go, with IntFast.Sound and IntFast.Assign about it;
--   Fold is internal/parser/fold.go with the resolver's use of it (internal/parser/resolver.go),
--   with Fold.Sound and Fold.Preserves about it.
-- * Exec is the statements of internal/interpreter/interpreter.go. Exec.Syntax has them
--   (internal/parser/ast.go). A step runs on the environments, the deferred calls of the innermost
--   one and the depth of calls, and gives a result or a fault (Exec.Machine): runtime errors,
--   thrown values and `exit`. Exec.Update is stampDeclaredType and the writes of applyLvalueWrite,
--   Exec.Errors the struct Error, Exec.Simple the statements that run no other (execDefine,
--   execAssign, execIndexAssign, execThrow, execDefer, ...), Exec.Control blocks, finishFrame,
--   branches and loops, Exec.Calls evalCall and execTry, Exec.Run execStmt and Run. Exec.Logic says
--   what a relation between runs has to satisfy for Exec.Related to carry it to every statement;
--   Exec.Kept is such a relation, which Exec.Safety applies. Exec.Flows is about `break` and `continue`, Exec.Halts about statements that end, Exec.Finish about deferred
--   calls, Exec.Stored, Exec.Paths, Exec.Appended and Exec.Typed about writes into lists and bytes,
--   Exec.Lazy about loops over ranges (Exec.Ranges). The methods of a program, and the texts of its
--   error messages, are a parameter (Program).
-- * Lexer is internal/lexer/lexer.go and token.go: a lexer is the unread runes with the line and
--   column of the first one. Trivia, Names, Numbers, Strings and Cooked have the readers, Position
--   the moves and errors. Moves, Readers, NumberReaders, StringReaders, Symbols, Texts, Scan and Stream
--   treat a run of the lexer as a move through the source; Columns is about its lines and columns,
--   Literals and Spelling about the texts of its tokens.
-- * Parser is the expressions of internal/parser/parser.go: Parser.Syntax the tree
--   (internal/parser/ast.go), Parser.State the parser's fields and moves (peek, advance, expect,
--   deepenExpr, ...), Parser.Operators the levels of binary operators (parseMul up to parseOr),
--   Parser.Lists what stands between brackets (parseParenArgs, parseListLit, parseMapLit,
--   parseStructLitTail), Parser.Names qualified names and calls (parseQualifiedTail, parseCallTail),
--   Parser.Slots interpolated strings (buildInterpString), which runs the lexer and a parser of its
--   own on each slot, Parser.Atoms the operands and their suffixes (parsePrimaryAtom, parsePrimary,
--   parseBracketSuffix), Parser.Numbers their numerals, and Parser.Expr the rest (parseExpr,
--   parseRange, parseOr, parseNot, parseUnaryMinus). Parser.Grammar is the grammar as a relation,
--   with Parser.Sound about what is accepted; Parser.Ends is about how reading ends, Parser.Chains
--   about chains of fields. The parser of
--   blocks, which `spawn` calls, and of the digits of floats are a parameter (Readers).
-- * Examples, Env.Examples, Exec.Examples, Lexer.Examples and Parser.Examples apply the results to one
--   input each; Exec.Tests runs small programs, Lexer.Tests small sources, Parser.Tests small
--   expressions.
--
-- Bounds and fuel: the loops of cooked strings and slots, and the loop over tokens, take one unit
-- of fuel for each round and start with one more than the runes left; every round reads a rune, so
-- that the fuel is enough. A statement has fuel for the nesting of statements and calls, and gives
-- its loops as many passes; running out is a fault of the model that no `catch` sees (Exec.Halts is
-- about it). An expression has fuel for its nesting, and for its lists and chains of operators; as
-- every round reads a token, what is left to read bounds it: the tokens, and twice the bytes that
-- slots may still be lexed from. The limits are those of the code: 2 ^ 22 tokens, nesting of 1000
-- (the standard build, internal/limits), names of 64 runes, 10000 nested calls and blocks, 2 ^ 26
-- bytes of source in slots.
--
-- Not modelled: the parser of statements, types and definitions, the evaluation of calls inside of
-- expressions and of calls of libraries, assignments to fields, maps and handles among the values,
-- the frame pool, the accounting of memory, the profiler and cancellation, the libraries under
-- internal/lib, and the tools (internal/lint, cmd/jennifer), which are input and output or come
-- later. The source is taken as runes: decoding UTF-8, which Go's conversion does, is outside. An
-- int from a float, and float arithmetic, are the machine's. Values are not shared: where the code
-- writes an element or appends in place and the assignment is refused after that, as it is for a
-- variable with no declared type (of `catch` or an untyped for-each), the model leaves the state as
-- it was.
pub mod Common
pub mod Int64
pub mod Float64
pub mod Ast
pub mod Arith
pub mod Value
pub mod Env
pub mod Eval
pub mod IntFast
pub mod Fold
pub mod Exec
pub mod Lexer
pub mod Parser
pub mod Examples
