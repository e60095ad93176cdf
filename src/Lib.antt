-- ===== src/Lib.antt =====
-- cbuf: a schema language for packed messages. A schema (a .cbuf file) is cut into tokens by the lexer
-- and read into a syntax tree by the parser; the tree is printed as C++ (src/CPrinter.cpp) or interpreted
-- at run time (src/CBufParser.cpp). The logger (ulog/) takes messages from the threads of the program
-- through a ring buffer and writes them as packets, each behind a preamble, to a file.
--
-- The files and the code they are about:
--   Base       what the modules share: tests on numbers, lists over the native numbers, the association
--              list of Ring, and the integers of 64 bits (Base/Int)
--   Ring       ulog/include/ringbuffer.h: RingBuffer<Size>, one function for each method (alloc, populate,
--              lastUnread, consume, dequeue). Ring/Queue is the queue of blocks that it implements, Ring/Alloc,
--              Ring/Produce and Ring/Consume compare the methods with it, Ring/Steps the runs of
--              producers and a consumer, and Ring/Leak is about the bytes that a mark at the end loses.
--   Preamble   include/cbuf_preamble.h: the size word with the bits for the variant
--   Topics     ulog/src/ulogger.cpp: getOrMakeTopicVariant, and the variant that setVariant keeps of it
--   Token      src/TokenType.h, src/Token.h: token types and tokens
--   Ast        src/ast.h: values, expressions; Ast/Declarations: elements, structs, enums, constants
--   Evaluate   src/Parser.cpp: computeExpressionValue. Evaluate/Typing compares it with a typing of
--              expressions.
--   Lexer      src/Lexer.cpp, src/FileData.cpp: parseFile. Lexer/Tables has the tables of words and operators,
--              Lexer/Numbers parseNumber, Lexer/Texts names, strings, characters and comments, Lexer/Tokens
--              getNextTokenInternal; Lexer/Keeps, Lexer/LastTokens and Lexer/Ends follow the bytes that are left.
--   Layout     src/CBufParser.cpp: computeSizes (Layout/Sizes), compute_hash (Layout/Hashes), compute_simple and
--              compute_compact (Layout/Flags), which keep what they compute in the structs. Layout/Placing says
--              where elements stand, Layout/Offsets and Layout/Reference are about the offsets and sizes;
--              Layout/Printed says what text is hashed, Layout/Memo and Layout/Cycles are about the hashes.
--              Layout/Schemas numbers the structs of a parsed file.
--   Memory     src/Allocator.cpp: PoolAllocator (Memory/Pool, Memory/Overlap)
--   Symbols    src/SymbolTable.cpp: the namespaces, and the searches for structs and enums
--   Parser     src/Parser.cpp with the token cursor of src/Lexer.cpp. Parser/Types has the tests on token
--              types, Parser/Expressions the methods below parseExpression, Parser/Elements
--              parseElementDeclaration, Parser/Structs parseStruct, Parser/Enums
--              parseEnum, Parser/Constants parseConst, Parser/Namespaces parseNamespace, Parser/Files
--              parseImport, ParseInternal, ParseBuffer and Parse. Parser/Whole composes them with the
--              lexer, Parser/Cycles is about files that import each other, Parser/GlobalEnums about the
--              symbol table of a parsed file. Parser/Streams states what
--              Lexer::parseFile leaves and what a step does to it, Parser/Products the grouping of operators.
--
-- Correspondence. A method of a class is a function on a record of the fields that it uses. The mutex and
-- the condition variables of the ring buffer order its methods, so that a run is a sequence of whole
-- calls; a wait that has nothing to wake it is the outcome `waits`, and for alloc `asleep` with the state
-- that its attempts have left. A failed assert, a read past the end of the token array (which the assert of
-- Array in src/Array.h stops), arithmetic that C++ leaves undefined and a null pointer that is followed, to
-- a declaration or to an expression, are outcomes of the parser. Unsigned arithmetic wraps where the text says `% 2 ^ w`. Text is a list of bytes. A double is its bit pattern, and the arithmetic
-- of doubles is the parameter FloatOps, of which nothing is assumed; the files that there are and what
-- they hold are the parameter FileSystem, and the sizes of std::string and std::vector the parameter
-- Platform.
--
-- Fuel. The methods of the parser call each other and loop over tokens; each call takes a unit of fuel. A
-- token is paid for with 6 units, since at most 6 calls stand between one token and the next. The retry of
-- RingBuffer::alloc takes at most two attempts between two waits. The lexer takes a unit for each token and
-- each comment, and a file has fewer of them than bytes. Parser::Parse takes a unit for each import that
-- it is nested in, and no number of them is enough for files that import each other. The functions over
-- structs take a unit for each struct they are nested in.
--
-- Not modelled: the messages of errors, the locations of tokens, lines and columns; what a failed run leaves
-- in the tree; the texts that CreateTextType (src/TextType.cpp) shares; the run time readers and the C++
-- printer; files, threads and the bindings for Python.
pub mod Base
pub mod Ring
pub mod Preamble
pub mod Topics
pub mod Token
pub mod Ast
pub mod Evaluate
pub mod Lexer
pub mod Layout
pub mod Memory
pub mod Parser
pub mod Symbols
