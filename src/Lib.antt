-- ===== src/Lib.antt =====
-- A model of the low-level assembly of the compiler, libsvmasm, with the instruction set that the
-- rest of the compiler shares with it, the semantics of its words and the versions of the machine,
-- and of the elementary types and the layout of storage from the front end.
--
-- Parts of the program and the files that model them:
-- - Instruction.antt and Instruction/: libsvmasm/Instruction.h and libsvmasm/Instruction.cpp. An
--   instruction is the number of its byte, and every member of the enumeration is a constant of
--   that name in small letters. Numbers has the families PUSHn, DUPn, SWAPn and LOGn, Info the table
--   c_instructionInfo and instructionInfo, Names the table c_instructions, Stream eachInstruction, whose
--   calls are a list, and Decode the bytes of instructions that it reads back.
-- - Word.antt and Word/: the arithmetic of 256-bit words as the interpreter of
--   test/tools/yulInterpreter/SVMInstructionInterpreter.cpp computes it, with u2s, s2u and exp256 of
--   libdevcore/Common.h. A word is a natural number below 2 ^ 256, and the wrap-around is written
--   out. `Word.evaluate` is the switch of that interpreter for the instructions that need no state.
--   Bits, Signed, Places, Join and Powers have the lemmas on bits, signed words and powers.
-- - Assembly/Item.antt: libsvmasm/AssemblyItem.h and libsvmasm/AssemblyItem.cpp. Every type of item
--   is a constructor; source location and jump type stand in an annotation. Assembly/SubTags.antt and
--   Assembly/Sizes.antt have the theorems on tags of sub-assemblies and on bytesRequired.
-- - Assembly/Semantic.antt: all of libsvmasm/SemanticInformation.cpp, and Assembly/Effects.antt the
--   theorems on it.
-- - Assembly/Peephole.antt: all of libsvmasm/PeepholeOptimiser.cpp. A method is a function of the
--   items in its window, `none` when it does not apply; a round of the loop is a `Rewrite`, what is
--   emitted and what is left of the input. The theorems on it stand in Assembly/Peephole/: Machine
--   has the stack machine by which the optimiser is judged, Plain to Masks the methods that replace
--   items without jumps, Moves and Loop the rounds, Tags the jump destinations, Simulation the
--   argument step by step and Correct its result.
-- - Assembly/Jumpdest.antt and Assembly/Jumpdest/: all of libsvmasm/JumpdestRemover.cpp.
-- - Assembly/Constants.antt and Assembly/Constants/: all of libsvmasm/ConstantOptimiser.h and
--   libsvmasm/ConstantOptimiser.cpp, with toBigEndian and toCompactBigEndian of libdevcore/CommonData.h.
--   Constants.antt has the costs, Compute `ComputeMethod`, whose counter m_maxSteps is threaded through
--   the search, and Optimise the choice of a method and the replacement. Split, Tiny, Rounds and Find
--   follow the search, Sound compares the check of a routine with the machine of the peephole
--   optimiser, Copy does so for the routine that copies a constant from the code, Memory has what a step
--   keeps of memory, Replace the runs of the replaced items, and Total, Value and Correct the results.
-- - Rules.antt and Rules/: the simplification rules. Rules.antt has the patterns of
--   libsvmasm/SimplificationRules.h and the rule of libsvmasm/SimplificationRule.h, Part1 to Part7 the
--   eight lists of libsvmasm/RuleList.h, Complete the whole list. An action is a function of the data
--   of the constants that were matched. Meaning says what a pattern stands for, by `Word.evaluate`
--   and, for the instructions that need the machine, by the parameter `Machine`, and what it means
--   for a rule to be sound; Sound has the argument for the rules by kind. Match.antt has the matching
--   and findFirstMatch of libsvmasm/SimplificationRules.cpp over the expressions of
--   libsvmasm/ExpressionClasses.h; the map of match groups is threaded through the match, and every
--   rule starts with an empty one, as the source clears it. Match/ has the theorems, and in Known the
--   questions knownConstant and knownZero of libsvmasm/ExpressionClasses.cpp.
-- - Storage.antt and Storage/: the places of variables in storage, `StorageOffsets` of
--   libpolynomial/ast/Types.cpp, for types of which only the sizes are known. Layout follows the loop,
--   and Apart looks at two members.
-- - Types.antt and Types/: the elementary types of libpolynomial/ast/Types.cpp, that is addresses,
--   integers, fixed point numbers, booleans and fixed bytes, with isImplicitlyConvertibleTo,
--   isExplicitlyConvertibleTo and commonType; Token has the operators of liblangutil/Token.h and
--   Operators the types of their results. A smallest value is given by how far it is below zero.
--   Ranges says which integers a type can hold, and Stored takes the types to the layout of storage.
-- - Version.antt: liblangutil/SVMVersion.h and liblangutil/SVMVersion.cpp.
-- - Gas.antt: the costs of libsvmasm/GasMeter.h, with runGas and dataGas of libsvmasm/GasMeter.cpp.
-- - Prelude.antt: tests, options and lists that the other files share.
--
-- Interaction: the optimiser reads the items of Assembly/Item.antt, asks SemanticInformation which
-- instructions may be dropped or moved, and SemanticInformation in turn asks the instruction table.
-- The machine of Assembly/Peephole/Machine.antt runs the same items by the table's counts of
-- arguments and results, by `Word.evaluate`, and by the parameter `Chain`: what instructions do to
-- storage, memory and other contracts, the positions of tags in the code and the values that the
-- assembler or the linker fills in. Its laws are that the table's count of results is right, that an
-- instruction without side effects leaves the state of the world alone, that results are words, and
-- that the code is shorter than 2 ^ 32 bytes. A jump leads behind the first tag at its address, and
-- a fault is too small a stack or a jump to no tag. Gas is not counted. The rules of Rules.antt are
-- judged by `Word.evaluate` too, so that the constants that a rule computes and the words that the
-- machine computes are the same. The constant optimiser is judged by the same machine; its parameters
-- are the hash by which the assembly files data, and `FirstWord`, what MLOAD and MSTORE do to the
-- first word of memory once memory holds a word; `IsFiled` says that CODECOPY writes the data that was
-- filed. The routine that copies a constant grows an empty memory, which MSIZE would show, so the
-- run starts with a memory that is not empty, as code does that has set its free memory pointer.
--
-- Bounds and fuel: the loop of `PeepholeOptimiser::optimise` runs on as much fuel as there are
-- items, which is enough since each round takes at least one; the loop of `exp256` on 256 rounds,
-- one for each bit of the exponent; the loop of `bytesRequired` on 32, one for each byte; the
-- loop of `eachInstruction` on as many rounds as there are bytes, since each takes one at least.
-- The loop of `findRepresentation` has 247 rounds, for the bits from 255 to 9, and the search itself
-- calls itself 257 deep at most, since the value at least halves with every call but that for its
-- complement.
--
-- Not modelled: how the expression classes grow (find, newClass, forceEqual) and with that the
-- building of new expressions from a rule's result; the other optimisers of libsvmasm (common
-- subexpressions, equal blocks); the estimates of the gas meter; the assembler itself and
-- its printing; and libpolynomial but for the layout of storage and the elementary types, libyul,
-- liblll, libpolc and the programs, which lie above this part.
pub mod Prelude
pub mod Instruction
pub mod Word
pub mod Assembly
pub mod Version
pub mod Gas
pub mod Rules
pub mod Storage
pub mod Types
