-- ===== src/Lib.antt =====
-- A verification library for the compiler in vyper/ (VyperSVM: Vyper contracts to EVM bytecode, and
-- to LLVM IR for Solana). The compiler parses and types a contract, lays out its storage, generates
-- a legacy IR or Venom IR, optimises it, and assembles EVM bytecode. Modelled are parts that these
-- phases rest on:
--   Ast/Metadata: vyper/ast/metadata.py, the journal of the nodes' metadata. enter is run on a program
--     of the operations that the type checker does in it; only VyperException is an exception there.
--   Codegen/MemoryAllocator: vyper/codegen/memory_allocator.py, the allocator of a function's frame
--     in memory. MemoryAllocator.__init__ is start; allocate_memory, _expand_memory and
--     deallocate_memory give the state that is left beside the result, also where they raise.
--   Codegen/JumptableUtils: vyper/codegen/jumptable_utils.py, the dense and the sparse table for the
--     dispatch on method ids, from the ids on.
--   Evm/Opcodes: vyper/evm/opcodes.py, the OPCODES table and the ruleset of an EVM version, which is
--     an argument where the source reads the global settings.
--   Evm/Assembler: vyper/evm/assembler/instructions.py, symbols.py and core.py. resolve_symbols makes
--     the symbol map and the map of constants, assembly_to_evm the bytecode.
--   Evm/Machine, Evm/StackNames: what straight-line assembly does on the EVM's stack, by which the
--     code generators are judged. It is no code of the repository; the other instructions of the EVM
--     are an argument of it.
--   Evm/Optimizer: vyper/evm/assembler/optimizer.py, the passes on the assembly before that:
--     Jumps and Peephole. Control says what assembly with jumps does; it is no code of the repository.
--   AbiTypes: vyper/abi_types.py, the types of the ABI and their sizes.
--   Venom/MemoryLocation: vyper/venom/memory_location.py, the locations that alias analysis compares.
--   Venom/StackModel: vyper/venom/stack_model.py, the stack that code generation keeps track of.
--   Venom/LivenessAnalysis, Utils/OrderedSet: vyper/venom/analysis/liveness.py, the two steps of a
--     block, and the ordered sets of vyper/utils.py, as lists in the order of insertion.
--   Venom/DfgAnalysis: vyper/venom/analysis/dfg.py, are_equivalent with its walk over assignments.
--   Venom/VenomToAssembly: vyper/venom/venom_to_assembly.py, from the moves on the stack to
--     _generate_evm_for_instruction, which is generate_evm_for_instruction. An Emission is the
--     assembly so far with the stack model; Reorder has the loops over operands, Instruction and
--     Generate the cases of the opcodes, Steps their order, Blocks the loop over a basic block. The
--     liveness of variables, the control flow and the operand assigned to a variable, which the
--     analyses compute, are arguments.
--   Venom/ConstantEval: vyper/venom/passes/sccp/eval.py, which folds arithmetic on literals.
--   Ir/Node: vyper/codegen/ir_node.py, the nodes of the legacy IR with the properties that decide
--     whether a node must be evaluated once.
--   Ir/Arith, Ir/Optimizer: vyper/ir/optimizer.py, the rewriting of a node with two arguments.
--     _optimize_binop is optimize_binop; Rules has its rules in their order, Comparison its helper
--     for comparisons. A rewriting is a Term over the two arguments, which build makes a node, since
--     the rollback of finalize asks whether the arguments themselves, as objects, are in it; one
--     object passed as both arguments is not represented. A node is evaluated under an environment
--     for the operations that the optimizer does not know.
--   Semantics/DataPositions: vyper/semantics/analysis/data_positions.py, the allocators of storage
--     slots.
--   Semantics/Namespace, Ast/Identifiers: vyper/semantics/namespace.py, the declared names with their
--     scopes, and vyper/ast/identifiers.py, the check of a name.
--   Utils/Ints, Utils/Bytes: vyper/utils.py, integers and byte strings.
--   Common: numbers, integers, lists, dictionaries, texts and exceptions, shared by all.
-- A method that raises gives a value of Error in a Result; a message is not kept. Python's integers
-- are ℤ where they can be negative, literals and offsets included, and ℕ where the code keeps them
-- from being so; a position or a literal is not bounded, and where a word wraps around, the remainder by 2 ^ 256 is written out.
-- An object that the source changes in place is an argument and a result.
-- Loops are recursion on their list. The loops with fuel: num_loop divides by 256, so that as many
-- rounds as the number are enough; bit_length_loop halves it, with the same bound; find_table, whose
-- fuel is an argument, counts down the numbers of buckets at most twice; peephole_from shortens what
-- is left of the assembly in every round, so that its length is enough; optimize_rounds has the 1024
-- rounds of the source and try_magic the 2 ** 16, after which the source raises as they do;
-- traverse_assign_chain, whose fuel is an argument, needs more than the length of the longest chain
-- of assignments; decimal_loop divides by ten.
-- Not modelled: the parser and the syntax tree, types and the rest of semantic analysis, code
-- generation and the built-in functions, the walk of the legacy optimizer over its tree and the
-- translation of the legacy IR to assembly, the Venom passes but for the folding, the worklist of
-- the liveness analysis, the recursion over basic blocks and functions around the translation of a
-- block, the output for LLVM, the driver and the command line. They are glue to Python's own parser,
-- to llvmlite or to files, or build on the parts above, which come first. Annotations, source maps
-- and texts of messages are left out.
pub mod AbiTypes
pub mod Ast
pub mod Codegen
pub mod Common
pub mod Evm
pub mod Ir
pub mod Semantics
pub mod Utils
pub mod Venom
