-- ===== src/Instruction/Names.antt =====
-- The mnemonics: `c_instructions` of libsvmasm/Instruction.cpp, in the order of the source.
use Prim.Native.String.{String}
use text.Mathlib.Text.{◌==◌ as str_eq}
use polynomial.Prelude.{Option, none, some, List, [], ◌∷◌, if◌then◌else◌}
use polynomial.Instruction
use polynomial.Instruction.{Instruction}

-- The map from names to instructions, as the list of its entries.
abbrev pub c_instructions : List (String × Instruction)
c_instructions =
    ("STOP", Instruction.stop)
    ∷ ("ADD", Instruction.add)
    ∷ ("SUB", Instruction.sub)
    ∷ ("MUL", Instruction.mul)
    ∷ ("DIV", Instruction.div)
    ∷ ("SDIV", Instruction.sdiv)
    ∷ ("MOD", Instruction.mod_op)
    ∷ ("SMOD", Instruction.smod)
    ∷ ("EXP", Instruction.exp)
    ∷ ("NOT", Instruction.not)
    ∷ ("LT", Instruction.lt)
    ∷ ("GT", Instruction.gt)
    ∷ ("SLT", Instruction.slt)
    ∷ ("SGT", Instruction.sgt)
    ∷ ("EQ", Instruction.eq)
    ∷ ("ISZERO", Instruction.iszero)
    ∷ ("AND", Instruction.and)
    ∷ ("OR", Instruction.or)
    ∷ ("XOR", Instruction.xor)
    ∷ ("BYTE", Instruction.byte)
    ∷ ("SHL", Instruction.shl)
    ∷ ("SHR", Instruction.shr)
    ∷ ("SAR", Instruction.sar)
    ∷ ("ADDMOD", Instruction.addmod)
    ∷ ("MULMOD", Instruction.mulmod)
    ∷ ("SIGNEXTEND", Instruction.signextend)
    ∷ ("KECCAK256", Instruction.keccak256)
    ∷ ("ADDRESS", Instruction.address)
    ∷ ("BALANCE", Instruction.balance)
    ∷ ("ORIGIN", Instruction.origin)
    ∷ ("CALLER", Instruction.caller)
    ∷ ("CALLVALUE", Instruction.callvalue)
    ∷ ("CALLDATALOAD", Instruction.calldataload)
    ∷ ("CALLDATASIZE", Instruction.calldatasize)
    ∷ ("CALLDATACOPY", Instruction.calldatacopy)
    ∷ ("CODESIZE", Instruction.codesize)
    ∷ ("CODECOPY", Instruction.codecopy)
    ∷ ("GASPRICE", Instruction.gasprice)
    ∷ ("EXTCODESIZE", Instruction.extcodesize)
    ∷ ("EXTCODECOPY", Instruction.extcodecopy)
    ∷ ("RETURNDATASIZE", Instruction.returndatasize)
    ∷ ("RETURNDATACOPY", Instruction.returndatacopy)
    ∷ ("EXTCODEHASH", Instruction.extcodehash)
    ∷ ("BLOCKHASH", Instruction.blockhash)
    ∷ ("COINBASE", Instruction.coinbase)
    ∷ ("TIMESTAMP", Instruction.timestamp)
    ∷ ("NUMBER", Instruction.number)
    ∷ ("DIFFICULTY", Instruction.difficulty)
    ∷ ("GASLIMIT", Instruction.gaslimit)
    ∷ ("POP", Instruction.pop)
    ∷ ("MLOAD", Instruction.mload)
    ∷ ("MSTORE", Instruction.mstore)
    ∷ ("MSTORE8", Instruction.mstore8)
    ∷ ("SLOAD", Instruction.sload)
    ∷ ("SSTORE", Instruction.sstore)
    ∷ ("JUMP", Instruction.jump)
    ∷ ("JUMPI", Instruction.jumpi)
    ∷ ("PC", Instruction.pc)
    ∷ ("MSIZE", Instruction.msize)
    ∷ ("GAS", Instruction.gas)
    ∷ ("JUMPDEST", Instruction.jumpdest)
    ∷ ("PUSH1", Instruction.push1)
    ∷ ("PUSH2", Instruction.push2)
    ∷ ("PUSH3", Instruction.push3)
    ∷ ("PUSH4", Instruction.push4)
    ∷ ("PUSH5", Instruction.push5)
    ∷ ("PUSH6", Instruction.push6)
    ∷ ("PUSH7", Instruction.push7)
    ∷ ("PUSH8", Instruction.push8)
    ∷ ("PUSH9", Instruction.push9)
    ∷ ("PUSH10", Instruction.push10)
    ∷ ("PUSH11", Instruction.push11)
    ∷ ("PUSH12", Instruction.push12)
    ∷ ("PUSH13", Instruction.push13)
    ∷ ("PUSH14", Instruction.push14)
    ∷ ("PUSH15", Instruction.push15)
    ∷ ("PUSH16", Instruction.push16)
    ∷ ("PUSH17", Instruction.push17)
    ∷ ("PUSH18", Instruction.push18)
    ∷ ("PUSH19", Instruction.push19)
    ∷ ("PUSH20", Instruction.push20)
    ∷ ("PUSH21", Instruction.push21)
    ∷ ("PUSH22", Instruction.push22)
    ∷ ("PUSH23", Instruction.push23)
    ∷ ("PUSH24", Instruction.push24)
    ∷ ("PUSH25", Instruction.push25)
    ∷ ("PUSH26", Instruction.push26)
    ∷ ("PUSH27", Instruction.push27)
    ∷ ("PUSH28", Instruction.push28)
    ∷ ("PUSH29", Instruction.push29)
    ∷ ("PUSH30", Instruction.push30)
    ∷ ("PUSH31", Instruction.push31)
    ∷ ("PUSH32", Instruction.push32)
    ∷ ("DUP1", Instruction.dup1)
    ∷ ("DUP2", Instruction.dup2)
    ∷ ("DUP3", Instruction.dup3)
    ∷ ("DUP4", Instruction.dup4)
    ∷ ("DUP5", Instruction.dup5)
    ∷ ("DUP6", Instruction.dup6)
    ∷ ("DUP7", Instruction.dup7)
    ∷ ("DUP8", Instruction.dup8)
    ∷ ("DUP9", Instruction.dup9)
    ∷ ("DUP10", Instruction.dup10)
    ∷ ("DUP11", Instruction.dup11)
    ∷ ("DUP12", Instruction.dup12)
    ∷ ("DUP13", Instruction.dup13)
    ∷ ("DUP14", Instruction.dup14)
    ∷ ("DUP15", Instruction.dup15)
    ∷ ("DUP16", Instruction.dup16)
    ∷ ("SWAP1", Instruction.swap1)
    ∷ ("SWAP2", Instruction.swap2)
    ∷ ("SWAP3", Instruction.swap3)
    ∷ ("SWAP4", Instruction.swap4)
    ∷ ("SWAP5", Instruction.swap5)
    ∷ ("SWAP6", Instruction.swap6)
    ∷ ("SWAP7", Instruction.swap7)
    ∷ ("SWAP8", Instruction.swap8)
    ∷ ("SWAP9", Instruction.swap9)
    ∷ ("SWAP10", Instruction.swap10)
    ∷ ("SWAP11", Instruction.swap11)
    ∷ ("SWAP12", Instruction.swap12)
    ∷ ("SWAP13", Instruction.swap13)
    ∷ ("SWAP14", Instruction.swap14)
    ∷ ("SWAP15", Instruction.swap15)
    ∷ ("SWAP16", Instruction.swap16)
    ∷ ("LOG0", Instruction.log0)
    ∷ ("LOG1", Instruction.log1)
    ∷ ("LOG2", Instruction.log2)
    ∷ ("LOG3", Instruction.log3)
    ∷ ("LOG4", Instruction.log4)
    ∷ ("CREATE", Instruction.create)
    ∷ ("CALL", Instruction.call)
    ∷ ("CALLCODE", Instruction.callcode)
    ∷ ("STATICCALL", Instruction.staticcall)
    ∷ ("RETURN", Instruction.return)
    ∷ ("DELEGATECALL", Instruction.delegatecall)
    ∷ ("CREATE2", Instruction.create2)
    ∷ ("REVERT", Instruction.revert)
    ∷ ("INVALID", Instruction.invalid)
    ∷ ("SELFDESTRUCT", Instruction.selfdestruct)
    ∷ []

-- `std::map::at` and `count` on such a table: the entry of a key, if there is one.
unfoldable pub instruction_of : List (String × Instruction) → String → Option Instruction
instruction_of [] name = none
instruction_of ((k, i) ∷ rest) name = if str_eq k name then some i else instruction_of rest name
