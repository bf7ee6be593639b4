-- ===== src/Instruction/Info.antt =====
-- What the compiler knows of each instruction: `InstructionInfo`, `Tier`, `c_instructionInfo`,
-- `instructionInfo` and `isValidInstruction` of libsvmasm/Instruction.h and Instruction.cpp.
use Prim.Native.String.{String}
use polynomial.Prelude.{
  ℕ, Bool, true, false, Option, none, some, List, [], ◌∷◌, ◌==◌, if◌then◌else◌,
}
use polynomial.Instruction
use polynomial.Instruction.{Instruction}

pub data Tier : Type 0 where
  zero base very_low low mid high ext ext_code balance special invalid : Tier

-- The name of a byte outside the table is made from the byte: it is `invalid_name byte`.
pub data Name : Type 0 where
  mnemonic : String → Name
  invalid_name : ℕ → Name

pub record InstructionInfo : Type 0 where
  pub name : Name
  pub additional : ℕ
  pub args : ℕ
  pub ret : ℕ
  pub side_effects : Bool
  pub gas_price_tier : Tier

abbrev pub row : String → ℕ → ℕ → ℕ → Bool → Tier → InstructionInfo
row n additional args ret side_effects tier = record {
  name = mnemonic n;
  additional = additional;
  args = args;
  ret = ret;
  side_effects = side_effects;
  gas_price_tier = tier;
}

-- One row for each entry of the source's table.
abbrev pub c_instruction_info : List (Instruction × InstructionInfo)
c_instruction_info =
    (Instruction.stop, row "STOP" 0 0 0 true zero)
    ∷ (Instruction.add, row "ADD" 0 2 1 false very_low)
    ∷ (Instruction.sub, row "SUB" 0 2 1 false very_low)
    ∷ (Instruction.mul, row "MUL" 0 2 1 false low)
    ∷ (Instruction.div, row "DIV" 0 2 1 false low)
    ∷ (Instruction.sdiv, row "SDIV" 0 2 1 false low)
    ∷ (Instruction.mod_op, row "MOD" 0 2 1 false low)
    ∷ (Instruction.smod, row "SMOD" 0 2 1 false low)
    ∷ (Instruction.exp, row "EXP" 0 2 1 false special)
    ∷ (Instruction.not, row "NOT" 0 1 1 false very_low)
    ∷ (Instruction.lt, row "LT" 0 2 1 false very_low)
    ∷ (Instruction.gt, row "GT" 0 2 1 false very_low)
    ∷ (Instruction.slt, row "SLT" 0 2 1 false very_low)
    ∷ (Instruction.sgt, row "SGT" 0 2 1 false very_low)
    ∷ (Instruction.eq, row "EQ" 0 2 1 false very_low)
    ∷ (Instruction.iszero, row "ISZERO" 0 1 1 false very_low)
    ∷ (Instruction.and, row "AND" 0 2 1 false very_low)
    ∷ (Instruction.or, row "OR" 0 2 1 false very_low)
    ∷ (Instruction.xor, row "XOR" 0 2 1 false very_low)
    ∷ (Instruction.byte, row "BYTE" 0 2 1 false very_low)
    ∷ (Instruction.shl, row "SHL" 0 2 1 false very_low)
    ∷ (Instruction.shr, row "SHR" 0 2 1 false very_low)
    ∷ (Instruction.sar, row "SAR" 0 2 1 false very_low)
    ∷ (Instruction.addmod, row "ADDMOD" 0 3 1 false mid)
    ∷ (Instruction.mulmod, row "MULMOD" 0 3 1 false mid)
    ∷ (Instruction.signextend, row "SIGNEXTEND" 0 2 1 false low)
    ∷ (Instruction.keccak256, row "KECCAK256" 0 2 1 true special)
    ∷ (Instruction.address, row "ADDRESS" 0 0 1 false base)
    ∷ (Instruction.balance, row "BALANCE" 0 1 1 false balance)
    ∷ (Instruction.origin, row "ORIGIN" 0 0 1 false base)
    ∷ (Instruction.caller, row "CALLER" 0 0 1 false base)
    ∷ (Instruction.callvalue, row "CALLVALUE" 0 0 1 false base)
    ∷ (Instruction.calldataload, row "CALLDATALOAD" 0 1 1 false very_low)
    ∷ (Instruction.calldatasize, row "CALLDATASIZE" 0 0 1 false base)
    ∷ (Instruction.calldatacopy, row "CALLDATACOPY" 0 3 0 true very_low)
    ∷ (Instruction.codesize, row "CODESIZE" 0 0 1 false base)
    ∷ (Instruction.codecopy, row "CODECOPY" 0 3 0 true very_low)
    ∷ (Instruction.gasprice, row "GASPRICE" 0 0 1 false base)
    ∷ (Instruction.extcodesize, row "EXTCODESIZE" 0 1 1 false ext_code)
    ∷ (Instruction.extcodecopy, row "EXTCODECOPY" 0 4 0 true ext_code)
    ∷ (Instruction.returndatasize, row "RETURNDATASIZE" 0 0 1 false base)
    ∷ (Instruction.returndatacopy, row "RETURNDATACOPY" 0 3 0 true very_low)
    ∷ (Instruction.extcodehash, row "EXTCODEHASH" 0 1 1 false balance)
    ∷ (Instruction.blockhash, row "BLOCKHASH" 0 1 1 false ext)
    ∷ (Instruction.coinbase, row "COINBASE" 0 0 1 false base)
    ∷ (Instruction.timestamp, row "TIMESTAMP" 0 0 1 false base)
    ∷ (Instruction.number, row "NUMBER" 0 0 1 false base)
    ∷ (Instruction.difficulty, row "DIFFICULTY" 0 0 1 false base)
    ∷ (Instruction.gaslimit, row "GASLIMIT" 0 0 1 false base)
    ∷ (Instruction.pop, row "POP" 0 1 0 false base)
    ∷ (Instruction.mload, row "MLOAD" 0 1 1 true very_low)
    ∷ (Instruction.mstore, row "MSTORE" 0 2 0 true very_low)
    ∷ (Instruction.mstore8, row "MSTORE8" 0 2 0 true very_low)
    ∷ (Instruction.sload, row "SLOAD" 0 1 1 false special)
    ∷ (Instruction.sstore, row "SSTORE" 0 2 0 true special)
    ∷ (Instruction.jump, row "JUMP" 0 1 0 true mid)
    ∷ (Instruction.jumpi, row "JUMPI" 0 2 0 true high)
    ∷ (Instruction.pc, row "PC" 0 0 1 false base)
    ∷ (Instruction.msize, row "MSIZE" 0 0 1 false base)
    ∷ (Instruction.gas, row "GAS" 0 0 1 false base)
    ∷ (Instruction.jumpdest, row "JUMPDEST" 0 0 0 true special)
    ∷ (Instruction.push1, row "PUSH1" 1 0 1 false very_low)
    ∷ (Instruction.push2, row "PUSH2" 2 0 1 false very_low)
    ∷ (Instruction.push3, row "PUSH3" 3 0 1 false very_low)
    ∷ (Instruction.push4, row "PUSH4" 4 0 1 false very_low)
    ∷ (Instruction.push5, row "PUSH5" 5 0 1 false very_low)
    ∷ (Instruction.push6, row "PUSH6" 6 0 1 false very_low)
    ∷ (Instruction.push7, row "PUSH7" 7 0 1 false very_low)
    ∷ (Instruction.push8, row "PUSH8" 8 0 1 false very_low)
    ∷ (Instruction.push9, row "PUSH9" 9 0 1 false very_low)
    ∷ (Instruction.push10, row "PUSH10" 10 0 1 false very_low)
    ∷ (Instruction.push11, row "PUSH11" 11 0 1 false very_low)
    ∷ (Instruction.push12, row "PUSH12" 12 0 1 false very_low)
    ∷ (Instruction.push13, row "PUSH13" 13 0 1 false very_low)
    ∷ (Instruction.push14, row "PUSH14" 14 0 1 false very_low)
    ∷ (Instruction.push15, row "PUSH15" 15 0 1 false very_low)
    ∷ (Instruction.push16, row "PUSH16" 16 0 1 false very_low)
    ∷ (Instruction.push17, row "PUSH17" 17 0 1 false very_low)
    ∷ (Instruction.push18, row "PUSH18" 18 0 1 false very_low)
    ∷ (Instruction.push19, row "PUSH19" 19 0 1 false very_low)
    ∷ (Instruction.push20, row "PUSH20" 20 0 1 false very_low)
    ∷ (Instruction.push21, row "PUSH21" 21 0 1 false very_low)
    ∷ (Instruction.push22, row "PUSH22" 22 0 1 false very_low)
    ∷ (Instruction.push23, row "PUSH23" 23 0 1 false very_low)
    ∷ (Instruction.push24, row "PUSH24" 24 0 1 false very_low)
    ∷ (Instruction.push25, row "PUSH25" 25 0 1 false very_low)
    ∷ (Instruction.push26, row "PUSH26" 26 0 1 false very_low)
    ∷ (Instruction.push27, row "PUSH27" 27 0 1 false very_low)
    ∷ (Instruction.push28, row "PUSH28" 28 0 1 false very_low)
    ∷ (Instruction.push29, row "PUSH29" 29 0 1 false very_low)
    ∷ (Instruction.push30, row "PUSH30" 30 0 1 false very_low)
    ∷ (Instruction.push31, row "PUSH31" 31 0 1 false very_low)
    ∷ (Instruction.push32, row "PUSH32" 32 0 1 false very_low)
    ∷ (Instruction.dup1, row "DUP1" 0 1 2 false very_low)
    ∷ (Instruction.dup2, row "DUP2" 0 2 3 false very_low)
    ∷ (Instruction.dup3, row "DUP3" 0 3 4 false very_low)
    ∷ (Instruction.dup4, row "DUP4" 0 4 5 false very_low)
    ∷ (Instruction.dup5, row "DUP5" 0 5 6 false very_low)
    ∷ (Instruction.dup6, row "DUP6" 0 6 7 false very_low)
    ∷ (Instruction.dup7, row "DUP7" 0 7 8 false very_low)
    ∷ (Instruction.dup8, row "DUP8" 0 8 9 false very_low)
    ∷ (Instruction.dup9, row "DUP9" 0 9 10 false very_low)
    ∷ (Instruction.dup10, row "DUP10" 0 10 11 false very_low)
    ∷ (Instruction.dup11, row "DUP11" 0 11 12 false very_low)
    ∷ (Instruction.dup12, row "DUP12" 0 12 13 false very_low)
    ∷ (Instruction.dup13, row "DUP13" 0 13 14 false very_low)
    ∷ (Instruction.dup14, row "DUP14" 0 14 15 false very_low)
    ∷ (Instruction.dup15, row "DUP15" 0 15 16 false very_low)
    ∷ (Instruction.dup16, row "DUP16" 0 16 17 false very_low)
    ∷ (Instruction.swap1, row "SWAP1" 0 2 2 false very_low)
    ∷ (Instruction.swap2, row "SWAP2" 0 3 3 false very_low)
    ∷ (Instruction.swap3, row "SWAP3" 0 4 4 false very_low)
    ∷ (Instruction.swap4, row "SWAP4" 0 5 5 false very_low)
    ∷ (Instruction.swap5, row "SWAP5" 0 6 6 false very_low)
    ∷ (Instruction.swap6, row "SWAP6" 0 7 7 false very_low)
    ∷ (Instruction.swap7, row "SWAP7" 0 8 8 false very_low)
    ∷ (Instruction.swap8, row "SWAP8" 0 9 9 false very_low)
    ∷ (Instruction.swap9, row "SWAP9" 0 10 10 false very_low)
    ∷ (Instruction.swap10, row "SWAP10" 0 11 11 false very_low)
    ∷ (Instruction.swap11, row "SWAP11" 0 12 12 false very_low)
    ∷ (Instruction.swap12, row "SWAP12" 0 13 13 false very_low)
    ∷ (Instruction.swap13, row "SWAP13" 0 14 14 false very_low)
    ∷ (Instruction.swap14, row "SWAP14" 0 15 15 false very_low)
    ∷ (Instruction.swap15, row "SWAP15" 0 16 16 false very_low)
    ∷ (Instruction.swap16, row "SWAP16" 0 17 17 false very_low)
    ∷ (Instruction.log0, row "LOG0" 0 2 0 true special)
    ∷ (Instruction.log1, row "LOG1" 0 3 0 true special)
    ∷ (Instruction.log2, row "LOG2" 0 4 0 true special)
    ∷ (Instruction.log3, row "LOG3" 0 5 0 true special)
    ∷ (Instruction.log4, row "LOG4" 0 6 0 true special)
    ∷ (Instruction.create, row "CREATE" 0 3 1 true special)
    ∷ (Instruction.call, row "CALL" 0 7 1 true special)
    ∷ (Instruction.callcode, row "CALLCODE" 0 7 1 true special)
    ∷ (Instruction.return, row "RETURN" 0 2 0 true zero)
    ∷ (Instruction.delegatecall, row "DELEGATECALL" 0 6 1 true special)
    ∷ (Instruction.staticcall, row "STATICCALL" 0 6 1 true special)
    ∷ (Instruction.create2, row "CREATE2" 0 4 1 true special)
    ∷ (Instruction.revert, row "REVERT" 0 2 0 true zero)
    ∷ (Instruction.invalid, row "INVALID" 0 0 0 true zero)
    ∷ (Instruction.selfdestruct, row "SELFDESTRUCT" 0 1 0 true special)
    ∷ []

unfoldable pub info_at : List (Instruction × InstructionInfo) → Instruction → Option InstructionInfo
info_at [] inst = none
info_at ((i, info) ∷ rest) inst = if i == inst then some info else info_at rest inst

-- `c_instructionInfo.at(_inst)`, and the entry that the handler of `out_of_range` makes up.
unfoldable pub instruction_info : Instruction → InstructionInfo
unfolding info_at
instruction_info inst = elim (info_at c_instruction_info inst) [
  | some info ↦ info
  | none ↦ record {
    name = invalid_name inst;
    additional = 0;
    args = 0;
    ret = 0;
    side_effects = false;
    gas_price_tier = invalid;
  }
]

unfoldable pub is_valid_instruction : Instruction → Bool
unfolding info_at
is_valid_instruction inst = elim (info_at c_instruction_info inst) [ some _ ↦ true | none ↦ false ]
