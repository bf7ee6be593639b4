-- ===== src/Gas.antt =====
-- The costs of instructions, libsvmasm/GasMeter.h, and the costs by tier, `GasMeter::runGas` and
-- `GasMeter::dataGas` of libsvmasm/GasMeter.cpp.
use polynomial.Prelude.{
  ℕ, ◌+◌, ◌*◌, ◌-◌, ◌^◌, ltb, Bool, Option, none, some, List, [], ◌∷◌, leb, ◌==◌, if◌then◌else◌,
  length,
}
use polynomial.Instruction
use polynomial.Instruction.{Instruction}
use polynomial.Instruction.Info.{Tier, instruction_info}
use polynomial.Version.{SvmVersion, tangerine_whistle, spurious_dragon, rank}

abbrev pub stack_limit : ℕ
stack_limit = 1024

abbrev pub tier0_gas : ℕ
tier0_gas = 0

abbrev pub tier1_gas : ℕ
tier1_gas = 2

abbrev pub tier2_gas : ℕ
tier2_gas = 3

abbrev pub tier3_gas : ℕ
tier3_gas = 5

abbrev pub tier4_gas : ℕ
tier4_gas = 8

abbrev pub tier5_gas : ℕ
tier5_gas = 10

abbrev pub tier6_gas : ℕ
tier6_gas = 20

abbrev pub tier7_gas : ℕ
tier7_gas = 0

unfoldable pub ext_code_gas : SvmVersion → ℕ
ext_code_gas version = if leb (rank tangerine_whistle) (rank version) then 700 else 20

unfoldable pub balance_gas : SvmVersion → ℕ
balance_gas version = if leb (rank tangerine_whistle) (rank version) then 400 else 20

abbrev pub exp_gas : ℕ
exp_gas = 10

unfoldable pub exp_byte_gas : SvmVersion → ℕ
exp_byte_gas version = if leb (rank spurious_dragon) (rank version) then 50 else 10

abbrev pub keccak256_gas : ℕ
keccak256_gas = 30

abbrev pub keccak256_word_gas : ℕ
keccak256_word_gas = 6

unfoldable pub sload_gas : SvmVersion → ℕ
sload_gas version = if leb (rank tangerine_whistle) (rank version) then 200 else 50

abbrev pub sstore_set_gas : ℕ
sstore_set_gas = 20000

abbrev pub sstore_reset_gas : ℕ
sstore_reset_gas = 5000

abbrev pub sstore_refund_gas : ℕ
sstore_refund_gas = 15000

abbrev pub jumpdest_gas : ℕ
jumpdest_gas = 1

abbrev pub log_gas : ℕ
log_gas = 375

abbrev pub log_data_gas : ℕ
log_data_gas = 8

abbrev pub log_topic_gas : ℕ
log_topic_gas = 375

abbrev pub create_gas : ℕ
create_gas = 32000

unfoldable pub call_gas : SvmVersion → ℕ
call_gas version = if leb (rank tangerine_whistle) (rank version) then 700 else 40

abbrev pub call_stipend : ℕ
call_stipend = 2300

abbrev pub call_value_transfer_gas : ℕ
call_value_transfer_gas = 9000

abbrev pub call_new_account_gas : ℕ
call_new_account_gas = 25000

unfoldable pub selfdestruct_gas : SvmVersion → ℕ
selfdestruct_gas version = if leb (rank tangerine_whistle) (rank version) then 5000 else 0

abbrev pub selfdestruct_refund_gas : ℕ
selfdestruct_refund_gas = 24000

abbrev pub memory_gas : ℕ
memory_gas = 3

abbrev pub quad_coeff_div : ℕ
quad_coeff_div = 512

abbrev pub create_data_gas : ℕ
create_data_gas = 200

abbrev pub tx_gas : ℕ
tx_gas = 21000

abbrev pub tx_create_gas : ℕ
tx_create_gas = 53000

abbrev pub tx_data_zero_gas : ℕ
tx_data_zero_gas = 4

abbrev pub tx_data_non_zero_gas : ℕ
tx_data_non_zero_gas = 68

abbrev pub copy_gas : ℕ
copy_gas = 3

-- The cost of a tier; `none` is the OptimizerException.
abbrev pub tier_gas : Tier → Option ℕ
tier_gas Tier.zero = some tier0_gas
tier_gas Tier.base = some tier1_gas
tier_gas Tier.very_low = some tier2_gas
tier_gas Tier.low = some tier3_gas
tier_gas Tier.mid = some tier4_gas
tier_gas Tier.high = some tier5_gas
tier_gas Tier.ext = some tier6_gas
tier_gas _ = none

unfoldable pub run_gas : Instruction → Option ℕ
unfolding instruction_info
run_gas i =
    if i == Instruction.jumpdest then some 1 else tier_gas (instruction_info i).gas_price_tier

-- The cost of bytes that are sent with a transaction.
unfoldable pub sent_gas : List ℕ → ℕ
sent_gas [] = 0
sent_gas (b ∷ bytes) = (if b == 0 then tx_data_zero_gas else tx_data_non_zero_gas) + sent_gas bytes

-- `none` is the OptimizerException.
unfoldable pub data_gas : List ℕ → Bool → Option ℕ
unfolding sent_gas
data_gas bytes in_creation =
    let gas = if in_creation then sent_gas bytes else create_data_gas * length bytes in
    if ltb gas (2 ^ 256 - 1) then some gas else none
