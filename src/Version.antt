-- ===== src/Version.antt =====
-- The versions of the virtual machine, liblangutil/SVMVersion.h and liblangutil/SVMVersion.cpp. The
-- value outside the enumeration, whose name is "INVALID", is left out.
pub mod Laws
mod Tests
use Prim.Native.String.{String}
use text.Mathlib.Text.{◌==◌ as str_eq}
use polynomial.Prelude.{
  ℕ, Bool, true, false, Option, none, some, List, [], ◌∷◌, ltb, leb, if◌then◌else◌, ◌==◌,
}
use polynomial.Instruction
use polynomial.Instruction.{Instruction}
use polynomial.Assembly.Semantic.{is_case}

pub data SvmVersion : Type 0 where
  homestead tangerine_whistle spurious_dragon byzantium constantinople petersburg : SvmVersion

-- The numbers of the enumeration, by which versions are compared.
abbrev pub rank : SvmVersion → ℕ
rank homestead = 0
rank tangerine_whistle = 1
rank spurious_dragon = 2
rank byzantium = 3
rank constantinople = 4
rank petersburg = 5

unfoldable pub name : SvmVersion → String
name homestead = "homestead"
name tangerine_whistle = "tangerineWhistle"
name spurious_dragon = "spuriousDragon"
name byzantium = "byzantium"
name constantinople = "constantinople"
name petersburg = "petersburg"

abbrev pub versions : List SvmVersion
versions =
    homestead ∷ tangerine_whistle ∷ spurious_dragon ∷ byzantium ∷ constantinople ∷ petersburg ∷ []

unfoldable pub first_named : List SvmVersion → String → Option SvmVersion
unfolding name
first_named [] version = none
first_named (v ∷ vs) version = if str_eq version (name v) then some v else first_named vs version

unfoldable pub from_string : String → Option SvmVersion
unfolding first_named
from_string version = first_named versions version

unfoldable pub supports_returndata : SvmVersion → Bool
supports_returndata v = leb (rank byzantium) (rank v)

unfoldable pub has_static_call : SvmVersion → Bool
has_static_call v = leb (rank byzantium) (rank v)

unfoldable pub has_bitwise_shifting : SvmVersion → Bool
has_bitwise_shifting v = leb (rank constantinople) (rank v)

unfoldable pub has_create2 : SvmVersion → Bool
has_create2 v = leb (rank constantinople) (rank v)

unfoldable pub has_ext_code_hash : SvmVersion → Bool
has_ext_code_hash v = leb (rank constantinople) (rank v)

unfoldable pub can_overcharge_gas_for_call : SvmVersion → Bool
can_overcharge_gas_for_call v = leb (rank tangerine_whistle) (rank v)

unfoldable pub has_opcode : SvmVersion → Instruction → Bool
unfolding supports_returndata has_static_call has_bitwise_shifting has_create2 has_ext_code_hash
    is_case
has_opcode v opcode =
    if is_case (Instruction.returndatacopy ∷ Instruction.returndatasize ∷ []) opcode
    then supports_returndata v
    else if opcode == Instruction.staticcall
    then has_static_call v
    else if is_case (Instruction.shl ∷ Instruction.shr ∷ Instruction.sar ∷ []) opcode
    then has_bitwise_shifting v
    else if opcode == Instruction.create2
    then has_create2 v
    else if opcode == Instruction.extcodehash
    then has_ext_code_hash v
    else true
