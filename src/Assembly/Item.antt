-- ===== src/Assembly/Item.antt =====
-- `AssemblyItem` of libsvmasm/AssemblyItem.h and AssemblyItem.cpp. The C++ class has an instruction
-- that is valid for operations only and data that is valid for all else; here each type of item is
-- a constructor with what is valid for it. `none` is an assertion that throws.
use Prim.Native.String.{String}
use polynomial.Prelude.{
  ℕ, zero, suc, ◌+◌, ◌-◌, ◌*◌, ◌/◌, ◌%◌, ◌^◌, Bool, true, false, not, ◌&&◌, Option, none, some,
  List, [], ◌∷◌, ltb, ◌==◌, if◌then◌else◌, bit_or,
}
use polynomial.Instruction.{Instruction}
use polynomial.Instruction.Info.{instruction_info}
use polynomial.Instruction.Numbers.{is_dup_instruction, is_swap_instruction}

pub data AssemblyItemType : Type 0 where
  undefined_item operation push push_string push_tag push_sub push_sub_size : AssemblyItemType
  push_program_size tag push_data push_library_address : AssemblyItemType
  push_deploy_time_address : AssemblyItemType

pub data JumpType : Type 0 where
  ordinary into_function out_of_function : JumpType

-- `langutil::SourceLocation`; a `start` or `finish` of -1 is `none`, and so is a missing source.
pub record SourceLocation : Type 0 where
  pub start : Option ℕ
  pub finish : Option ℕ
  pub source : Option String

abbrev pub no_location : SourceLocation
no_location = record { start = none; finish = none; source = none }

-- What an item carries beside its type and its content.
pub record Annotation : Type 0 where
  pub location : SourceLocation
  pub jump_type : JumpType

abbrev pub located : SourceLocation → Annotation
located l = record { location = l; jump_type = ordinary }

pub data AssemblyItem : Type 0 where
  op : Instruction → Annotation → AssemblyItem
  undefined_item push push_string push_tag push_sub : ℕ → Annotation → AssemblyItem
  push_sub_size push_program_size tag push_data : ℕ → Annotation → AssemblyItem
  push_library_address push_deploy_time_address : ℕ → Annotation → AssemblyItem

abbrev pub AssemblyItems : Type 0
AssemblyItems = List AssemblyItem

unfoldable pub type_of : AssemblyItem → AssemblyItemType
type_of (op _ _) = AssemblyItemType.operation
type_of (undefined_item _ _) = AssemblyItemType.undefined_item
type_of (push _ _) = AssemblyItemType.push
type_of (push_string _ _) = AssemblyItemType.push_string
type_of (push_tag _ _) = AssemblyItemType.push_tag
type_of (push_sub _ _) = AssemblyItemType.push_sub
type_of (push_sub_size _ _) = AssemblyItemType.push_sub_size
type_of (push_program_size _ _) = AssemblyItemType.push_program_size
type_of (tag _ _) = AssemblyItemType.tag
type_of (push_data _ _) = AssemblyItemType.push_data
type_of (push_library_address _ _) = AssemblyItemType.push_library_address
type_of (push_deploy_time_address _ _) = AssemblyItemType.push_deploy_time_address

-- The numbers of the enumeration, by which types are compared.
abbrev pub type_number : AssemblyItemType → ℕ
type_number AssemblyItemType.undefined_item = 0
type_number AssemblyItemType.operation = 1
type_number AssemblyItemType.push = 2
type_number AssemblyItemType.push_string = 3
type_number AssemblyItemType.push_tag = 4
type_number AssemblyItemType.push_sub = 5
type_number AssemblyItemType.push_sub_size = 6
type_number AssemblyItemType.push_program_size = 7
type_number AssemblyItemType.tag = 8
type_number AssemblyItemType.push_data = 9
type_number AssemblyItemType.push_library_address = 10
type_number AssemblyItemType.push_deploy_time_address = 11

-- The instruction of an operation, and the data of anything else: what the item holds.
unfoldable pub content : AssemblyItem → ℕ
content (op i _) = i
content (undefined_item d _) = d
content (push d _) = d
content (push_string d _) = d
content (push_tag d _) = d
content (push_sub d _) = d
content (push_sub_size d _) = d
content (push_program_size d _) = d
content (tag d _) = d
content (push_data d _) = d
content (push_library_address d _) = d
content (push_deploy_time_address d _) = d

unfoldable pub location_of : AssemblyItem → SourceLocation
location_of (op _ a) = a.location
location_of (undefined_item _ a) = a.location
location_of (push _ a) = a.location
location_of (push_string _ a) = a.location
location_of (push_tag _ a) = a.location
location_of (push_sub _ a) = a.location
location_of (push_sub_size _ a) = a.location
location_of (push_program_size _ a) = a.location
location_of (tag _ a) = a.location
location_of (push_data _ a) = a.location
location_of (push_library_address _ a) = a.location
location_of (push_deploy_time_address _ a) = a.location

-- `operator==`: the same type, and the same instruction or data; locations are not compared.
unfoldable pub same_item : AssemblyItem → AssemblyItem → Bool
unfolding type_of content
same_item a b = type_number (type_of a) == type_number (type_of b) && content a == content b

-- `operator<`: by type, then by instruction or data.
unfoldable pub less_item : AssemblyItem → AssemblyItem → Bool
unfolding type_of content
less_item a b =
    if not (type_number (type_of a) == type_number (type_of b))
    then ltb (type_number (type_of a)) (type_number (type_of b))
    else ltb (content a) (content b)

-- `operator==` with an instruction.
unfoldable pub is_instruction : AssemblyItem → Instruction → Bool
is_instruction (op i _) instr = i == instr
is_instruction _ instr = false

-- `dev::bytesRequired`: `for (; _i != 0; ++i, _i >>= 8)`. A `u256` takes 32 rounds at most.
unfoldable pub byte_loop : ℕ → ℕ → ℕ → ℕ
byte_loop zero count n = count
byte_loop (suc f) count n =
    let rest = byte_loop f (count + 1) (n / 2 ^ 8) in if n == 0 then count else rest

unfoldable pub bytes_required : ℕ → ℕ
unfolding byte_loop
bytes_required n = byte_loop 32 0 n

unfoldable pub at_least_one : ℕ → ℕ
at_least_one n = if ltb n 1 then 1 else n

-- `AssemblyItem::bytesRequired`; it throws InvalidOpcode for an undefined item.
unfoldable pub item_bytes : AssemblyItem → ℕ → Option ℕ
unfolding at_least_one
item_bytes (op _ _) address_length = some 1
item_bytes (tag _ _) address_length = some 1
item_bytes (push_string _ _) address_length = some (1 + 32)
item_bytes (push d _) address_length = some (1 + at_least_one (bytes_required d))
item_bytes (push_sub_size _ _) address_length = some (1 + 4)
item_bytes (push_program_size _ _) address_length = some (1 + 4)
item_bytes (push_tag _ _) address_length = some (1 + address_length)
item_bytes (push_data _ _) address_length = some (1 + address_length)
item_bytes (push_sub _ _) address_length = some (1 + address_length)
item_bytes (push_library_address _ _) address_length = some (1 + 20)
item_bytes (push_deploy_time_address _ _) address_length = some (1 + 20)
item_bytes (undefined_item _ _) address_length = none

abbrev pub add_sizes : Option ℕ → Option ℕ → Option ℕ
add_sizes none rest = none
add_sizes (some n) none = none
add_sizes (some n) (some m) = some (n + m)

-- `bytesRequired` of a list of items.
unfoldable pub items_bytes : AssemblyItems → ℕ → Option ℕ
items_bytes [] address_length = some 0
items_bytes (item ∷ items) address_length =
    add_sizes (item_bytes item address_length) (items_bytes items address_length)

unfoldable pub arguments : AssemblyItem → ℕ
unfolding instruction_info
arguments (op i _) = (instruction_info i).args
arguments _ = 0

unfoldable pub return_values : AssemblyItem → ℕ
unfolding instruction_info
return_values (op i _) = (instruction_info i).ret
return_values (tag _ _) = 0
return_values (undefined_item _ _) = 0
return_values _ = 1

-- `size_t` has 64 bits. The sub-assembly of a tag of this assembly is `size_t(-1)`.
abbrev pub no_sub_assembly : ℕ
no_sub_assembly = 2 ^ 64 - 1

-- `splitForeignPushTag` on the data of a tag or of a push of a tag; other items fail its assertion.
unfoldable pub split_data : ℕ → ℕ × ℕ
split_data combined = ((combined / 2 ^ 64 + 2 ^ 256 - 1) % 2 ^ 256 % 2 ^ 64, combined % 2 ^ 64)

unfoldable pub split_foreign_push_tag : AssemblyItem → Option (ℕ × ℕ)
unfolding split_data
split_foreign_push_tag (push_tag d _) = some (split_data d)
split_foreign_push_tag (tag d _) = some (split_data d)
split_foreign_push_tag _ = none

-- The data that `setPushTagSubIdAndTag` stores.
unfoldable pub sub_id_and_tag : ℕ → ℕ → ℕ
sub_id_and_tag sub_id tag_id =
    if sub_id == no_sub_assembly then tag_id else bit_or tag_id ((sub_id + 1) * 2 ^ 64 % 2 ^ 256)

-- `toSubAssemblyTag`.
unfoldable pub to_sub_assembly_tag : AssemblyItem → ℕ → Option AssemblyItem
unfolding sub_id_and_tag
to_sub_assembly_tag (push_tag d a) sub_id =
    if ltb d (2 ^ 64) then some (push_tag (sub_id_and_tag sub_id (d % 2 ^ 64)) a) else none
to_sub_assembly_tag (tag d a) sub_id =
    if ltb d (2 ^ 64) then some (push_tag (sub_id_and_tag sub_id (d % 2 ^ 64)) a) else none
to_sub_assembly_tag _ sub_id = none

abbrev pub is_ordinary : JumpType → Bool
is_ordinary ordinary = true
is_ordinary _ = false

unfoldable pub jump_type_of : AssemblyItem → JumpType
jump_type_of (op _ a) = a.jump_type
jump_type_of (undefined_item _ a) = a.jump_type
jump_type_of (push _ a) = a.jump_type
jump_type_of (push_string _ a) = a.jump_type
jump_type_of (push_tag _ a) = a.jump_type
jump_type_of (push_sub _ a) = a.jump_type
jump_type_of (push_sub_size _ a) = a.jump_type
jump_type_of (push_program_size _ a) = a.jump_type
jump_type_of (tag _ a) = a.jump_type
jump_type_of (push_data _ a) = a.jump_type
jump_type_of (push_library_address _ a) = a.jump_type
jump_type_of (push_deploy_time_address _ a) = a.jump_type

abbrev functional_type : AssemblyItem → Bool
functional_type (op i _) = not (is_dup_instruction i) && not (is_swap_instruction i)
functional_type (tag _ _) = false
functional_type (undefined_item _ _) = false
functional_type _ = true

unfoldable pub can_be_functional : AssemblyItem → Bool
unfolding jump_type_of is_dup_instruction is_swap_instruction
can_be_functional item =
    if not (is_ordinary (jump_type_of item)) then false else functional_type item
