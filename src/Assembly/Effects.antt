-- ===== src/Assembly/Effects.antt =====
-- How the tables of libsvmasm/SemanticInformation.cpp agree with each other and with the table of
-- libsvmasm/Instruction.cpp, for every byte.
use polynomial.Word
use polynomial.Word.{evaluate}
use polynomial.Word.Laws.{add_comm, mul_word_comm, eq_comm, and_comm, or_comm, xor_comm}
use polynomial.Prelude.{
  ℕ, [], ◌∷◌, ◌↔◌, Every, done, ◌&◌, ==_refl, ◌<◌, ◌≡◌, refl, Bool, true, false, not, ◌||◌, ◌&&◌,
  Option, some, none, all_below, all_below_sound, both, ◌==◌, ==_iff, ap, false_ne_true,
}
use polynomial.Instruction.{Instruction}
use polynomial.Instruction.Info.{instruction_info}
use polynomial.Assembly.Item.{Annotation, AssemblyItem, op, located, no_location}
use polynomial.Assembly.Semantic.{
  is_case, is_case-cases, commutative_operations, movable, side_effect_free, is_deterministic,
  invalidates_memory, invalidates_storage, invalid_in_view_functions, invalid_in_pure_functions,
  instruction_terminates_control_flow, alters_control_flow, is_jump_instruction,
  breaks_cse_analysis_block, is_commutative_operation,
}

abbrev holds : Option Bool → Bool
holds none = false
holds (some b) = b

abbrev implies : Bool → Bool → Bool
implies a b = not a || b

holds-some : (o : Option Bool) → holds o ≡ true → o ≡ some true
holds-some none h = false_ne_true h
holds-some (some b) h = ap some h

implies-use : (a b : Bool) → implies a b ≡ true → a ≡ true → b ≡ true
implies-use true b h p = h
implies-use false b h p = false_ne_true p

abbrev item : Instruction → AssemblyItem
item i = op i (located no_location)

abbrev movable_agrees : Instruction → Bool
movable_agrees i = implies (movable i) (holds (side_effect_free i) && is_deterministic (item i))

movable_everywhere : all_below 256 movable_agrees ≡ true
unfolding movable side_effect_free is_deterministic is_case instruction_info
movable_everywhere = refl

-- A byte that is movable has no side effects and is deterministic.
pub movable-side_effect_free :
    (i : Instruction) (a : Annotation)
    → i < 256
    → movable i ≡ true
    → (side_effect_free i ≡ some true) × (is_deterministic (op i a) ≡ true)
unfolding is_deterministic
movable-side_effect_free i a byte h =
    let checked = all_below_sound 256 movable_agrees i movable_everywhere byte in
    let (free, fixed) = both (implies-use (movable i) _ checked h) in
    (holds-some (side_effect_free i) free, fixed)

abbrev writes_agree : Instruction → Bool
writes_agree i =
    implies (invalidates_memory i || invalidates_storage i) (instruction_info i).side_effects
    && (implies (invalidates_storage i) (invalid_in_view_functions i)
        && implies (invalid_in_view_functions i) (invalid_in_pure_functions i))

writes_everywhere : all_below 256 writes_agree ≡ true
unfolding invalidates_memory invalidates_storage invalid_in_view_functions invalid_in_pure_functions
    is_case instruction_info
writes_everywhere = refl

-- A byte that invalidates memory or storage has side effects in the instruction table, one that
-- invalidates storage is not allowed in view functions, and what is not allowed there is not
-- allowed in pure functions either.
pub invalidates-side_effects :
    (i : Instruction)
    → i < 256
    → ((invalidates_memory i || invalidates_storage i) ≡ true
        → (instruction_info i).side_effects ≡ true)
      × (invalidates_storage i ≡ true → invalid_in_view_functions i ≡ true)
      × (invalid_in_view_functions i ≡ true → invalid_in_pure_functions i ≡ true)
invalidates-side_effects i byte =
    let (effects, kinds) = both (all_below_sound 256 writes_agree i writes_everywhere byte) in
    let (view, pure) = both kinds in
    (implies-use _ _ effects, implies-use _ _ view, implies-use _ _ pure)

abbrev control_agrees : Instruction → Bool
control_agrees i =
    implies (instruction_terminates_control_flow i || is_jump_instruction (item i))
      (alters_control_flow (item i))
    && (implies (alters_control_flow (item i)) (breaks_cse_analysis_block (item i) true)
        && implies (alters_control_flow (item i)) (breaks_cse_analysis_block (item i) false))

control_everywhere : all_below 256 control_agrees ≡ true
unfolding instruction_terminates_control_flow is_jump_instruction alters_control_flow
    breaks_cse_analysis_block is_case instruction_info
control_everywhere = refl

breaks_either :
    (a : Bool) (f : Bool → Bool)
    → implies a (f true) ≡ true
    → implies a (f false) ≡ true
    → (b : Bool) → a ≡ true
    → f b ≡ true
breaks_either a f h k true e = implies-use a (f true) h e
breaks_either a f h k false e = implies-use a (f false) k e

-- An operation that terminates or is a jump alters the control flow, and one that alters the
-- control flow ends a block of the common subexpression eliminator, whether MSIZE matters or not.
pub terminates-alters_control_flow :
    (i : Instruction) (a : Annotation)
    → i < 256
    → ((instruction_terminates_control_flow i || is_jump_instruction (op i a)) ≡ true
        → alters_control_flow (op i a) ≡ true)
      × ((msize_important : Bool)
          → alters_control_flow (op i a) ≡ true
          → breaks_cse_analysis_block (op i a) msize_important ≡ true)
unfolding is_jump_instruction alters_control_flow breaks_cse_analysis_block
terminates-alters_control_flow i a byte =
    let (alters, breaks) = both (all_below_sound 256 control_agrees i control_everywhere byte) in
    let (with_msize, without_msize) =
      both {a = implies (alters_control_flow (item i)) (breaks_cse_analysis_block (item i) true)}
        {b = implies (alters_control_flow (item i)) (breaks_cse_analysis_block (item i) false)}
        breaks in
    (
      implies-use _ _ alters,
      breaks_either (alters_control_flow (op i a)) (λ b. breaks_cse_analysis_block (op i a) b)
          with_msize without_msize,
    )

abbrev commutative_agrees : Instruction → Bool
commutative_agrees i =
    implies (is_commutative_operation (item i))
      (movable i && ((instruction_info i).args == 2 && (instruction_info i).ret == 1))

commutative_everywhere : all_below 256 commutative_agrees ≡ true
unfolding is_commutative_operation movable is_case instruction_info
commutative_everywhere = refl

-- A byte that is a commutative operation takes two values, returns one and is movable.
commutative_row :
    (i : Instruction) (a : Annotation)
    → i < 256
    → is_commutative_operation (op i a) ≡ true
    → (movable i ≡ true) × ((instruction_info i).args ≡ 2) × ((instruction_info i).ret ≡ 1)
unfolding is_commutative_operation
commutative_row i a byte h =
    let checked = all_below_sound 256 commutative_agrees i commutative_everywhere byte in
    let (moves, counts) = both (implies-use (is_commutative_operation (op i a)) _ checked h) in
    let (two, one) = both counts in
    (moves, (==_iff (instruction_info i).args 2).0 two, (==_iff (instruction_info i).ret 1).0 one)

-- A value, and the same with the arguments exchanged.
abbrev Commutes : Instruction → Type 0
Commutes i =
    (x y : ℕ) → (v : ℕ) × (evaluate i (x ∷ y ∷ []) ≡ some v) × (evaluate i (y ∷ x ∷ []) ≡ some v)

commutative_operations-Commutes : Every (λ (i : Instruction). Commutes i) commutative_operations
unfolding evaluate
commutative_operations-Commutes =
    (λ x y. (Word.add x y, refl, ap (λ (v : ℕ). some v) (add_comm y x)))
    & (λ x y. (Word.mul x y, refl, ap (λ (v : ℕ). some v) (mul_word_comm y x)))
    & (λ x y. (Word.eq x y, refl, ap (λ (v : ℕ). some v) (eq_comm y x)))
    & (λ x y. (Word.and x y, refl, ap (λ (v : ℕ). some v) (and_comm y x)))
    & (λ x y. (Word.or x y, refl, ap (λ (v : ℕ). some v) (or_comm y x)))
    & (λ x y. (Word.xor x y, refl, ap (λ (v : ℕ). some v) (xor_comm y x)))
    & done

abbrev same_values : Option ℕ → Option ℕ → Bool
same_values (some a) (some b) = a == b
same_values _ _ = false

abbrev commutes_at : Instruction → ℕ → ℕ → Bool
commutes_at i x y = same_values (evaluate i (x ∷ y ∷ [])) (evaluate i (y ∷ x ∷ []))

-- Three pairs of arguments tell the other instructions from these.
abbrev commutes_agrees : Instruction → Bool
commutes_agrees i =
    implies (commutes_at i 1 2 && (commutes_at i 31 5 && commutes_at i 0 255))
      (is_commutative_operation (item i))

commutes_everywhere : all_below 256 commutes_agrees ≡ true
unfolding is_commutative_operation evaluate is_case Word.operator_at Word.sar Word.shr Word.shl
    Word.byte Word.xor Word.or Word.and Word.eq Word.sgt Word.slt Word.gt Word.lt Word.signextend
    Word.exp Word.smod Word.mod_op Word.exp_loop Word.add Word.addmod Word.mulmod Word.iszero
    Word.mul Word.not Word.sdiv Word.sub Word.div polynomial.Word.Bits.test_bit
    polynomial.Word.Signed.ltb_ℤ polynomial.Word.Signed.quot polynomial.Word.Signed.rem
    polynomial.Word.Signed.s2u polynomial.Word.Signed.u2s
commutes_everywhere = refl

Commutes-at : (i : Instruction) → Commutes i → (x y : ℕ) → commutes_at i x y ≡ true
Commutes-at i k x y = let (v, e, f) = k x y in rw (e, f) (==_refl v)

all_three : (a b c : Bool) → a ≡ true → b ≡ true → c ≡ true → (a && (b && c)) ≡ true
all_three a b c h k l = rw (h, k, l) refl

-- A byte is a commutative operation if and only if it has a value for any two arguments, the same
-- when they are exchanged. Such a byte is movable, takes two values and returns one.
pub commutative-evaluate :
    (i : Instruction) (a : Annotation)
    → i < 256
    → ((is_commutative_operation (op i a) ≡ true) ↔ (
        (x y : ℕ)
        → (v : ℕ) × (evaluate i (x ∷ y ∷ []) ≡ some v) × (evaluate i (y ∷ x ∷ []) ≡ some v)))
      × (is_commutative_operation (op i a) ≡ true
          → (movable i ≡ true) × ((instruction_info i).args ≡ 2) × ((instruction_info i).ret ≡ 1))
unfolding is_commutative_operation
commutative-evaluate i a byte =
    let checked = all_below_sound 256 commutes_agrees i commutes_everywhere byte in
    (
      (
        λ h.
            is_case-cases (λ j. Commutes j) commutative_operations i commutative_operations-Commutes
              h,
        λ k. implies-use _ _ checked (
            all_three (commutes_at i 1 2) (commutes_at i 31 5) (commutes_at i 0 255)
              (Commutes-at i k 1 2) (Commutes-at i k 31 5) (Commutes-at i k 0 255)),
      ),
      commutative_row i a byte,
    )
