-- ===== src/Types/Common.antt =====
-- The common type of two elementary types, and the type of a binary operator.
use polynomial.Prelude.{
  ◌≡◌, refl, ap, sym, ◌∙◌, Bool, true, false, ◌&&◌, ◌||◌, Option, none, some, if◌then◌else◌,
  Bool-cases, inl, inr, ◌⊎◌, ◌↔◌, none_ne_some, some_inj,
}
use polynomial.Types.{
  ElementaryType, address, integer, fixed_point, bool, fixed_bytes, IsValid,
  is_implicitly_convertible_to, common_type, is_number, is_bool,
}
use polynomial.Types.Token.{Token, is, is_compare_op, is_bit_op, is_boolean_op, is_shift_op}
use polynomial.Types.Operators.{
  TypeResult, refused, result, of_common, allowed, integer_operation, fixed_point_operation,
  fixed_bytes_operation, is_valid_shift_and_amount_type, binary_operator_result,
}
use polynomial.Types.Convert.{implicitly_refl, implicitly_trans}

common_type-cases :
    (a b : ElementaryType)
    → ((is_implicitly_convertible_to b a ≡ true) × (common_type a b ≡ some a))
      ⊎ ((is_implicitly_convertible_to b a ≡ false)
          × (((is_implicitly_convertible_to a b ≡ true) × (common_type a b ≡ some b))
              ⊎ ((is_implicitly_convertible_to a b ≡ false) × (common_type a b ≡ none))))
unfolding common_type
common_type-cases a b = elim (Bool-cases (is_implicitly_convertible_to b a)) [
  | inl t ↦ inl (t, rw t refl)
  | inr f ↦ inr (
    f,
    elim (Bool-cases (is_implicitly_convertible_to a b)) [
      | inl t ↦ inl (t, rw (f, t) refl)
      | inr g ↦ inr (g, rw (f, g) refl)
    ],
  )
]

-- Both types convert to their common type.
common_type-above :
    (a b c : ElementaryType)
    → common_type a b ≡ some c
    → (is_implicitly_convertible_to a c ≡ true) × (is_implicitly_convertible_to b c ≡ true)
common_type-above a b c e = elim (common_type-cases a b) [
  | inl (t, here) ↦ let same = some_inj (sym here ∙ e) in rw (sym same) (implicitly_refl a, t)
  | inr (f, inl (t, here)) ↦
      let same = some_inj (sym here ∙ e) in rw (sym same) (t, implicitly_refl b)
  | inr (f, inr (g, here)) ↦ none_ne_some (sym here ∙ e)
]

-- Where types hold what their constructors assert and have a common type, that type converts to
-- exactly the types to which both convert.
pub common_type-least :
    (a b c d : ElementaryType)
    → IsValid a
    → IsValid b
    → common_type a b ≡ some c
    → (is_implicitly_convertible_to c d ≡ true)
      ↔ ((is_implicitly_convertible_to a d ≡ true) × (is_implicitly_convertible_to b d ≡ true))
common_type-least a b c d va vb e =
    let (left, right) = common_type-above a b c e in
    (
      λ h. (implicitly_trans a c d va left h, implicitly_trans b c d vb right h),
      λ h. elim (common_type-cases a b) [
        | inl (t, here) ↦ rw (sym (some_inj (sym here ∙ e))) h.0
        | inr (f, inl (t, here)) ↦ rw (sym (some_inj (sym here ∙ e))) h.1
        | inr (f, inr (g, here)) ↦ none_ne_some (sym here ∙ e)
      ],
    )

result_inj : (t c : ElementaryType) → result t ≡ result c → t ≡ c
result_inj t c h = cc

refused_ne : {A : Type 0} (c : ElementaryType) → refused ≡ result c → A
refused_ne c h = cc

allowed-some : (b : Bool) (t c : ElementaryType) → allowed b t ≡ result c → t ≡ c
allowed-some true t c h = result_inj t c h
allowed-some false t c h = refused_ne c h

-- The tests of an operation on numbers, whatever they are.
kept :
    (compared refused_first refused_second : Bool) (t c : ElementaryType)
    → (if compared
        then result t
        else if refused_first
        then refused
        else if refused_second
        then refused
        else result t)
      ≡ result c
    → some t ≡ some c
kept true _ _ t c h = ap some (result_inj t c h)
kept false true _ t c h = refused_ne c h
kept false false true t c h = refused_ne c h
kept false false false t c h = ap some (result_inj t c h)

integer_operation-some :
    (op : Token) (o : Option ElementaryType) (c : ElementaryType)
    → integer_operation op o ≡ result c
    → o ≡ some c
integer_operation-some op none c h = refused_ne c h
integer_operation-some op (some (address m)) c h =
    kept (is_compare_op op) (is_boolean_op op) false (address m) c h
integer_operation-some op (some (integer n s)) c h =
    kept (is_compare_op op) (is_boolean_op op) (is op Token.exp && s) (integer n s) c h
integer_operation-some op (some (fixed_point n d s)) c h =
    kept (is_compare_op op) (is_boolean_op op) (is op Token.exp) (fixed_point n d s) c h
integer_operation-some op (some bool) c h =
    kept (is_compare_op op) (is_boolean_op op) false bool c h
integer_operation-some op (some (fixed_bytes n)) c h =
    kept (is_compare_op op) (is_boolean_op op) false (fixed_bytes n) c h

fixed_point_operation-some :
    (op : Token) (o : Option ElementaryType) (c : ElementaryType)
    → fixed_point_operation op o ≡ result c
    → o ≡ some c
fixed_point_operation-some op none c h = refused_ne c h
fixed_point_operation-some op (some t) c h =
    kept (is_compare_op op) (is_bit_op op || is_boolean_op op || is op Token.exp) false t c h

fixed_bytes_operation-some :
    (op : Token) (o : Option ElementaryType) (c : ElementaryType)
    → fixed_bytes_operation op o ≡ result c
    → o ≡ some c
fixed_bytes_operation-some op none c h = refused_ne c h
fixed_bytes_operation-some op (some (fixed_bytes n)) c h =
    ap some (allowed-some (is_compare_op op || is_bit_op op) (fixed_bytes n) c h)
fixed_bytes_operation-some op (some (address m)) c h = refused_ne c h
fixed_bytes_operation-some op (some (integer n s)) c h = refused_ne c h
fixed_bytes_operation-some op (some (fixed_point n d s)) c h = refused_ne c h
fixed_bytes_operation-some op (some bool) c h = refused_ne c h

of_common-some :
    (o : Option ElementaryType) (c : ElementaryType) → of_common o ≡ result c → o ≡ some c
of_common-some none c h = refused_ne c h
of_common-some (some t) c h = ap some (result_inj t c h)

guarded_result :
    {A : Type 0} (b : Bool) (r : TypeResult) (c : ElementaryType)
    → (r ≡ result c → A)
    → (if b then r else refused) ≡ result c
    → A
guarded_result true r c k h = k h
guarded_result false r c k h = refused_ne c h

binary_operator_result-common :
    (op : Token) (a b c : ElementaryType)
    → is_shift_op op ≡ false
    → binary_operator_result op a b ≡ result c
    → common_type a b ≡ some c
unfolding binary_operator_result
binary_operator_result-common op (address m) b c plain h =
    guarded_result (is_compare_op op) (of_common (common_type (address m) b)) c
      (of_common-some (common_type (address m) b) c) h
binary_operator_result-common op (integer n s) b c plain h =
    guarded_result (is_number b) (integer_operation op (common_type (integer n s) b)) c
      (integer_operation-some op (common_type (integer n s) b) c) (rw plain at h)
binary_operator_result-common op (fixed_point n d s) b c plain h =
    fixed_point_operation-some op (common_type (fixed_point n d s) b) c h
binary_operator_result-common op bool bool c plain h = ap some (
    allowed-some (is op Token.equal || is op Token.not_equal || is op Token.and || is op Token.or)
      bool c h)
binary_operator_result-common op bool (address m) c plain h = refused_ne c h
binary_operator_result-common op bool (integer n s) c plain h = refused_ne c h
binary_operator_result-common op bool (fixed_point n d s) c plain h = refused_ne c h
binary_operator_result-common op bool (fixed_bytes n) c plain h = refused_ne c h
binary_operator_result-common op (fixed_bytes n) b c plain h =
    fixed_bytes_operation-some op (common_type (fixed_bytes n) b) c (rw plain at h)

bool_first :
    (b : Bool) (other c : ElementaryType)
    → (if is_bool other then allowed b other else refused) ≡ result c
    → bool ≡ c
bool_first b bool c h = allowed-some b bool c h
bool_first b (address m) c h = refused_ne c h
bool_first b (integer n s) c h = refused_ne c h
bool_first b (fixed_point n d s) c h = refused_ne c h
bool_first b (fixed_bytes n) c h = refused_ne c h

shift-left :
    (op : Token) (a b c : ElementaryType)
    → is_shift_op op ≡ true
    → binary_operator_result op a b ≡ result c
    → (common_type a b ≡ some c) ⊎ (a ≡ c)
unfolding binary_operator_result
shift-left op (address m) b c shift h = inl (
    guarded_result (is_compare_op op) (of_common (common_type (address m) b)) c
      (of_common-some (common_type (address m) b) c) h)
shift-left op (integer n s) b c shift h = inr (
    guarded_result (is_number b) (allowed (is_valid_shift_and_amount_type op b) (integer n s)) c
      (allowed-some (is_valid_shift_and_amount_type op b) (integer n s) c) (rw shift at h))
shift-left op (fixed_point n d s) b c shift h =
    inl (fixed_point_operation-some op (common_type (fixed_point n d s) b) c h)
shift-left op bool b c shift h = inr (
    bool_first (is op Token.equal || is op Token.not_equal || is op Token.and || is op Token.or) b c
      h)
shift-left op (fixed_bytes n) b c shift h =
    inr (allowed-some (is_valid_shift_and_amount_type op b) (fixed_bytes n) c (rw shift at h))

-- Where a binary operator on two elementary types has a type, both convert to it implicitly, or the
-- operator is a shift and the type is that of the left operand.
pub binary_operator_result-converts :
    (op : Token) (a b c : ElementaryType)
    → binary_operator_result op a b ≡ result c
    → ((is_implicitly_convertible_to a c ≡ true) × (is_implicitly_convertible_to b c ≡ true))
      ⊎ ((is_shift_op op ≡ true) × (a ≡ c))
binary_operator_result-converts op a b c h = elim (Bool-cases (is_shift_op op)) [
  | inl shift ↦ elim (shift-left op a b c shift h) [
    | inl e ↦ inl (common_type-above a b c e)
    | inr same ↦ inr (shift, same)
  ]
  | inr plain ↦ inl (common_type-above a b c (binary_operator_result-common op a b c plain h))
]
