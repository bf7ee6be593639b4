-- ===== src/Assembly/Constants/Optimise.antt =====
-- `optimiseConstants` and `replaceConstants` of libsvmasm/ConstantOptimiser.cpp. `none` is an
-- exception. The hash by which the assembly files its data is a parameter.
use polynomial.Prelude.{
  ℕ, ◌+◌, Bool, ◌&&◌, Option, none, some, List, [], ◌∷◌, ◌++◌, ◌==◌, ltb, leb, if◌then◌else◌,
}
use polynomial.Version.{SvmVersion}
use polynomial.Assembly.Item.{AssemblyItem, AssemblyItems, push, push_data, located, no_location}
use polynomial.Assembly.Constants.{
  ◌>>=◌, Params, literal_gas, code_copy_gas, compute_gas, copy_routine, to_big_endian,
}
use polynomial.Assembly.Constants.Compute.{compute_routine}

-- The map from constants to how often they are pushed, in order.
unfoldable pub count_push : ℕ → List (ℕ × ℕ) → List (ℕ × ℕ)
count_push d [] = (d, 1) ∷ []
count_push d ((e, n) ∷ pushes) =
    if d == e
    then (e, n + 1) ∷ pushes
    else if ltb d e
    then (d, 1) ∷ (e, n) ∷ pushes
    else (e, n) ∷ count_push d pushes

unfoldable pub count_pushes : AssemblyItems → List (ℕ × ℕ) → List (ℕ × ℕ)
unfolding count_push
count_pushes [] pushes = pushes
count_pushes (push d _ ∷ items) pushes = count_pushes items (count_push d pushes)
count_pushes (_ ∷ items) pushes = count_pushes items pushes

-- How a constant is put on the stack: as it is, from the data of the code, or by a routine.
pub data Method : Type 0 where
  literal : Method
  copied : List ℕ → Method
  computed : AssemblyItems → Method

unfoldable pub choose_method : Params → ℕ → Option Method
choose_method p value = do
  gas ← literal_gas p value
  copy ← code_copy_gas p value
  routine ← compute_routine p value
  compute ← compute_gas p routine
  some (
      if ltb copy gas && ltb copy compute
      then copied (to_big_endian 32 value)
      else if ltb compute gas && leb compute copy
      then computed routine
      else literal)

-- The replacements so far, the number of optimisations, and the data that was filed.
pub record Pending : Type 0 where
  pub replacements : List (ℕ × AssemblyItems)
  pub optimisations : ℕ
  pub filed : List (ℕ × List ℕ)

abbrev pub pending : ℕ → AssemblyItems → List (ℕ × AssemblyItems) → List (ℕ × AssemblyItems)
pending value [] replacements = replacements
pending value (item ∷ items) replacements = (value, item ∷ items) ∷ replacements

module _ (hash : List ℕ → ℕ) where
  abbrev pub execute : ℕ → Method → Pending → Pending
  execute value literal q = q
  execute value (copied bytes) q = record {
    replacements =
        pending value (copy_routine (push_data (hash bytes) (located no_location))) q.replacements;
    optimisations = q.optimisations + 1;
    filed = (hash bytes, bytes) ∷ q.filed;
  }
  execute value (computed routine) q = record q {
    replacements = pending value routine q.replacements;
    optimisations = q.optimisations + 1;
  }

  -- A round of the loop over the constants.
  abbrev pub consider : Bool → ℕ → SvmVersion → ℕ → ℕ → Pending → Option Pending
  consider is_creation runs version value multiplicity q =
      if ltb value 0x100
      then some q
      else (choose_method
            (record {
              is_creation = is_creation;
              runs = runs;
              multiplicity = multiplicity;
              svm_version = version;
            })
            value
          >>= λ m. some (execute value m q))

  unfoldable pub consider_all : Bool → ℕ → SvmVersion → List (ℕ × ℕ) → Pending → Option Pending
  consider_all is_creation runs version [] q = some q
  consider_all is_creation runs version ((value, n) ∷ pushes) q =
      consider is_creation runs version value n q >>= consider_all is_creation runs version pushes

unfoldable pub find_replacement : List (ℕ × AssemblyItems) → ℕ → Option AssemblyItems
find_replacement [] value = none
find_replacement ((v, items) ∷ replacements) value =
    if v == value then some items else find_replacement replacements value

abbrev pub replaced_by : Option AssemblyItems → AssemblyItem → AssemblyItems
replaced_by none item = item ∷ []
replaced_by (some items) item = items

abbrev pub replaced_item : List (ℕ × AssemblyItems) → AssemblyItem → AssemblyItems
replaced_item replacements (push d a) = replaced_by (find_replacement replacements d) (push d a)
replaced_item replacements item = item ∷ []

unfoldable pub replace_constants : List (ℕ × AssemblyItems) → AssemblyItems → AssemblyItems
unfolding find_replacement
replace_constants replacements [] = []
replace_constants replacements (item ∷ items) =
    replaced_item replacements item ++ replace_constants replacements items

-- `optimiseConstants`: the items, the number of optimisations, and the data that was filed.
pub record Optimised : Type 0 where
  pub items : AssemblyItems
  pub optimisations : ℕ
  pub filed : List (ℕ × List ℕ)

unfoldable pub optimise_constants :
    (List ℕ → ℕ) → Bool → ℕ → SvmVersion → AssemblyItems → Option Optimised
unfolding count_pushes consider_all replace_constants choose_method
optimise_constants hash is_creation runs version items =
    consider_all hash is_creation runs version (count_pushes items [])
      (record { replacements = []; optimisations = 0; filed = [] })
    >>= λ q. some (record {
      items = replace_constants q.replacements items;
      optimisations = q.optimisations;
      filed = q.filed;
    })
