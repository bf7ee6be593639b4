-- ===== src/Assembly/Jumpdest.antt =====
-- The removal of jump destinations that nothing refers to, libsvmasm/JumpdestRemover.cpp. A set of
-- tags is the list of its elements.
pub mod Laws
mod Tests
use polynomial.Prelude.{
  ℕ, zero, suc, ◌+◌, ◌*◌, ◌^◌, Bool, true, false, not, ◌||◌, Option, none, some, List, [], ◌∷◌,
  ◌++◌, ◌==◌, if◌then◌else◌, length,
}
use polynomial.Assembly.Item.{
  AssemblyItem, AssemblyItems, push_tag, tag, split_data, no_sub_assembly,
}

-- `set::count`.
unfoldable pub contains : List ℕ → ℕ → Bool
contains [] t = false
contains (x ∷ xs) t = x == t || contains xs t

abbrev pub insert_if : Bool → ℕ → List ℕ → List ℕ
insert_if b t ts = if b then t ∷ ts else ts

-- `JumpdestRemover::referencedTags`.
unfoldable pub referenced_tags : AssemblyItems → ℕ → List ℕ
unfolding split_data
referenced_tags [] sub_id = []
referenced_tags (push_tag d _ ∷ items) sub_id =
    insert_if ((split_data d).0 == sub_id) (split_data d).1 (referenced_tags items sub_id)
referenced_tags (_ ∷ items) sub_id = referenced_tags items sub_id

-- Whether an item stays; `none` is the OptimizerException for a label of a sub-assembly.
unfoldable pub stays : List ℕ → AssemblyItem → Option Bool
unfolding split_data contains
stays references (tag d _) =
    if (split_data d).0 == no_sub_assembly
    then some (contains references (split_data d).1)
    else none
stays references _ = some true

abbrev pub keep : Option Bool → AssemblyItem → Option AssemblyItems → Option AssemblyItems
keep none item rest = none
keep (some b) item none = none
keep (some b) item (some rest) = some (if b then item ∷ rest else rest)

-- `remove_if` and `erase`.
unfoldable pub remove_unreferenced : List ℕ → AssemblyItems → Option AssemblyItems
unfolding stays
remove_unreferenced references [] = some []
remove_unreferenced references (item ∷ items) =
    keep (stays references item) item (remove_unreferenced references items)

abbrev pub removed : AssemblyItems → Option AssemblyItems → Option (AssemblyItems × Bool)
removed items none = none
removed items (some new) = some (new, not (length new == length items))

-- `JumpdestRemover::optimise`: the items afterwards, and whether some were removed.
unfoldable pub remove_jumpdests : AssemblyItems → List ℕ → Option (AssemblyItems × Bool)
unfolding referenced_tags remove_unreferenced
remove_jumpdests items referenced_from_outside =
    removed items
      (remove_unreferenced (referenced_tags items no_sub_assembly ++ referenced_from_outside) items)
