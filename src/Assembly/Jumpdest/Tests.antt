-- ===== src/Assembly/Jumpdest/Tests.antt =====
-- The theorems on the removal of jump destinations at a program with two of them.
use polynomial.Prelude.{◌≡◌, ◌↔◌, refl, Bool, true, some, [], ◌∷◌, All}
use polynomial.Assembly.Item.{
  Annotation, AssemblyItems, push_tag, tag, located, no_location, split_data, no_sub_assembly,
}
use polynomial.Assembly.Jumpdest.{
  contains, referenced_tags, remove_unreferenced, remove_jumpdests, stays,
}
use polynomial.Assembly.Jumpdest.Laws.{
  IsPushed, IsOwn, IsFiltered, HasReference, IsReferenced, contains-referenced_tags,
  remove_jumpdests-IsFiltered,
}

abbrev note : Annotation
note = located no_location

abbrev program : AssemblyItems
program = push_tag 1 note ∷ tag 1 note ∷ tag 2 note ∷ tag 3 note ∷ []

abbrev shorter : AssemblyItems
shorter = push_tag 1 note ∷ tag 1 note ∷ tag 3 note ∷ []

remove_jumpdests-program : remove_jumpdests program (3 ∷ []) ≡ some (shorter, true)
unfolding remove_jumpdests remove_unreferenced referenced_tags contains split_data stays
remove_jumpdests-program = refl

program-IsOwn : All IsOwn program
unfolding split_data
program-IsOwn = (tt, (refl, (refl, (refl, tt))))

remove_jumpdests-IsFiltered_example :
    (new : AssemblyItems) × (changed : Bool) × (remove_jumpdests program (3 ∷ [])
      ≡ some (new, changed))
    × IsFiltered (HasReference (IsReferenced program (3 ∷ []))) program new
remove_jumpdests-IsFiltered_example = remove_jumpdests-IsFiltered program (3 ∷ []) program-IsOwn

contains-referenced_tags_example :
    (contains (referenced_tags program no_sub_assembly) 1 ≡ true)
    ↔ IsPushed no_sub_assembly 1 program
contains-referenced_tags_example = contains-referenced_tags program no_sub_assembly 1
