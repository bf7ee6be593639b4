-- ===== src/Assembly/SubTags.antt =====
-- Tags of sub-assemblies: `toSubAssemblyTag` and `splitForeignPushTag` of libsvmasm/AssemblyItem.cpp.
use polynomial.Prelude.{
  ℕ, ◌+◌, ◌-◌, ◌*◌, ◌%◌, ◌^◌, ◌<◌, bit_or, ◌≡◌, ap, ap₂, ◌∙◌, true, ◌==◌, ==_iff, Bool-cases, inl,
  inr, Option, none, some, ltb, arith,
}
use polynomial.Word.Bits.{bit_or_comm}
use polynomial.Word.Join.{bit_or-add}
use polynomial.Assembly.Item.{
  Annotation, AssemblyItem, tag, push_tag, no_sub_assembly, split_data, split_foreign_push_tag,
  sub_id_and_tag, to_sub_assembly_tag,
}

abbrev pub split_of : Option AssemblyItem → Option (ℕ × ℕ)
split_of none = none
split_of (some item) = split_foreign_push_tag item

joined :
    (sub_id tag_id : ℕ)
    → sub_id < 2 ^ 64 - 1
    → tag_id < 2 ^ 64
    → bit_or tag_id ((sub_id + 1) * 2 ^ 64 % 2 ^ 256) ≡ (sub_id + 1) * 2 ^ 64 + tag_id
joined sub_id tag_id hs ht =
    let small : ((sub_id + 1) * 2 ^ 64 % 2 ^ 256 ≡ (sub_id + 1) * 2 ^ 64) = omega arith in
    ap (bit_or tag_id) small
    ∙ bit_or_comm tag_id ((sub_id + 1) * 2 ^ 64)
    ∙ bit_or-add 64 (sub_id + 1) tag_id ht

split_data-sub_id_and_tag :
    (sub_id tag_id : ℕ)
    → sub_id < 2 ^ 64
    → tag_id < 2 ^ 64
    → split_data (sub_id_and_tag sub_id tag_id) ≡ (sub_id, tag_id)
unfolding split_data sub_id_and_tag
split_data-sub_id_and_tag sub_id tag_id hs ht = elim (Bool-cases (sub_id == no_sub_assembly)) [
  | inl own ↦
      let here = (==_iff sub_id no_sub_assembly).0 own in
      rw own (ap₂ (λ (u v : ℕ). (u, v)) (omega arith) (omega arith))
  | inr other ↦
      let lower : (sub_id < 2 ^ 64 - 1) = ground arith in
      rw other
        (rw (joined sub_id tag_id lower ht) (ap₂ (λ (u v : ℕ). (u, v)) (omega arith) (omega arith)))
]

-- For a tag, or a push of one, of the assembly itself and any number of 64 bits, `toSubAssemblyTag`
-- gives an item that `splitForeignPushTag` splits into that number and the tag, also where the
-- number is the one that stands for the assembly itself.
pub split_foreign_push_tag-to_sub_assembly_tag :
    (sub_id tag_id : ℕ) (a : Annotation)
    → sub_id < 2 ^ 64
    → tag_id < 2 ^ 64
    → (split_of (to_sub_assembly_tag (tag tag_id a) sub_id) ≡ some (sub_id, tag_id))
      × (split_of (to_sub_assembly_tag (push_tag tag_id a) sub_id) ≡ some (sub_id, tag_id))
unfolding to_sub_assembly_tag split_foreign_push_tag
split_foreign_push_tag-to_sub_assembly_tag sub_id tag_id a hs ht =
    let fits : (ltb tag_id (2 ^ 64) ≡ true) = ground arith in
    let whole : (tag_id % 2 ^ 64 ≡ tag_id) = omega arith in
    let split = ap some (split_data-sub_id_and_tag sub_id tag_id hs ht) in
    (rw fits (rw whole split), rw fits (rw whole split))
