-- ===== src/Rules/Complete.antt =====
-- The whole rule list, and that each of its rules is sound or never reached.
use polynomial.Prelude.{
  ℕ, true, ◌≡◌, ◌&&◌, ltb, ◌==◌, ==_iff, not, arith, ap, ◌∙◌, Every, done, ◌&◌, Every-append, both,
  ◌++◌, bit_and, ◌/◌, ◌^◌,
}
use polynomial.Word
use polynomial.Word.{max_word}
use polynomial.Word.Laws.{and_comm, mul_word_comm}
use polynomial.Rules.{Rules, group_a, group_b, group_x, group_y}
use polynomial.Rules.Part1.{simplification_rule_list_part1}
use polynomial.Rules.Part2.{simplification_rule_list_part2}
use polynomial.Rules.Part3.{simplification_rule_list_part3}
use polynomial.Rules.Part4.{simplification_rule_list_part4}
use polynomial.Rules.Part5.{simplification_rule_list_part5, simplification_rule_list_part6}
use polynomial.Rules.Part7.{simplification_rule_list_part7, simplification_rule_list_part8}
use polynomial.Rules.Meaning.{
  Machine, IsSound, IsChecked, Every-IsChecked, IsChecked-append, pattern_value,
}
use polynomial.Rules.Sound.Constants.{part1-IsChecked, part8-IsSound}
use polynomial.Rules.Sound.Identities.{part2-IsSound}
use polynomial.Rules.Sound.Bitwise.{part3-IsSound, part4-IsSound}
use polynomial.Rules.Sound.Truth.{part5-IsSound, part6-IsSound}
use polynomial.Rules.Sound.Moves.{associative-IsSound}
use polynomial.Rules.Sound.Shifts.{shl_twice-IsSound, shr_twice-IsSound}
use polynomial.Rules.Sound.Opposite.{right-IsSound, left-IsSound}
use polynomial.Rules.Sound.Masks.{shl-and, shr-and, mul-shl, div-shl, and-shr}

abbrev pub simplification_rule_list : Rules
simplification_rule_list =
    simplification_rule_list_part1
    ++ (simplification_rule_list_part2
        ++ (simplification_rule_list_part3
            ++ (simplification_rule_list_part4
                ++ (simplification_rule_list_part5
                    ++ (simplification_rule_list_part6
                        ++ (simplification_rule_list_part7 ++ simplification_rule_list_part8))))))

covered :
    (n k : ℕ)
    → (not (ltb 256 k) && bit_and n (max_word / 2 ^ k) == max_word / 2 ^ k) ≡ true
    → bit_and n (max_word / 2 ^ k) ≡ max_word / 2 ^ k
covered n k h = (==_iff (bit_and n (max_word / 2 ^ k)) (max_word / 2 ^ k)).0 ((both h).1)

module _ (m : Machine) where
  part7-IsSound : Every (IsSound m) simplification_rule_list_part7
  unfolding pattern_value
  part7-IsSound =
      Every-append
        (Every-append (associative-IsSound m) (
          shl_twice-IsSound m
          & shr_twice-IsSound m
          & right-IsSound m
          & left-IsSound m
          & (λ s w h. shl-and (s group_x) (w group_x) (s group_a) (s group_b) (ground arith))
          & (λ s w h.
              ap (Word.shl (s group_b)) (and_comm (s group_a) (s group_x))
              ∙ shl-and (s group_x) (w group_x) (s group_a) (s group_b) (ground arith))
          & (λ s w h. shr-and (s group_x) (w group_x) (s group_a) (s group_b) (ground arith))
          & (λ s w h.
              ap (Word.shr (s group_b)) (and_comm (s group_a) (s group_x))
              ∙ shr-and (s group_x) (w group_x) (s group_a) (s group_b) (ground arith))
          & done))
        ((λ s w h. mul-shl (s group_x) (s group_y))
          & (λ s w h.
              mul_word_comm (Word.shl (s group_x) 1) (s group_y) ∙ mul-shl (s group_y) (s group_x))
          & (λ s w h. div-shl (s group_x) (s group_y))
          & (λ s w h.
              and_comm (s group_a) (Word.shr (s group_b) (s group_x))
              ∙ and-shr (s group_x) (w group_x) (s group_a) (s group_b)
                  (covered (s group_a) (s group_b) h))
          & (λ s w h.
              and-shr (s group_x) (w group_x) (s group_a) (s group_b)
                (covered (s group_a) (s group_b) h))
          & done)

-- For every machine, each rule of the whole list is sound, that is, its pattern and what its action
-- makes of it have the same value for all words that the groups can stand for and for which the test
-- of the rule holds; or it stands directly behind a sound rule that has the same pattern and no
-- test.
pub simplification_rule_list-IsChecked : (m : Machine) → IsChecked m simplification_rule_list
simplification_rule_list-IsChecked m = IsChecked-append m (part1-IsChecked m) (
    Every-IsChecked m (
      Every-append (part2-IsSound m) (
        Every-append (part3-IsSound m) (
          Every-append (part4-IsSound m) (
            Every-append (part5-IsSound m) (
              Every-append (part6-IsSound m)
                (Every-append (part7-IsSound m) (part8-IsSound m))))))))
