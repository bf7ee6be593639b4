-- ===== src/Rules/Meaning.antt =====
-- What a pattern stands for once its match groups have values, and what it means for a rule to be
-- sound.
use polynomial.Prelude.{
  Bool, false, ◌||◌, ℕ, ◌^◌, ◌<◌, ◌≡◌, true, Option, none, some, List, [], ◌∷◌, ◌++◌, Every, done,
  ◌&◌,
}
use polynomial.Instruction.{Instruction}
use polynomial.Word.{IsWord, evaluate, operators, operator_at}
use polynomial.Assembly.Semantic.{is_case}
use polynomial.Rules.{
  group_a, group_b, group_c, group_x, group_y, Group, Pattern, Patterns, anything, constant, value,
  operation, nil, cons, SimplificationRule, Rules,
}
use polynomial.Rules.Part5.{address_operations}

-- The data that an action reads: only that of the constants.
abbrev pub constants : (Group → ℕ) → Group → ℕ
constants s group_a = s group_a
constants s group_b = s group_b
constants s group_c = s group_c
constants s group_x = 0
constants s group_y = 0

abbrev is_some : {A : Type 0} → Option A → Bool
is_some none = false
is_some (some v) = true

-- The instructions of patterns: their values do not depend on the time at which they run.
abbrev pub timeless : Instruction → Bool
timeless i = is_some (operator_at operators i) || is_case address_operations i

-- The values of the instructions that `Word.evaluate` does not give, such as the address of the
-- contract: for an instruction, its arguments, and the sequence number by which the optimiser counts
-- changes of memory and storage. They are words, and those of the instructions that give an address
-- have 160 bits.
pub record Machine : Type 0 where
  pub other : Instruction → List ℕ → ℕ → ℕ
  pub other_word : (i : Instruction) (args : List ℕ) (n : ℕ) → IsWord (other i args n)
  pub other_address :
      (i : Instruction) (args : List ℕ) (n : ℕ)
      → is_case address_operations i ≡ true
      → other i args n < 2 ^ 160
  pub other_timeless :
      (i : Instruction) (args : List ℕ) (n : ℕ)
      → timeless i ≡ true
      → other i args n ≡ other i args 0

module _ (m : Machine) where
  abbrev pub or_other : Option ℕ → Instruction → List ℕ → ℕ → ℕ
  or_other none i args n = m.other i args n
  or_other (some v) i args n = v

  -- The value of any instruction.
  unfoldable pub meaning_at : Instruction → List ℕ → ℕ → ℕ
  unfolding evaluate
  meaning_at i args n = or_other (evaluate i args) i args n

  unfoldable pub meaning : Instruction → List ℕ → ℕ
  unfolding meaning_at
  meaning i args = meaning_at i args 0

  unfoldable mutual
    unfolding meaning

    pub pattern_value : (Group → ℕ) → Pattern → ℕ
    pattern_value s (anything g) = s g
    pattern_value s (constant g) = s g
    pattern_value s (value n) = n
    pattern_value s (operation i ps) = meaning i (pattern_values s ps)

    pub pattern_values : (Group → ℕ) → Patterns → List ℕ
    pattern_values s nil = []
    pattern_values s (cons p ps) = pattern_value s p ∷ pattern_values s ps

  -- The pattern and what the rule makes of it have the same value, whatever words the groups stand
  -- for, where the test of the rule holds.
  abbrev pub IsSound : SimplificationRule → Type 0
  IsSound r =
      (s : Group → ℕ)
      → ((g : Group) → IsWord (s g))
      → r.feasible (constants s) ≡ true
      → pattern_value s r.pattern ≡ pattern_value s (r.action (constants s))

  -- A list in which each rule is sound, or stands behind a sound rule that has its pattern and no
  -- test, so that it is never reached.
  infixr 5 ◌▸◌
  pub data IsChecked : Rules → Type 0 where
    checked_end : IsChecked []
    ◌▸◌ :
        {r : SimplificationRule} {rest : Rules} → IsSound r → IsChecked rest → IsChecked (r ∷ rest)
    shadowed :
        {r dead : SimplificationRule} {rest : Rules}
        → IsSound r
        → dead.pattern ≡ r.pattern
        → ((d : Group → ℕ) → r.feasible d ≡ true)
        → IsChecked rest
        → IsChecked (r ∷ dead ∷ rest)

  pub Every-IsChecked : {rules : Rules} → Every IsSound rules → IsChecked rules
  Every-IsChecked done = checked_end
  Every-IsChecked (s & rest) = s ▸ Every-IsChecked rest

  pub IsChecked-append :
      {rules more : Rules} → IsChecked rules → IsChecked more → IsChecked (rules ++ more)
  IsChecked-append checked_end q = q
  IsChecked-append (s ▸ rest) q = s ▸ IsChecked-append rest q
  IsChecked-append (shadowed s e always rest) q = shadowed s e always (IsChecked-append rest q)
