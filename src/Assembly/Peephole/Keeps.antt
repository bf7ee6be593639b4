-- ===== src/Assembly/Peephole/Keeps.antt =====
-- What each method of the optimiser keeps: from a stack of words, the items that it emits do what
-- the items of its window do, unless those fault.
use polynomial.Prelude.{ℕ, ◌≡◌, some, List, All}
use polynomial.Word.{IsWord}
use polynomial.Assembly.Item.{AssemblyItem, AssemblyItems, push}
use polynomial.Assembly.Peephole.Machine.{Chain, Memory}
use polynomial.Assembly.Peephole.Plain.{IsPlain, perform_all}

-- The literals of the items are words.
abbrev pub HasWord : AssemblyItem → Type 0
HasWord (push d _) = IsWord d
HasWord _ = Unit

module _ (c : Chain) where
  open c use {World, effect, address, value, effect_ret, effect_quiet}

  -- A window and what is emitted for it.
  pub record Keeps (window emitted : AssemblyItems) : Type 1 where
    pub plain : All IsPlain window
    pub still_plain : All IsPlain emitted
    pub same :
        (s : List ℕ) (w : World) (m : Memory c)
        → All IsWord s
        → perform_all c window (s, w) ≡ some m
        → perform_all c emitted (s, w) ≡ some m
