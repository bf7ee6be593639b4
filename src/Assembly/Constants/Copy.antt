-- ===== src/Assembly/Constants/Copy.antt =====
-- The routine that reads a constant from the data of the code.
use mathlib.Core.Path.{subst}
use polynomial.Instruction.{Instruction}
use polynomial.Prelude.{ℕ, ◌≡◌, refl, some, List, [], ◌∷◌, All}
use polynomial.Instruction
use polynomial.Instruction.Info.{instruction_info}
use polynomial.Instruction.Numbers
use polynomial.Word.{IsWord, evaluate}
use polynomial.Assembly.Item.{push_data, located, no_location}
use polynomial.Assembly.Semantic.{alters_control_flow}
use polynomial.Assembly.Peephole.Machine.{Chain, perform, operate}
use polynomial.Assembly.Peephole.Plain.{IsPlain, perform_all}
use polynomial.Assembly.Constants.{copy_routine, to_big_endian}

-- The first word of memory, as the documentation of the machine has it. Once memory holds a word,
-- which no instruction undoes, MLOAD of the first word changes nothing, the size of memory included,
-- and MSTORE to it only changes that word.
pub record FirstWord (c : Chain) : Type 1 where
  pub HasMemory : c.World → Type 0
  pub effect-HasMemory :
      (i : Instruction) (args : List ℕ) (w : c.World)
      → HasMemory w
      → HasMemory (c.effect i args w).1
  pub read : c.World → ℕ
  pub write : ℕ → c.World → c.World
  pub mload_first :
      (w : c.World) → HasMemory w → c.effect Instruction.mload (0 ∷ []) w ≡ (read w ∷ [], w)
  pub mstore_first :
      (v : ℕ) (w : c.World)
      → HasMemory w
      → c.effect Instruction.mstore (0 ∷ v ∷ []) w ≡ ([], write v w)
  pub read-write : (v : ℕ) (w : c.World) → HasMemory w → IsWord v → read (write v w) ≡ v
  pub write-read : (v : ℕ) (w : c.World) → HasMemory w → IsWord v → write (read w) (write v w) ≡ w

module _ (c : Chain) (memory : FirstWord c) where
  open c use {World}

  -- The code holds the bytes of a word: CODECOPY writes it to memory from the offset that the
  -- assembler pushes for the data filed under the hash.
  abbrev pub HasData : ℕ → ℕ → Type 0
  HasData h v =
      (w : World)
      → memory.HasMemory w
      → c.effect Instruction.codecopy (0 ∷ c.value (push_data h (located no_location)) ∷ 32 ∷ []) w
        ≡ ([], memory.write v w)

  -- What a filed hash and its bytes mean.
  abbrev pub IsFiled : ℕ × List ℕ → Type 0
  IsFiled (h, bytes) = (v : ℕ) → IsWord v → to_big_endian 32 v ≡ bytes → HasData h v

  write-HasMemory : (v : ℕ) (w : World) → memory.HasMemory w → memory.HasMemory (memory.write v w)
  write-HasMemory v w open_w =
      subst (λ (q : List ℕ × World). memory.HasMemory q.1) (memory.mstore_first v w open_w)
        (memory.effect-HasMemory Instruction.mstore (0 ∷ v ∷ []) w open_w)

  pub copy_routine-pushes :
      (h v : ℕ) (s : List ℕ) (w : World)
      → memory.HasMemory w
      → IsWord v
      → HasData h v
      → perform_all c (copy_routine (push_data h (located no_location))) (s, w) ≡ some (v ∷ s, w)
  unfolding perform_all perform operate evaluate instruction_info Numbers.is_dup_instruction
      Numbers.is_swap_instruction Numbers.get_dup_number Numbers.get_swap_number
  copy_routine-pushes h v s w open_w word filed =
      let still = write-HasMemory v w open_w in
      rw (memory.mload_first w open_w, filed w open_w)
        (rw (memory.mload_first (memory.write v w) still, memory.read-write v w open_w word)
          (rw
            (
              memory.mstore_first (memory.read w) (memory.write v w) still,
              memory.write-read v w open_w word,
            )
            refl))

  pub copy_routine-IsPlain :
      (d : ℕ) → All IsPlain (copy_routine (push_data d (located no_location)))
  unfolding alters_control_flow instruction_info
  copy_routine-IsPlain d = (
    (refl, refl),
    (
      (refl, refl),
      (
        (refl, refl),
        (
          (refl, refl),
          (
            (refl, refl),
            (
              (refl, refl),
              ((refl, refl), ((refl, refl), ((refl, refl), ((refl, refl), ((refl, refl), (tt)))))),
            ),
          ),
        ),
      ),
    ),
  )
