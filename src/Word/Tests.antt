-- ===== src/Word/Tests.antt =====
-- The theorems on words at some of them.
use polynomial.Prelude.{◌^◌, ◌%◌, ◌≡◌, arith}
use polynomial.Word
use polynomial.Word.{IsWord, evaluate}
use polynomial.Word.Powers.{exp-eq-pow}

exp-eq-pow_example : Word.exp 3 5 ≡ 3 ^ 5 % 2 ^ 256
exp-eq-pow_example = exp-eq-pow 3 5 (omega arith)
