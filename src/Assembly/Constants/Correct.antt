-- ===== src/Assembly/Constants/Correct.antt =====
-- The constant optimiser as a whole: it has a result, and the result runs as the program did.
use mathlib.Core.Path.{subst}
use polynomial.Prelude.{
  ℕ, ◌≡◌, refl, sym, ◌∙◌, Bool, some, List, [], ◌∷◌, ◌==◌, ==_iff, ltb, Bool-cases, inl, inr,
  some_inj, none_ne_some, All,
}
use polynomial.Version.{SvmVersion}
use polynomial.Assembly.Item.{AssemblyItems, push_data, located, no_location}
use polynomial.Assembly.Peephole.Machine.{Chain, Memory, Outcome, run}
use polynomial.Assembly.Constants.{Params, copy_routine}
use polynomial.Assembly.Constants.Sound.{checked-runs}
use polynomial.Assembly.Peephole.Keeps.{HasWord}
use polynomial.Word.{IsWord}
use polynomial.Assembly.Constants.Copy.{
  FirstWord, IsFiled, copy_routine-pushes, copy_routine-IsPlain,
}
use polynomial.Assembly.Constants.Value.{AllWords, count_pushes-AllWords}
use polynomial.Assembly.Constants.Total.{Fits, choose_method-some}
use polynomial.Assembly.Constants.Replace.{Pushes, AllPush, run-replaced}
use polynomial.Assembly.Constants.Optimise.{
  Method, literal, copied, computed, Pending, pending, execute, consider_all, count_pushes,
  find_replacement, replace_constants, Optimised, optimise_constants,
}

module _ (c : Chain) (hash : List ℕ → ℕ) (memory : FirstWord c) where
  open c use {World}

  extended :
      (replacements : List (ℕ × AssemblyItems)) (v : ℕ) (items : AssemblyItems)
      → Pushes c memory.HasMemory v items
      → AllPush c memory.HasMemory replacements
      → AllPush c memory.HasMemory ((v, items) ∷ replacements)
  unfolding find_replacement
  extended replacements v items new all x found h = elim (Bool-cases (v == x)) [
    | inl t ↦
        subst (λ (r : AssemblyItems). Pushes c memory.HasMemory x r) (some_inj (sym (rw t) ∙ h))
          (subst (λ (u : ℕ). Pushes c memory.HasMemory u items) ((==_iff v x).0 t) new)
    | inr f ↦ all x found (sym (rw f) ∙ h)
  ]

  pending-AllPush :
      (replacements : List (ℕ × AssemblyItems)) (v : ℕ) (items : AssemblyItems)
      → Pushes c memory.HasMemory v items
      → AllPush c memory.HasMemory replacements
      → AllPush c memory.HasMemory (pending v items replacements)
  pending-AllPush replacements v [] new all = all
  pending-AllPush replacements v (item ∷ items) new all =
      extended replacements v (item ∷ items) new all

  -- Where the data that was filed stands in the code, the replacements push their constants.
  abbrev IsSound : Pending → Type 1
  IsSound q = All (IsFiled c memory) q.filed → AllPush c memory.HasMemory q.replacements

  execute-IsSound :
      (p : Params) (v : ℕ) (m : Method) (q : Pending)
      → IsWord v
      → Fits p v m
      → IsSound q
      → IsSound (execute hash v m q)
  execute-IsSound p v literal q word fits sound all = sound all
  execute-IsSound p v (copied bytes) q word fits sound (filed, all) =
      pending-AllPush q.replacements v (copy_routine (push_data (hash bytes) (located no_location)))
        (record {
          plain = copy_routine-IsPlain c memory (hash bytes);
          pushes = λ s w there.
              copy_routine-pushes c memory (hash bytes) v s w there word (filed v word (sym fits));
        })
        (sound all)
  execute-IsSound p v (computed routine) q word fits sound all =
      pending-AllPush q.replacements v routine
        (record {
          plain = (checked-runs c p routine [] (v ∷ []) (fits.puts [])).0;
          pushes = λ s w there. (checked-runs c p routine s (v ∷ s) (fits.puts s)).1 w;
        })
        (sound all)

  consider_all-IsSound :
      (is_creation : Bool) (runs : ℕ) (version : SvmVersion) (pushes : List (ℕ × ℕ)) (q : Pending)
      → AllWords pushes
      → IsSound q
      → (q' : Pending) × (consider_all hash is_creation runs version pushes q ≡ some q')
        × IsSound q'
  unfolding consider_all
  consider_all-IsSound is_creation runs version [] q words sound = (q, refl, sound)
  consider_all-IsSound is_creation runs version ((v, n) ∷ pushes) q (word, words) sound =
      let p : Params = record {
        is_creation = is_creation;
        runs = runs;
        multiplicity = n;
        svm_version = version;
      } in
      let (m, chosen, fits) = choose_method-some p v word in
      let (here, done_here, more) =
        consider_all-IsSound is_creation runs version pushes (execute hash v m q) words
          (execute-IsSound p v m q word fits sound) in
      let (q', skipped, more') =
        consider_all-IsSound is_creation runs version pushes q words sound in
      elim (Bool-cases (ltb v 0x100)) [
        | inl t ↦ (q', rw t skipped, more')
        | inr f ↦ (here, rw (f, chosen) done_here, more)
      ]

  -- The result, with the replacements that it was made by.
  optimise_constants-IsSound :
      (is_creation : Bool) (runs : ℕ) (version : SvmVersion) (items : AssemblyItems)
      → All HasWord items
      → (q : Pending) × (optimise_constants hash is_creation runs version items
          ≡ some (record {
            items = replace_constants q.replacements items;
            optimisations = q.optimisations;
            filed = q.filed;
          }))
        × IsSound q
  unfolding optimise_constants find_replacement
  optimise_constants-IsSound is_creation runs version items words =
      let (q, e, sound) =
        consider_all-IsSound is_creation runs version (count_pushes items [])
          (record { replacements = []; optimisations = 0; filed = [] })
          (count_pushes-AllWords items [] words tt) (λ filed v items h. none_ne_some h) in
      (q, rw e refl, sound)

-- For items whose constants are all words and a result that the constant optimiser gives, whatever the
-- settings: where the first word of memory behaves as documented, the data that was filed stands in
-- the code, and memory holds at least a word at the start, every outcome that a run of the items comes
-- to, a fault included, is an outcome of a run of the result.
pub run-optimise_constants :
    (c : Chain) (hash : List ℕ → ℕ) (memory : FirstWord c) (is_creation : Bool) (runs : ℕ)
    (version : SvmVersion) (items : AssemblyItems) (q : Optimised)
    → All HasWord items
    → optimise_constants hash is_creation runs version items ≡ some q
    → All (IsFiled c memory) q.filed
    → (n : ℕ) (m : Memory c) (o : Outcome c) → memory.HasMemory m.1
    → run c items n items m ≡ some o
    → (k : ℕ) × (run c q.items k q.items m ≡ some o)
run-optimise_constants c hash memory is_creation runs version items q words made filed n m o there
      h =
    let (p, e, sound) =
      optimise_constants-IsSound c hash memory is_creation runs version items words in
    let same = some_inj (sym e ∙ made) in
    let filed' = subst (λ (x : Optimised). All (IsFiled c memory) x.filed) (sym same) filed in
    subst (λ (x : Optimised). (k : ℕ) × (run c x.items k x.items m ≡ some o)) same
      (run-replaced c memory.HasMemory p.replacements (sound filed') memory.effect-HasMemory items n
        items m o there h)
