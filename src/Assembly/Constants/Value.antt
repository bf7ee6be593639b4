-- ===== src/Assembly/Constants/Value.antt =====
-- The constant optimiser always has a result.
use polynomial.Prelude.{
  ℕ, ◌≡◌, refl, Bool, some, List, [], ◌∷◌, ◌==◌, ltb, Bool-cases, inl, inr, All,
}
use polynomial.Version.{SvmVersion}
use polynomial.Assembly.Item.{AssemblyItems, op, push}
use polynomial.Assembly.Constants.{Params}
use polynomial.Assembly.Peephole.Keeps.{HasWord}
use polynomial.Word.{IsWord}
use polynomial.Assembly.Constants.Total.{choose_method-some}
use polynomial.Assembly.Constants.Optimise.{
  Pending, execute, consider_all, count_push, count_pushes, replace_constants, Optimised,
  optimise_constants,
}

-- The constants that are counted are words.
abbrev pub AllWords : List (ℕ × ℕ) → Type 0
AllWords pushes = All (λ (q : ℕ × ℕ). IsWord q.0) pushes

count_push-AllWords :
    (d : ℕ) (pushes : List (ℕ × ℕ)) → IsWord d → AllWords pushes → AllWords (count_push d pushes)
unfolding count_push
count_push-AllWords d [] word all = (word, tt)
count_push-AllWords d ((e, n) ∷ pushes) word (first, all) = elim (Bool-cases (d == e)) [
  | inl t ↦ rw t (first, all)
  | inr f ↦ elim (Bool-cases (ltb d e)) [
    | inl t ↦ rw (f, t) (word, (first, all))
    | inr g ↦ rw (f, g) (first, count_push-AllWords d pushes word all)
  ]
]

pub count_pushes-AllWords :
    (items : AssemblyItems) (pushes : List (ℕ × ℕ))
    → All HasWord items
    → AllWords pushes
    → AllWords (count_pushes items pushes)
unfolding count_pushes
count_pushes-AllWords [] pushes words all = all
count_pushes-AllWords (push d a ∷ items) pushes (word, words) all =
    count_pushes-AllWords items (count_push d pushes) words (count_push-AllWords d pushes word all)
count_pushes-AllWords (op _ _ ∷ items) pushes (word, words) all =
    count_pushes-AllWords items pushes words all
count_pushes-AllWords (_ ∷ items) pushes (word, words) all =
    count_pushes-AllWords items pushes words all

consider_all-value :
    (hash : List ℕ → ℕ) (is_creation : Bool) (runs : ℕ) (version : SvmVersion)
    (pushes : List (ℕ × ℕ)) (q : Pending)
    → AllWords pushes
    → (q' : Pending) × (consider_all hash is_creation runs version pushes q ≡ some q')
unfolding consider_all
consider_all-value hash is_creation runs version [] q words = (q, refl)
consider_all-value hash is_creation runs version ((v, n) ∷ pushes) q (word, words) =
    let p : Params = record {
      is_creation = is_creation;
      runs = runs;
      multiplicity = n;
      svm_version = version;
    } in
    let (m, chosen, fits) = choose_method-some p v word in
    let (here, done_here) =
      consider_all-value hash is_creation runs version pushes (execute hash v m q) words in
    let (q', skipped) = consider_all-value hash is_creation runs version pushes q words in
    elim (Bool-cases (ltb v 0x100)) [
      | inl t ↦ (q', rw t skipped)
      | inr f ↦ (here, rw (f, chosen) done_here)
    ]

-- Where all constants of the items are words, the constant optimiser has a result, whatever the
-- settings and the hash: its searches end and no assertion fails.
pub optimise_constants-value :
    (hash : List ℕ → ℕ) (is_creation : Bool) (runs : ℕ) (version : SvmVersion)
    (items : AssemblyItems)
    → All HasWord items
    → (q : Optimised) × (optimise_constants hash is_creation runs version items ≡ some q)
unfolding optimise_constants
optimise_constants-value hash is_creation runs version items words =
    let (q, e) =
      consider_all-value hash is_creation runs version (count_pushes items [])
        (record { replacements = []; optimisations = 0; filed = [] })
        (count_pushes-AllWords items [] words tt) in
    (
      record {
        items = replace_constants q.replacements items;
        optimisations = q.optimisations;
        filed = q.filed;
      },
      rw e refl,
    )
