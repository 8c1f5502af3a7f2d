-- ===== src/BlockBlob/Blocks.antt =====
-- Which ids are set and which blocks are staged, chunk by chunk.
use axxx.Prelude.{
  some-injective, ℕ, zero, suc, Bool, true, false, List, [], ◌∷◌, ◌++◌, Option, some, ◌≡◌, refl,
  sym, ap, ◌∙◌, get_elem?, set, replicate, length, All, String,
}
use axxx.Writer.{Bytes}
use axxx.BlockBlob.{staged}

-- A block of the file with the id that is generated for it.
pub record Block : Type 0 where
  pub id : String
  pub contents : Bytes

abbrev pub Distinct : List Block → Type 0
Distinct [] = Unit
Distinct (e ∷ es) = All (λ f. ¬ (f.id ≡ e.id)) es × Distinct es

-- The bytes of all blocks.
abbrev pub bytes_of : List Block → Bytes
bytes_of [] = []
bytes_of (e ∷ es) = e.contents ++ bytes_of es

-- The ids of the blocks that are done are set and their blocks staged, the others are not set.
pub data Filled (u : String → Option Bytes) : List Bool → List String → List Block → Type 0 where
  nothing : Filled u [] [] []
  waiting :
      {ds : List Bool} {xs : List String} {es : List Block} {x : String} (e : Block)
      → x ≡ ""
      → Filled u ds xs es
      → Filled u (false ∷ ds) (x ∷ xs) (e ∷ es)
  done :
      {ds : List Bool} {xs : List String} {es : List Block} {x : String} (e : Block)
      → x ≡ e.id
      → u e.id ≡ some e.contents
      → Filled u ds xs es
      → Filled u (true ∷ ds) (x ∷ xs) (e ∷ es)

pub Filled-new :
    (u : String → Option Bytes) (es : List Block)
    → Filled u (replicate (length es) false) (replicate (length es) "") es
Filled-new u [] = nothing
Filled-new u (e ∷ es) = waiting e refl (Filled-new u es)

-- A block with another id is staged.
Filled-other :
    (u after : String → Option Bytes) (id : String) {ds : List Bool} {xs : List String}
    {es : List Block}
    → ((other : String) → ¬ (other ≡ id) → after other ≡ u other)
    → All (λ (f : Block). ¬ (f.id ≡ id)) es
    → Filled u ds xs es
    → Filled after ds xs es
Filled-other u after id same new nothing = nothing
Filled-other u after id same new (waiting e unset f) =
    waiting e unset (Filled-other u after id same new.1 f)
Filled-other u after id same new (done e is_set there f) =
    done e is_set (same e.id new.0 ∙ there) (Filled-other u after id same new.1 f)

-- The first block differs from any later one.
Distinct-head :
    (e f : Block) (es : List Block) (i : ℕ)
    → All (λ (g : Block). ¬ (g.id ≡ e.id)) es
    → get_elem? es i ≡ some f
    → ¬ (e.id ≡ f.id)
Distinct-head e f [] i new here = absurd cc
Distinct-head e f (g ∷ es) zero new here =
    λ same. new.0 (ap Block.id (some-injective here) ∙ sym same)
Distinct-head e f (g ∷ es) (suc i) new here = Distinct-head e f es i new.1 here

-- One more block is done.
pub Filled-set :
    (u after : String → Option Bytes) (i : ℕ) (e : Block) {ds : List Bool} {xs : List String}
    {es : List Block}
    → after e.id ≡ some e.contents
    → ((other : String) → ¬ (other ≡ e.id) → after other ≡ u other)
    → Distinct es
    → get_elem? ds i ≡ some false
    → get_elem? es i ≡ some e
    → Filled u ds xs es
    → Filled after (set ds i true) (set xs i e.id) es
Filled-set u after i e now same distinct free here nothing = nothing
Filled-set u after zero e now same distinct free here (waiting g unset f) =
    let this = some-injective here in
    done g (ap Block.id (sym this)) (rw this now)
      (Filled-other u after e.id same (rw⁻¹ this distinct.0) f)
Filled-set u after (suc i) e now same distinct free here (waiting g unset f) =
    waiting g unset (Filled-set u after i e now same distinct.1 free here f)
Filled-set u after zero e now same distinct free here (done g is_set there f) = absurd cc
Filled-set u after (suc i) e now same distinct free here (done {es = es} g is_set there f) =
    done g is_set (same g.id (Distinct-head g e es i distinct.0 here) ∙ there)
      (Filled-set u after i e now same distinct.1 free here f)

-- The id of a block that is not done is not set.
pub Filled-unset :
    {u : String → Option Bytes} (i : ℕ) {ds : List Bool} {xs : List String} {es : List Block}
    → get_elem? ds i ≡ some false
    → Filled u ds xs es
    → get_elem? xs i ≡ some ""
Filled-unset i free nothing = absurd cc
Filled-unset zero free (waiting e unset f) = ap some unset
Filled-unset (suc i) free (waiting e unset f) = Filled-unset i free f
Filled-unset zero free (done e is_set there f) = absurd cc
Filled-unset (suc i) free (done e is_set there f) = Filled-unset i free f

-- With all blocks done their ids are the list, and what is staged under them are all bytes.
pub Filled-whole :
    (u : String → Option Bytes) {ds : List Bool} {xs : List String} {es : List Block}
    → All (λ d. d ≡ true) ds
    → Filled u ds xs es
    → staged u xs ≡ some (bytes_of es)
Filled-whole u all nothing = refl
Filled-whole u all (waiting e unset f) = absurd cc
Filled-whole u all (done e is_set there f) = rw (is_set, there, Filled-whole u all.1 f) refl

pub length-Filled :
    (u : String → Option Bytes) {ds : List Bool} {xs : List String} {es : List Block}
    → Filled u ds xs es
    → length xs ≡ length es
length-Filled u nothing = refl
length-Filled u (waiting e unset f) = ap suc (length-Filled u f)
length-Filled u (done e is_set there f) = ap suc (length-Filled u f)
