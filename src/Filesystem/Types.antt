-- ===== src/Filesystem/Types.antt =====
-- Which filesystems and drives pass.
use codex_storage_doctor.Prelude.{
  String, ◌==◌, ◌≡◌, refl, sym, ap, subst, eq_iff, ◌↔◌, Bool, true, false, not, ◌&&◌, ◌||◌, Option,
  none, some, List, [], ◌∷◌, contains, if◌then◌else◌,
}
use mathlib.Core.Option.{some_inj}
use codex_storage_doctor.Filesystem.{remote_filesystems, local_filesystems, type_reason}

-- No name of the first list is in the second.
abbrev disjoint : List String → List String → Bool
disjoint [] names = true
disjoint (x ∷ xs) names = not (contains names x) && disjoint xs names

disjoint_head :
    (e n d c m : Bool)
    → (not n && d) ≡ true
    → (e || c) ≡ true
    → (e ≡ true → m ≡ n)
    → (d ≡ true → c ≡ true → m ≡ false)
    → m ≡ false
disjoint_head e true d c m h k f g = cc
disjoint_head true false d c m h k f g = f refl
disjoint_head false false d c m h k f g = g h k

contains-disjoint :
    (xs names : List String) (s : String)
    → disjoint xs names ≡ true
    → contains xs s ≡ true
    → contains names s ≡ false
contains-disjoint [] names s h k = cc
contains-disjoint (x ∷ xs) names s h k =
    disjoint_head (x == s) (contains names x) (disjoint xs names) (contains xs s) (contains names s)
      h k (λ e. ap (λ t. contains names t) (sym ((eq_iff x s).0 e)))
      (λ h' k'. contains-disjoint xs names s h' k')

local_decides :
    (a b : Bool) (m n : String)
    → (a ≡ true → b ≡ false)
    → ((if a then some m else if not b then some n else none) ≡ none) ↔ (b ≡ true)
local_decides true true m n h = let p = h refl in (λ q. cc, λ q. cc)
local_decides true false m n h = (λ q. cc, λ q. cc)
local_decides false true m n h = (λ q. refl, λ q. refl)
local_decides false false m n h = (λ q. cc, λ q. cc)

some_local :
    (fs x : String)
    → some fs ≡ some x
    → contains local_filesystems x ≡ true
    → contains local_filesystems fs ≡ true
some_local fs x e l =
    let p = some_inj.0 e in subst (λ t. contains local_filesystems t ≡ true) (sym p) l

-- A filesystem type passes exactly when it is one of the local types; an unknown type does not.
pub type_reason-local :
    (type : Option String)
    → (type_reason type ≡ none)
      ↔ ((fs : String) × (type ≡ some fs) × (contains local_filesystems fs ≡ true))
unfolding type_reason
type_reason-local none = (λ h. cc, λ (fs, e, l). cc)
type_reason-local (some fs) =
    let a = contains remote_filesystems fs in
    let b = contains local_filesystems fs in
    let d =
      local_decides a b _ _ (contains-disjoint remote_filesystems local_filesystems fs refl) in
    (λ h. (fs, refl, d.0 h), λ (x, e, l). d.1 (some_local fs x e l))
