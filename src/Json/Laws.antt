-- ===== src/Json/Laws.antt =====
-- How the dict operations `get`, `put` and `without` fit together.
use codex_storage_doctor.Prelude.{
  String, ◌==◌, ◌≡◌, refl, sym, ap, subst, eq_iff, eq_refl, true, false, List, Bool-cases, inl, inr,
  contains, if◌then◌else◌,
}
use codex_storage_doctor.Json.{Json, Fields, null, str, end, field, get, put, without, is_text}

pub get-put : (k : String) (v : Json) (fs : Fields) → get k (put k v fs) ≡ v
unfolding get put
get-put k v end = rw (eq_refl k) refl
get-put k v (field n x rest) = elim (Bool-cases (n == k)) [
  | inl e ↦ rw (e, e) refl
  | inr e ↦ rw (e, e) (get-put k v rest)
]

pub get-put_other :
    (k n : String) (v : Json) (fs : Fields) → (n == k) ≡ false → get k (put n v fs) ≡ get k fs
unfolding get put
get-put_other k n v end h = rw h refl
get-put_other k n v (field m x rest) h = elim (Bool-cases (m == n)) [
  | inl e ↦
      let other = subst (λ t. (t == k) ≡ false) (sym ((eq_iff m n).0 e)) h in rw (e, other) refl
  | inr e ↦ rw e (ap (λ r. if m == k then x else r) (get-put_other k n v rest h))
]

-- A key that is left out may be set before.
pub without-put :
    (keys : List String) (k : String) (v : Json) (fs : Fields)
    → contains keys k ≡ true
    → without keys (put k v fs) ≡ without keys fs
unfolding without put
without-put keys k v end h = rw h refl
without-put keys k v (field n x rest) h = elim (Bool-cases (n == k)) [
  | inl e ↦
      let held = subst (λ t. contains keys t ≡ true) (sym ((eq_iff n k).0 e)) h in rw (e, held) refl
  | inr e ↦ rw (e, without-put keys k v rest h) refl
]

pub is_text-eq : (s : String) (v : Json) → is_text s v ≡ true → v ≡ str s
unfolding is_text
is_text-eq s (str t) h = ap (λ u. str u) ((eq_iff t s).0 h)
is_text-eq s null h = cc
is_text-eq s v h = cc

pub is_text_refl : (s : String) → is_text s (str s) ≡ true
unfolding is_text
is_text_refl s = eq_refl s
