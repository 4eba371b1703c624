-- ===== src/Models.antt =====
-- models.py: what the inspection, the process scanners and the sampling report, and the dicts that
-- they print. A path is kept as its text. Numbers are ints: an estimate of bytes that SQLite gives as
-- a float is not modelled.
pub mod Scan
pub mod Ids
pub mod Inspection
pub mod Sample
use Prim.Native.String.{compare}
use Prim.Native.Nat.{Ordering}
use codex_storage_doctor.Prelude.{
  ℕ, suc, String, ◌<>◌, Bool, true, false, Option, none, some, List, [], ◌∷◌, map,
}
use codex_storage_doctor.Json.{
  Json, Items, Fields, null, bool, num, str, arr, obj, nil, cons, end, field, pos,
}
use codex_storage_doctor.Decimal.{padded}

unfoldable pub items : List Json → Items
items [] = nil
items (x ∷ xs) = cons x (items xs)

module _ {A : Type 0} where
  -- `[f(x) for x in xs]` as a JSON list
  unfoldable pub list_of : (A → Json) → List A → Json
  unfolding items
  list_of f xs = arr (items (map f xs))

  -- None, or a value.
  unfoldable pub optional : (A → Json) → Option A → Json
  optional f none = null
  optional f (some a) = f a

unfoldable pub texts : List String → Json
unfolding list_of
texts = list_of (λ s. str s)

unfoldable pub natural : ℕ → Json
natural n = num (pos n)

unfoldable pub insert_text : String → List String → List String
insert_text s [] = s ∷ []
insert_text s (t ∷ ts) = elim (compare s t) [
  | Ordering.lt ↦ s ∷ t ∷ ts
  | Ordering.eq ↦ t ∷ ts
  | Ordering.gt ↦ t ∷ insert_text s ts
]

-- `sorted({…})` for texts: each once, in the order of the code points
unfoldable pub sorted_set : List String → List String
unfolding insert_text
sorted_set [] = []
sorted_set (s ∷ ts) = insert_text s (sorted_set ts)

-- `[f"{prefix}{index:03d}" for index, _ in enumerate(items, start=n)]`
unfoldable pub numbered {ℓ} : {A : Type ℓ} → String → ℕ → List A → List String
unfolding padded
numbered label n [] = []
numbered label n (x ∷ xs) = (label <> padded n) ∷ numbered label (suc n) xs

pub data Severity : Type 0 where
  info warning error : Severity

unfoldable pub severity_value : Severity → String
severity_value Severity.info = "info"
severity_value Severity.warning = "warning"
severity_value Severity.error = "error"

pub record Finding : Type 0 where
  pub code : String
  pub message : String
  pub severity : Severity
  pub partial : Bool

unfoldable pub finding_dict : Finding → Json
unfolding severity_value
finding_dict f = obj (
    field "code" (str f.code) (
      field "detail" (str f.message) (
        field "severity" (str (severity_value f.severity)) (field "partial" (bool f.partial) end))))

pub record DatabaseCandidate : Type 0 where
  pub path : String
  pub report_id : String
  pub sources : List String
  pub exists : Bool
  pub known_filename : Bool
  pub evidence_labels : List String
  pub mutation_allowed : Bool
  pub refusal_reason : Option String

unfoldable pub candidate_dict : Bool → DatabaseCandidate → Fields
unfolding texts optional
candidate_dict reveal_paths c = field "id" (str c.report_id) (
    field "sources" (texts c.sources) (
      field "exists" (bool c.exists) (
        field "known_filename" (bool c.known_filename) (
          field "evidence_labels" (texts c.evidence_labels) (
            field "mutation_allowed" (bool c.mutation_allowed) (
              field "refusal_reason" (optional (λ s. str s) c.refusal_reason) (elim reveal_paths [
                | true ↦ field "revealed_path" (str c.path) end
                | false ↦ end
              ])))))))

assign_from : ℕ → List DatabaseCandidate → List DatabaseCandidate
unfolding padded
assign_from n [] = []
assign_from n (c ∷ cs) = record c { report_id = "database-" <> padded n } ∷ assign_from (suc n) cs

unfoldable pub assign_candidate_report_ids : List DatabaseCandidate → List DatabaseCandidate
unfolding assign_from
assign_candidate_report_ids cs = assign_from 1 cs
