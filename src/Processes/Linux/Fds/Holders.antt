-- ===== src/Processes/Linux/Fds/Holders.antt =====
-- The holders that lsof names, at the end of a scan on Linux: each of them is observed.
use codex_storage_doctor.Prelude.{
  String, ◌≡◌, refl, subst, ◌∙◌, ◌⊎◌, inl, inr, Bool, true, false, ◌||◌, Option, none, some, List,
  [], ◌∷◌, Bool-cases, leb, eqb, any_of, is_nil,
}
use codex_storage_doctor.Mitigation.Gate.Verdict.{true_false}
use codex_storage_doctor.Processes.{Database, database_of_id}
use codex_storage_doctor.Processes.Lsof.{Holder}
use codex_storage_doctor.Processes.Lsof.Fill.{AllFilled}
use codex_storage_doctor.Processes.Linux.{
  Tally, hold, hold_ids, insert_holder, sort_holders, take_holder, remaining_holders,
}
use codex_storage_doctor.Processes.Linux.Fds.Tallies.{Tracked, append_some}

insert-AllFilled :
    (h : Holder) (hs : List Holder)
    → is_nil h.open_ids ≡ false
    → AllFilled hs
    → AllFilled (insert_holder h hs)
unfolding insert_holder
insert-AllFilled h [] e k = (e, tt)
insert-AllFilled h (x ∷ xs) e (f, k) = elim (Bool-cases (leb h.pid x.pid)) [
  | inl p ↦ rw p (e, (f, k))
  | inr p ↦ rw p (f, insert-AllFilled h xs e k)
]

pub sort-AllFilled : (hs : List Holder) → AllFilled hs → AllFilled (sort_holders hs)
unfolding sort_holders
sort-AllFilled [] k = tt
sort-AllFilled (h ∷ hs) (e, k) = insert-AllFilled h (sort_holders hs) e (sort-AllFilled hs k)

insert_held : (h : Holder) (hs : List Holder) → is_nil (insert_holder h hs) ≡ false
unfolding insert_holder
insert_held h [] = refl
insert_held h (x ∷ xs) = elim (Bool-cases (leb h.pid x.pid)) [
  | inl p ↦ rw p refl
  | inr p ↦ rw p refl
]

pub sort_held : (hs : List Holder) → is_nil hs ≡ false → is_nil (sort_holders hs) ≡ false
unfolding sort_holders
sort_held [] k = cc
sort_held (h ∷ hs) k = insert_held h (sort_holders hs)

hold_partial : (c : Bool) (path : String) (t : Tally) → (hold c path t).partial ≡ t.partial
unfolding hold
hold_partial c path t = refl

hold_ids-partial :
    (c : Bool) (ids : List String) (t : Tally) → (hold_ids c ids t).partial ≡ t.partial
unfolding hold_ids
hold_ids-partial c [] t = refl
hold_ids-partial c (i ∷ ids) t = hold_ids-partial c ids _ ∙ found (database_of_id i t.databases)
  where
    found :
        (o : Option Database)
        → (elim o as (λ _. Tally) [ none ↦ t | some d ↦ hold c d.path t ]).partial ≡ t.partial
    found none = refl
    found (some d) = hold_partial c d.path t

take_holder-partial : (h : Holder) (t : Tally) → (take_holder h t).partial ≡ t.partial
unfolding take_holder
take_holder-partial h t =
    elim (Bool-cases (any_of (λ p. eqb p h.pid) t.observed_pids || is_nil h.open_ids)) [
      | inl e ↦ rw e refl
      | inr e ↦ rw e (hold_ids-partial _ h.open_ids t)
    ]

take_holder_held :
    (h : Holder) (t : Tally)
    → is_nil t.observations ≡ false
    → is_nil (take_holder h t).observations ≡ false
unfolding take_holder
take_holder_held h t k =
    elim (Bool-cases (any_of (λ p. eqb p h.pid) t.observed_pids || is_nil h.open_ids)) [
      | inl e ↦ rw e k
      | inr e ↦ rw e (append_some _ _)
    ]

-- A holder with a database open is among the observations afterwards.
take_holder_observed :
    (b : Bool) (h : Holder) (t : Tally)
    → Tracked b t
    → is_nil h.open_ids ≡ false
    → is_nil (take_holder h t).observations ≡ false
unfolding take_holder
take_holder_observed b h t k held =
    elim (Bool-cases (any_of (λ p. eqb p h.pid) t.observed_pids || is_nil h.open_ids)) [
      | inl e ↦ rw e (known k.seen e)
      | inr e ↦ rw e (append_some _ _)
    ]
  where
    known :
        (t.observed_pids ≡ []) ⊎ (is_nil t.observations ≡ false)
        → any_of (λ p. eqb p h.pid) t.observed_pids || is_nil h.open_ids ≡ true
        → is_nil t.observations ≡ false
    known (inr p) e = p
    known (inl p) e =
        true_false held
          (subst (λ pids. any_of (λ p. eqb p h.pid) pids || is_nil h.open_ids ≡ true) p e)

pub remaining-partial :
    (hs : List Holder) (t : Tally) → (remaining_holders hs t).partial ≡ t.partial
unfolding remaining_holders
remaining-partial [] t = refl
remaining-partial (h ∷ hs) t = remaining-partial hs (take_holder h t) ∙ take_holder-partial h t

remaining_held :
    (hs : List Holder) (t : Tally)
    → is_nil t.observations ≡ false
    → is_nil (remaining_holders hs t).observations ≡ false
unfolding remaining_holders
remaining_held [] t k = k
remaining_held (h ∷ hs) t k = remaining_held hs (take_holder h t) (take_holder_held h t k)

-- Where lsof names a holder, the scan observes a process.
pub remaining_observed :
    (b : Bool) (hs : List Holder) (t : Tally)
    → Tracked b t
    → AllFilled hs
    → is_nil hs ≡ false
    → is_nil (remaining_holders hs t).observations ≡ false
unfolding remaining_holders
remaining_observed b [] t k f n = cc
remaining_observed b (h ∷ hs) t k (e, f) n =
    remaining_held hs (take_holder h t) (take_holder_observed b h t k e)
