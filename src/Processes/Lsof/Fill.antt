-- ===== src/Processes/Lsof/Fill.antt =====
-- What each line of lsof's output leaves of the holders: all but the current one have a database open.
use codex_storage_doctor.Prelude.{
  ℕ, ◌≡◌, refl, sym, ap, subst, ◌∙◌, ◌⊎◌, inl, inr, String, Bool, true, false, not, ◌&&◌, ◌||◌,
  Option, none, some, List, [], ◌∷◌, ◌++◌, Bool-cases, eqb, is_nil, contains, arith, if◌then◌else◌,
}
use codex_storage_doctor.Decimal.{is_number, number}
use codex_storage_doctor.Mitigation.Gate.Verdict.{true_false}
use codex_storage_doctor.Processes.{Database}
use codex_storage_doctor.Processes.Lsof.{
  Holder, set_default, edit, Parser, corrupt, add_id, finish_record, start_record, take_command,
  record_name,
}

-- Each holder has a database open.
abbrev pub AllFilled : List Holder → Type 0
AllFilled [] = Unit
AllFilled (h ∷ hs) = (is_nil h.open_ids ≡ false) × AllFilled hs

-- Each holder has a database open, but for the current one, whose record has matched none so far.
abbrev pub Fill : Option ℕ → Bool → Holder → Type 0
Fill current matched h = (is_nil h.open_ids ≡ false) ⊎ ((matched ≡ false) × (current ≡ some h.pid))

abbrev pub AllFill : Option ℕ → Bool → List Holder → Type 0
AllFill current matched [] = Unit
AllFill current matched (h ∷ hs) = Fill current matched h × AllFill current matched hs

-- The invariant of the loop, once a line was read.
pub record Good (p : Parser) : Type 0 where
  pub fills : p.malformed ≡ false → AllFill p.current_pid p.matched_target p.holders
  pub held : p.malformed ≡ false → is_nil p.holders ≡ false

-- The same with no line read so far.
abbrev pub Fresh : Parser → Type 0
Fresh p = (p.current_pid ≡ none) × (p.holders ≡ [])

pub malformed-Good : (p : Parser) → p.malformed ≡ true → Good p
malformed-Good p e = record { fills = λ d. true_false d e; held = λ d. true_false d e }

no_current : (hs : List Holder) (matched : Bool) → AllFill none matched hs → AllFilled hs
no_current [] matched h = tt
no_current (x ∷ xs) matched (inl e, h) = (e, no_current xs matched h)
no_current (x ∷ xs) matched (inr (m, c), h) = cc

all_matched : (hs : List Holder) (current : Option ℕ) → AllFill current true hs → AllFilled hs
all_matched [] current h = tt
all_matched (x ∷ xs) current (inl e, h) = (e, all_matched xs current h)
all_matched (x ∷ xs) current (inr (m, c), h) = cc

filled :
    (current : Option ℕ) (matched : Bool) (hs : List Holder)
    → AllFilled hs
    → AllFill current matched hs
filled current matched [] h = tt
filled current matched (x ∷ xs) (e, h) = (inl e, filled current matched xs h)

-- The cases of the end of a record, where a match is wanted.
finish_by :
    (P : Parser → Type 0) (p : Parser)
    → (p.current_pid ≡ none → P p)
    → P (corrupt p)
    → (p.matched_target ≡ true → P p)
    → P (finish_record true p)
unfolding finish_record
finish_by P p idle bad good = go p.current_pid refl
  where
    tested :
        (command name matched : Bool)
        → p.matched_target ≡ matched
        → P (if not command || not name || (true && not matched) then corrupt p else p)
    tested true true true e = good e
    tested true true false e = bad
    tested true false matched e = bad
    tested false name matched e = bad

    go :
        (o : Option ℕ)
        → p.current_pid ≡ o
        → P (elim o [
          | none ↦ p
          | some pid ↦
              if not p.saw_command || not p.saw_name || (true && not p.matched_target)
              then corrupt p
              else p
        ])
    go none e = idle e
    go (some pid) e = tested p.saw_command p.saw_name p.matched_target refl

abbrev pub Fills : Parser → Type 0
Fills p = p.malformed ≡ false → AllFill p.current_pid p.matched_target p.holders

pub finish-AllFilled :
    (p : Parser)
    → Fills p
    → (finish_record true p).malformed ≡ false
    → AllFilled (finish_record true p).holders
unfolding corrupt
finish-AllFilled p fills =
    finish_by (λ q. q.malformed ≡ false → AllFilled q.holders) p
      (λ e d.
        no_current p.holders _ (subst (λ o. AllFill o p.matched_target p.holders) e (fills d)))
      (λ d. true_false d refl)
      (λ e d. all_matched p.holders _ (subst (λ m. AllFill p.current_pid m p.holders) e (fills d)))

pub finish_held :
    (p : Parser) → is_nil p.holders ≡ false → is_nil (finish_record true p).holders ≡ false
unfolding corrupt
finish_held p h = finish_by (λ q. is_nil q.holders ≡ false) p (λ _. h) h (λ _. h)

pub was_fine : (p : Parser) → (finish_record true p).malformed ≡ false → p.malformed ≡ false
unfolding corrupt
was_fine p =
    finish_by (λ q. q.malformed ≡ false → p.malformed ≡ false) p (λ _ d. d) (λ d. true_false d refl)
      (λ _ d. d)

default-AllFill :
    (n : ℕ) (hs : List Holder) → AllFilled hs → AllFill (some n) false (set_default n hs)
unfolding set_default
default-AllFill n [] h = (inr (refl, refl), tt)
default-AllFill n (x ∷ xs) (e, h) = elim (Bool-cases (eqb x.pid n)) [
  | inl p ↦ rw p (inl e, filled (some n) false xs h)
  | inr p ↦ rw p (inl e, default-AllFill n xs h)
]

default_held : (n : ℕ) (hs : List Holder) → is_nil (set_default n hs) ≡ false
unfolding set_default
default_held n [] = refl
default_held n (x ∷ xs) = elim (Bool-cases (eqb x.pid n)) [ inl p ↦ rw p refl | inr p ↦ rw p refl ]

pub start_record-Good : (value : String) (p : Parser) → Fills p → Good (start_record true value p)
unfolding start_record corrupt
start_record-Good value p fills = elim (Bool-cases (is_number value)) [
  | inr e ↦ rw e (malformed-Good _ refl)
  | inl e ↦ rw e (record {
    fills = λ d. default-AllFill (number value) _ (finish-AllFilled p fills d);
    held = λ d. default_held (number value) _;
  })
]

eqb-eq : (a b : ℕ) → eqb a b ≡ true → a ≡ b
eqb-eq a b h = ground arith

eqb_same : (a : ℕ) → eqb a a ≡ true
eqb_same a = ground arith

some-injective : (a b : ℕ) → some a ≡ some b → a ≡ b
some-injective a b e = ap (λ o. elim o [ none ↦ a | some n ↦ n ]) e

append_held : (xs : List String) (i : String) → is_nil (xs ++ (i ∷ [])) ≡ false
append_held [] i = refl
append_held (x ∷ xs) i = refl

add_id-held : (i : String) (h : Holder) → is_nil (add_id i h).open_ids ≡ false
unfolding add_id
add_id-held i h = go h.open_ids refl
  where
    go : (ids : List String) → h.open_ids ≡ ids → is_nil (add_id i h).open_ids ≡ false
    go [] e = rw e refl
    go (x ∷ xs) e = elim (Bool-cases (contains h.open_ids i)) [
      | inl p ↦ rw (p, e) refl
      | inr p ↦ rw p (append_held h.open_ids i)
    ]

edit_held : (f : Holder → Holder) (pid : ℕ) (hs : List Holder) → is_nil (edit f pid hs) ≡ is_nil hs
unfolding edit
edit_held f pid [] = refl
edit_held f pid (h ∷ hs) = refl

-- A match in the record of the current process
matched_fill :
    (i : String) (pid : ℕ) (matched : Bool) (current : Option ℕ) (hs : List Holder)
    → current ≡ some pid
    → AllFill current matched hs
    → AllFill current true (edit (add_id i) pid hs)
unfolding edit
matched_fill i pid matched current [] e h = tt
matched_fill i pid matched current (x ∷ xs) e (k, h) = (
  elim (Bool-cases (eqb x.pid pid)) [
    | inl p ↦ rw p (inl (add_id-held i x))
    | inr p ↦ rw p (inl (kept p k))
  ],
  matched_fill i pid matched current xs e h,
)
  where
    kept : eqb x.pid pid ≡ false → Fill current matched x → is_nil x.open_ids ≡ false
    kept p (inl q) = q
    kept p (inr (m, c)) =
        true_false p
          (subst (λ n. eqb n pid ≡ true) (some-injective pid x.pid (sym e ∙ c)) (eqb_same pid))

-- A change of an entry that leaves its pid and its ids
renamed_fill :
    (name : String) (pid : ℕ) (matched : Bool) (current : Option ℕ) (hs : List Holder)
    → AllFill current matched hs
    → AllFill current matched (edit (λ h. record h { basename = name }) pid hs)
unfolding edit
renamed_fill name pid matched current [] h = tt
renamed_fill name pid matched current (x ∷ xs) (k, h) = (
  elim (Bool-cases (eqb x.pid pid)) [ inl p ↦ rw p k | inr p ↦ rw p k ],
  renamed_fill name pid matched current xs h,
)

pub take_command-Good :
    (name : String) (pid : ℕ) (p : Parser) → Good p → Good (take_command name pid p)
unfolding take_command
take_command-Good name pid p g = record {
  fills = λ m. renamed_fill name pid p.matched_target p.current_pid p.holders (g.fills m);
  held = λ m. edit_held _ pid p.holders ∙ g.held m;
}

pub record_name-Good :
    (pid : ℕ) (found : Option Database) (p : Parser)
    → p.current_pid ≡ some pid
    → Good p
    → Good (record_name true pid found p)
unfolding record_name corrupt
record_name-Good pid none p e g = malformed-Good _ refl
record_name-Good pid (some d) p e g = record {
  fills = λ m. matched_fill d.report_id pid p.matched_target p.current_pid p.holders e (g.fills m);
  held = λ m. edit_held _ pid p.holders ∙ g.held m;
}
